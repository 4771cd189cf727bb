-- ===== src/Tests/Logins.antt =====
-- The theorems about the login, at small inputs.
use super_mario_odyssey.Prelude.{ℕ, refl, Option, some, []}
use super_mario_odyssey.Prelude.Map.{lookup}
use super_mario_odyssey.Gates.{NsaResponse, resolve_nsa_to_pid}
use super_mario_odyssey.Gates.Resolve.{IsResolved, resolve_nsa_to_pid-IsResolved}

abbrev linked_to_42 : ℕ → Option NsaResponse
linked_to_42 nsa = some (record { status_code = 200; pid = some 42 })

resolve_nsa_to_pid-IsResolved_example :
    IsResolved linked_to_42 1810000001 42 [] (resolve_nsa_to_pid linked_to_42 1810000001 []).1
unfolding resolve_nsa_to_pid lookup
resolve_nsa_to_pid-IsResolved_example =
    resolve_nsa_to_pid-IsResolved linked_to_42 1810000001 42 [] refl
