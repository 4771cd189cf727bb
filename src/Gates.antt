-- ===== src/Gates.antt =====
-- gates.go: what the account server says of a player. Its answers are a parameter: `none` for a
-- request that cannot be sent or fails.
pub mod Resolve
use super_mario_odyssey.Prelude.{
  ℕ, Bool, true, false, not, ◌||◌, String, Option, none, some, ◌==◌, if◌then◌else◌,
}
use super_mario_odyssey.Prelude.Map.{Map, lookup, insert}
use super_mario_odyssey.Prelude.State.{State}

-- the decoded body of /internal/online-check
pub record OnlineCheck : Type 0 where
  pub allow : Bool
  pub reason : String

-- The inner option is the decoding of the body.
unfoldable pub nextendo_online_check : Option (Option OnlineCheck) → Bool × String
nextendo_online_check none = (true, "")
nextendo_online_check (some none) = (true, "")
nextendo_online_check (some (some out)) = (out.allow, out.reason)

pub data NsaStatus : Type 0 where
  nsa_ok nsa_unknown nsa_unreachable : NsaStatus

-- an answer of /api/nsa: the status code, and the PID of the body, if it decodes
pub record NsaResponse : Type 0 where
  pub status_code : ℕ
  pub pid : Option ℕ

-- nsaCache
abbrev pub NsaCache : Type 0
NsaCache = Map ℕ

unfoldable pub read_nsa_response : ℕ → NsaResponse → State NsaCache (ℕ × NsaStatus)
read_nsa_response nsa resp cache =
    if resp.status_code == 404
    then ((0, nsa_unknown), cache)
    else if not (resp.status_code == 200)
    then ((0, nsa_unreachable), cache)
    else elim resp.pid [
      | none ↦ ((0, nsa_unreachable), cache)
      | some pid ↦
          if pid == 0 then ((0, nsa_unreachable), cache) else ((pid, nsa_ok), insert nsa pid cache)
    ]

-- the request for an id that the cache does not hold
unfoldable pub fetch_nsa : Option NsaResponse → ℕ → State NsaCache (ℕ × NsaStatus)
unfolding read_nsa_response
fetch_nsa none nsa cache = ((0, nsa_unreachable), cache)
fetch_nsa (some resp) nsa cache = read_nsa_response nsa resp cache

unfoldable pub resolve_nsa_to_pid : (ℕ → Option NsaResponse) → ℕ → State NsaCache (ℕ × NsaStatus)
unfolding fetch_nsa
resolve_nsa_to_pid ask nsa cache = elim (lookup nsa cache) [
  | some pid ↦ ((pid, nsa_ok), cache)
  | none ↦ fetch_nsa (ask nsa) nsa cache
]
