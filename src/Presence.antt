-- ===== src/Presence.antt =====
-- presence.go: the players seen lately.
pub mod Active
use super_mario_odyssey.Prelude.{
  ℕ, ◌-◌, ◌*◌, Bool, true, false, Option, none, some, String, List, [], ◌∷◌, ltb, ◌==◌,
  if◌then◌else◌,
}
use super_mario_odyssey.Prelude.Map.{Map, insert, erase}
use super_mario_odyssey.Prelude.State.{State}

-- one minute, in nanoseconds
abbrev pub presence_ttl : ℕ
presence_ttl = 60_000_000_000

-- presSeen: the time at which each player was seen
abbrev pub Seen : Type 0
Seen = Map ℕ

unfoldable pub note_presence_seen : ℕ → ℕ → Seen → Seen
note_presence_seen now pid seen = if pid == 0 then seen else insert pid now seen

abbrev pub is_active : ℕ → ℕ → Bool
is_active now t = ltb (now - t) presence_ttl

-- the loop over the entries, in the order in which it meets them
unfoldable pub active_loop : ℕ → Seen → State Seen (List ℕ)
active_loop now [] seen = ([], seen)
active_loop now ((pid, t) ∷ rest) seen = elim (is_active now t) [
  | true ↦ let (active, seen') = active_loop now rest seen in (pid ∷ active, seen')
  | false ↦ active_loop now rest (erase pid seen)
]

unfoldable pub active_pids : ℕ → (Seen → Seen) → State Seen (List ℕ)
active_pids now visit seen = active_loop now (visit seen) seen

-- the batch that is posted to the account server
pub record PresenceBatch : Type 0 where
  pub app_id : String
  pub status : ℕ
  pub pids : List ℕ

-- smoTitleID
abbrev pub smo_title_id : String
smo_title_id = "0100000000010000"

abbrev pub presence_status : ℕ
presence_status = 2

abbrev pub batch_of : List ℕ → Option PresenceBatch
batch_of [] = none
batch_of (pid ∷ active) =
    some (record { app_id = smo_title_id; status = presence_status; pids = pid ∷ active })

-- a round of the reporter; nothing that the program keeps depends on the answer
unfoldable pub report_presence : ℕ → (Seen → Seen) → State Seen (Option PresenceBatch)
unfolding active_pids
report_presence now visit seen =
    let (active, seen') = active_pids now visit seen in (batch_of active, seen')
