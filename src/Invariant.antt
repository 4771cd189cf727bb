-- ===== src/Invariant.antt =====
-- The invariant of the global variables, and the order in which loops meet the records.
pub mod Operations
pub mod Loops
pub mod Handlers
pub mod Objects
use mathlib.Core.List.{Permᴰ}
use super_mario_odyssey.Prelude.{ℕ, ◌+◌, ◌<◌, ◌≡◌, ◌≢◌, true, none, some, List, [], All}
use super_mario_odyssey.Prelude.Map.{Map, lookup, Distinct}
use super_mario_odyssey.Balloon.{BalloonRecord, PersistedRecord, Server, Env}
use super_mario_odyssey.Ratings.{u64_mod}
use super_mario_odyssey.Objects.{found_by, flag}

-- A loop over the records meets each of them once, in some order.
pub record Visits (env : Env) : Type 0 where
  pub once : (i : ℕ) (m : Map BalloonRecord) → Permᴰ (env.visit i m) m

-- A record of the file leaves room for the next id.
abbrev pub Fits : PersistedRecord → Type 0
Fits p = p.data_id + 1 < u64_mod

-- the records that the next start finds
abbrev pub saved_records : Server → List PersistedRecord
saved_records s = elim s.saved [ none ↦ [] | some recs ↦ recs ]

-- Every record is stored under its own id, ids in use are below the next one, and what counts as
-- found by a player is an id that was given out and is not a balloon of that player; the
-- ids in the file leave room for the next one.
pub record IsValid (s : Server) : Type 0 where
  pub distinct : Distinct s.records
  pub keyed : (k : ℕ) (r : BalloonRecord) → lookup k s.records ≡ some r → r.data_id ≡ k
  pub below : (k : ℕ) (r : BalloonRecord) → lookup k s.records ≡ some r → k < s.next_id
  pub found_below : (pid k : ℕ) → flag k (found_by pid s) ≡ true → k < s.next_id
  pub foreign :
      (pid k : ℕ) (r : BalloonRecord)
      → flag k (found_by pid s) ≡ true
      → lookup k s.records ≡ some r
      → r.owner_id ≢ pid
  pub saved_fits : All Fits (saved_records s)
