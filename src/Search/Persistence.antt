-- ===== src/Search/Persistence.antt =====
-- GetPersistenceInfo against an independent description of the balloon that it names.
use super_mario_odyssey.Prelude.{ℕ, ◌≤◌, ◌≡◌, ◌≢◌, ◌⊎◌, true, none, some, List}
use super_mario_odyssey.Prelude.Map.{lookup, values}
use super_mario_odyssey.Nex.{Nex, Request}
use super_mario_odyssey.Balloon.{
  BalloonRecord, Server, Env, smo_achievement_data_type, result_data_store_not_found,
}
use super_mario_odyssey.Wire.{body_of, refuse, answer}
use super_mario_odyssey.Search.Answers.{persistence_info, get_persistence_info}
use super_mario_odyssey.Invariant.{IsValid, Visits}

-- A completed balloon of the owner, stored, that was posted to the slot or to no slot.
pub record IsPersistent (s : Server) (owner slot : ℕ) (r : BalloonRecord) : Type 0 where
  pub stored : lookup r.data_id s.records ≡ some r
  pub complete : r.complete ≡ true
  pub own : r.owner_id ≡ owner
  pub is_balloon : r.data_type ≢ smo_achievement_data_type
  pub in_slot : (r.slot ≡ none) ⊎ (r.slot ≡ some slot)

module _ ⦃nex : Nex⦄ (env : Env) (req : Request) (owner slot : ℕ) (s : Server) (v : IsValid s)
    (visits : Visits env) where
  -- what the answer says: the id of a newest such balloon, or that there is none
  abbrev pub Answers : Type 0
  Answers =
      ((b : BalloonRecord) × (get_persistence_info env req owner slot s
          ≡ (answer req (body_of (persistence_info owner slot b.data_id)), s))
        × IsPersistent s owner slot b
        × ((r : BalloonRecord) → IsPersistent s owner slot r → r.created_at ≤ b.created_at))
      ⊎ ((get_persistence_info env req owner slot s ≡ (refuse req result_data_store_not_found, s))
          × ((r : BalloonRecord) → ¬ IsPersistent s owner slot r))

  abbrev met : List BalloonRecord
  met = values (env.visit 0 s.records)
