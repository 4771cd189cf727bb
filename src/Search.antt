-- ===== src/Search.antt =====
-- GetPersistenceInfo, SearchObject and SearchBalloon of datastore.go: what they choose from the store.
pub mod Answers
pub mod Matches
pub mod Pool
pub mod Persistence
pub mod Newest
pub mod Sets
use super_mario_odyssey.Prelude.{
  ℕ, zero, suc, ◌+◌, ◌%◌, Bool, true, false, not, ◌&&◌, ◌||◌, String, Option, none, some, List, [],
  ◌∷◌, ◌++◌, length, take, keep, replicate, ltb, leb, ◌==◌, if◌then◌else◌,
}
use super_mario_odyssey.Prelude.Map.{Map, lookup, insert, values}
use super_mario_odyssey.Prelude.Sort.{sort_slice}
use super_mario_odyssey.Prelude.State.{State, pure, ◌>>=◌, ◌>>◌}
use super_mario_odyssey.Nex.{Bytes, Nex, Connection, Request}
use super_mario_odyssey.Balloon.{
  RatingInfo, BalloonRecord, NameCacheEntry, Server, Env, smo_achievement_data_type,
  result_data_store_not_found,
}
use super_mario_odyssey.Wire.{
  Reader, Writer, writes, list_of, put_list, read_struct_header, struct_header_with,
  write_struct_header, checked, parse, on_params, body_of, refuse, answer,
}
use super_mario_odyssey.Ratings.{ratings_of, write_ratings}
use super_mario_odyssey.Objects.{found_by, flag}
use super_mario_odyssey.Metas.{put_meta}
use super_mario_odyssey.Names.{disp_name}

-- the `less` of the code's sorts: the newest first
abbrev pub newer : BalloonRecord → BalloonRecord → Bool
newer a b = ltb b.created_at a.created_at

-- *r.Slot, with none for the nil pointer, which matches every slot
abbrev pub slot_matches : ℕ → Option ℕ → Bool
slot_matches slot none = true
slot_matches slot (some k) = k == slot

-- the tests of the loop of dsGetPersistenceInfo
abbrev pub persists : ℕ → ℕ → BalloonRecord → Bool
persists owner slot r =
    r.complete
    && (r.owner_id == owner
        && (not (r.data_type == smo_achievement_data_type) && slot_matches slot r.slot))

-- `best = r` on the first match and on every newer one
abbrev pub better : BalloonRecord → Option BalloonRecord → Option BalloonRecord
better r none = some r
better r (some b) = if newer r b then some r else some b

-- the shape of the loops that look for the newest record that passes their tests
unfoldable pub newest :
    (BalloonRecord → Bool) → Option BalloonRecord → List BalloonRecord → Option BalloonRecord
newest test best [] = best
newest test best (r ∷ rs) = newest test (if test r then better r best else best) rs

-- the loop of dsGetPersistenceInfo
unfoldable pub best_persistent : ℕ → ℕ → List BalloonRecord → Option BalloonRecord
best_persistent owner slot = newest (persists owner slot) none

abbrev pub is_match : ℕ → BalloonRecord → Bool
is_match data_type r = r.complete && (data_type == 0 || r.data_type == data_type)

-- the answer's list of SearchObject
unfoldable pub matches : ℕ → List BalloonRecord → List BalloonRecord
matches data_type rs = take 100 (sort_slice newer (keep (is_match data_type) rs))

-- the three tests of the loop of dsSearchBalloon
abbrev pub is_candidate : ℕ → ℕ → Map Bool → BalloonRecord → Bool
is_candidate client data_type found r =
    if not r.complete || (r.owner_id == client || r.data_type == smo_achievement_data_type)
    then false
    else if not (data_type == 0) && not (r.data_type == data_type)
    then false
    else not (flag r.data_id found)

unfoldable pub candidates : ℕ → ℕ → Map Bool → List BalloonRecord → List BalloonRecord
candidates client data_type found rs =
    sort_slice newer (keep (is_candidate client data_type found) rs)

-- ownerAt, ownerSnap and ownerStats
pub record OwnerSnap : Type 0 where
  pub at : Map ℕ
  pub ratings : Map (Map RatingInfo)
  pub stats : Map ℕ

abbrev pub no_owners : OwnerSnap
no_owners = record { at = []; ratings = []; stats = [] }

-- a missing key of a map of numbers reads as 0
abbrev pub number_at : ℕ → Map ℕ → ℕ
number_at k m = elim (lookup k m) [ none ↦ 0 | some v ↦ v ]

abbrev pub ratings_at : ℕ → Map (Map RatingInfo) → Map RatingInfo
ratings_at k m = elim (lookup k m) [ none ↦ [] | some v ↦ v ]

abbrev pub is_stats : BalloonRecord → Bool
is_stats r = r.complete && r.data_type == smo_achievement_data_type

unfoldable pub owner_step : BalloonRecord → OwnerSnap → OwnerSnap
owner_step r o =
    if is_stats r && leb (number_at r.owner_id o.at) r.created_at
    then record {
      at = insert r.owner_id r.created_at o.at;
      ratings = insert r.owner_id (ratings_of (some r)) o.ratings;
      stats = insert r.owner_id r.data_id o.stats;
    }
    else o

unfoldable pub owner_snap : List BalloonRecord → OwnerSnap → OwnerSnap
owner_snap [] o = o
owner_snap (r ∷ rs) o = owner_snap rs (owner_step r o)

-- ratingSnap
unfoldable pub rating_snap : List BalloonRecord → Map (Map RatingInfo) → Map (Map RatingInfo)
rating_snap [] m = m
rating_snap (r ∷ rs) m = rating_snap rs (insert r.data_id (ratings_of (some r)) m)

-- sets[j] = append(sets[j], r)
unfoldable pub append_at {ℓ} : {A : Type ℓ} → ℕ → A → List (List A) → List (List A)
append_at j r [] = []
append_at zero r (set ∷ sets) = (set ++ r ∷ []) ∷ sets
append_at (suc j) r (set ∷ sets) = set ∷ append_at j r sets

-- the loop of splitIntoSets, at round i
unfoldable pub deal {ℓ} : {A : Type ℓ} → ℕ → ℕ → List A → List (List A) → List (List A)
deal n i [] sets = sets
deal n i (r ∷ pool) sets = deal n (i + 1) pool (append_at (i % n) r sets)

-- the number of sets; the argument of the code is never negative
unfoldable pub set_count {ℓ} : {A : Type ℓ} → List A → ℕ → ℕ
set_count pool n =
    let n' = if n == 0 then 1 else n in
    if ltb 0 (length pool) && ltb (length pool) n' then length pool else n'

unfoldable pub split_into_sets {ℓ} : {A : Type ℓ} → List A → ℕ → List (List A)
unfolding set_count deal append_at
split_into_sets pool n = let k = set_count pool n in deal k 0 pool (replicate k [])
