-- ===== src/Search/Pool.antt =====
-- The candidates of SearchBalloon, against an independent description of them.
use mathlib.Core.List.Permᴰ
use super_mario_odyssey.Prelude.{
  ℕ, ◌≡◌, ◌≢◌, ◌↔◌, ◌⊎◌, ap, ◌∙◌, Bool, true, false, some, List, arith,
}
use super_mario_odyssey.Prelude.Map.{lookup, values}
use super_mario_odyssey.Prelude.Member.{
  In, In-perm, In-keep→, In-keep←, In-values→, In-values←, In_of_lookup, lookup_of_In,
}
use super_mario_odyssey.Prelude.Sort.{sort_slice-perm, IsSorted, sort_slice-IsSorted}
use super_mario_odyssey.Balloon.{BalloonRecord, Server, Env, smo_achievement_data_type}
use super_mario_odyssey.Objects.{found_by, flag}
use super_mario_odyssey.Search.{newer, is_candidate, candidates}
use super_mario_odyssey.Invariant.{IsValid, Visits}

-- the records that a loop meets are those of the store
pub In-visit :
    (env : Env) (s : Server) (i : ℕ) (r : BalloonRecord)
    → IsValid s
    → Visits env
    → In r (values (env.visit i s.records)) ↔ (lookup r.data_id s.records ≡ some r)
In-visit env s i r v visits = (to, from)
  where
    to : In r (values (env.visit i s.records)) → lookup r.data_id s.records ≡ some r
    to m =
        let (k, at) = In-values→ r (env.visit i s.records) m in
        let e : lookup k s.records ≡ some r =
          lookup_of_In k r s.records v.distinct (In-perm _ (visits.once i s.records) at) in
        ap (λ j. lookup j s.records) (v.keyed k r e) ∙ e

    from : lookup r.data_id s.records ≡ some r → In r (values (env.visit i s.records))
    from e =
        In-values← r.data_id r (env.visit i s.records)
          (In-perm _ (Permᴰ.symm (visits.once i s.records)) (In_of_lookup r.data_id r s.records e))

pub newer_asym : (a b : BalloonRecord) → newer a b ≡ true → newer b a ≡ false
newer_asym a b h = ground arith

pub newer_trans :
    (a b c : BalloonRecord) → newer b a ≡ false → newer c b ≡ false → newer c a ≡ false
newer_trans a b c h k = ground arith

-- What a player may be shown: a completed balloon of somebody else, of the kingdom asked for,
-- which that player has not found.
pub record IsCandidate (s : Server) (client data_type : ℕ) (r : BalloonRecord) : Type 0 where
  pub complete : r.complete ≡ true
  pub of_other : r.owner_id ≢ client
  pub is_balloon : r.data_type ≢ smo_achievement_data_type
  pub kingdom : (data_type ≡ 0) ⊎ (r.data_type ≡ data_type)
  pub unfound : flag r.data_id (found_by client s) ≡ false

IsCandidate-of_test :
    (s : Server) (client data_type : ℕ) (r : BalloonRecord)
    → is_candidate client data_type (found_by client s) r ≡ true
    → IsCandidate s client data_type r
IsCandidate-of_test s client data_type r h = record {
  complete = ground arith;
  of_other = ground arith;
  is_balloon = ground arith;
  kingdom = ground arith;
  unfound = ground arith;
}

test_of_IsCandidate :
    (s : Server) (client data_type : ℕ) (r : BalloonRecord)
    → IsCandidate s client data_type r
    → is_candidate client data_type (found_by client s) r ≡ true
test_of_IsCandidate s client data_type r c = ground (arith, c.of_other, c.is_balloon)

module _ (env : Env) (s : Server) (client data_type : ℕ) where
  abbrev pool : List BalloonRecord
  pool = candidates client data_type (found_by client s) (values (env.visit 0 s.records))

  -- The pool of a search lists newer balloons first.
  pub candidates-IsSorted : IsSorted newer pool
  unfolding candidates
  candidates-IsSorted = sort_slice-IsSorted newer newer_asym newer_trans _

  -- On a valid server, the pool of a search holds a record exactly if the record is stored and is a
  -- candidate for the player: complete, a balloon of somebody else, of the kingdom asked for, and
  -- not found by the player.
  pub In-candidates :
      (r : BalloonRecord)
      → IsValid s
      → Visits env
      → In r pool ↔ (lookup r.data_id s.records ≡ some r) × IsCandidate s client data_type r
  unfolding candidates
  In-candidates r v visits = (to, from)
    where
      test : BalloonRecord → Bool
      test = is_candidate client data_type (found_by client s)

      to : In r pool → (lookup r.data_id s.records ≡ some r) × IsCandidate s client data_type r
      to m =
          let (met, passed) =
            In-keep→ test r (values (env.visit 0 s.records))
              (In-perm r (sort_slice-perm newer _) m) in
          ((In-visit env s 0 r v visits).0 met, IsCandidate-of_test s client data_type r passed)

      from : (lookup r.data_id s.records ≡ some r) × IsCandidate s client data_type r → In r pool
      from (stored, c) = In-perm r (Permᴰ.symm (sort_slice-perm newer _)) (
          In-keep← test r (values (env.visit 0 s.records)) ((In-visit env s 0 r v visits).1 stored)
            (test_of_IsCandidate s client data_type r c))
