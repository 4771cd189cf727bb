-- ===== src/Infos/Mine.antt =====
-- The balloons that FetchMyInfos lists, against an independent description of them.
use mathlib.Core.List.Permᴰ
use super_mario_odyssey.Prelude.{
  ℕ, ◌≡◌, ◌≢◌, ◌⊎◌, ◌↔◌, refl, Bool, true, some, List, [], ◌∷◌, arith, inl, inr, ◌==◌, Bool-cases,
}
use super_mario_odyssey.Prelude.Map.{lookup, values}
use super_mario_odyssey.Prelude.Member.{In, In-perm, In-keep→, In-keep←}
use super_mario_odyssey.Prelude.Sort.{sort_slice-perm, sort_slice-IsSorted}
use super_mario_odyssey.Balloon.{BalloonRecord, Server, Env, smo_achievement_data_type}
use super_mario_odyssey.Search.{newer}
use super_mario_odyssey.Search.Pool.{In-visit, newer_asym, newer_trans}
use super_mario_odyssey.Search.Matches.{NewestFirst, NewestFirst-of_IsSorted}
use super_mario_odyssey.Infos.{has_type, want_type, is_mine, my_balloons}
use super_mario_odyssey.Invariant.{IsValid, Visits}

has_type_iff : (types : List ℕ) (t : ℕ) → (has_type types t ≡ true) ↔ In t types
unfolding has_type
has_type_iff [] t = (λ h. absurd (cc), λ m. absurd m)
has_type_iff (x ∷ types) t = (
  λ h. elim (Bool-cases (x == t)) [
    | inl e ↦ inl (ground arith)
    | inr e ↦ inr ((has_type_iff types t).0 (ground arith))
  ],
  λ h. elim h [
    | inl e ↦ ground arith
    | inr m ↦ let rest = (has_type_iff types t).1 m in ground arith
  ],
)

want_type_iff : (types : List ℕ) (t : ℕ) → (want_type types t ≡ true) ↔ ((types ≡ []) ⊎ In t types)
unfolding want_type
want_type_iff [] t = (λ h. inl refl, λ h. refl)
want_type_iff (x ∷ types) t = (
  λ h. inr ((has_type_iff (x ∷ types) t).0 h),
  λ h. elim h [ inl e ↦ absurd (cc) | inr m ↦ (has_type_iff (x ∷ types) t).1 m ],
)

-- What a player has placed: a complete balloon of that player, of one of the kingdoms asked for, or
-- of any kingdom if none is named.
pub record IsMine (client : ℕ) (types : List ℕ) (r : BalloonRecord) : Type 0 where
  pub complete : r.complete ≡ true
  pub own : r.owner_id ≡ client
  pub is_balloon : r.data_type ≢ smo_achievement_data_type
  pub kingdom : (types ≡ []) ⊎ In r.data_type types

is_mine_iff :
    (client : ℕ) (types : List ℕ) (r : BalloonRecord)
    → (is_mine client types r ≡ true) ↔ IsMine client types r
is_mine_iff client types r = (
  λ h. record {
    complete = ground arith;
    own = ground arith;
    is_balloon = ground arith;
    kingdom = (want_type_iff types r.data_type).0 (ground arith);
  },
  λ m.
      let wanted = (want_type_iff types r.data_type).1 m.kingdom in
      ground (arith, m.complete, m.own, m.is_balloon),
)

-- On a valid server, FetchMyInfos lists newer balloons first, and it lists a record exactly if the
-- record is stored, complete, a balloon of the player (not of type 200), and of one of the types
-- asked for, or of any type if none is named.
pub my_balloons-IsMine :
    (env : Env) (s : Server) (client : ℕ) (types : List ℕ) (r : BalloonRecord)
    → IsValid s
    → Visits env
    → NewestFirst (my_balloons client types (values (env.visit 0 s.records)))
      × (In r (my_balloons client types (values (env.visit 0 s.records)))
          ↔ (lookup r.data_id s.records ≡ some r) × IsMine client types r)
unfolding my_balloons
my_balloons-IsMine env s client types r v visits =
    (NewestFirst-of_IsSorted _ (sort_slice-IsSorted newer newer_asym newer_trans _), (to, from))
  where
    test : BalloonRecord → Bool
    test = is_mine client types

    to :
        In r (my_balloons client types (values (env.visit 0 s.records)))
        → (lookup r.data_id s.records ≡ some r) × IsMine client types r
    to m =
        let (met, passed) =
          In-keep→ test r (values (env.visit 0 s.records))
            (In-perm r (sort_slice-perm newer _) m) in
        ((In-visit env s 0 r v visits).0 met, (is_mine_iff client types r).0 passed)

    from :
        (lookup r.data_id s.records ≡ some r) × IsMine client types r
        → In r (my_balloons client types (values (env.visit 0 s.records)))
    from (stored, mine) = In-perm r (Permᴰ.symm (sort_slice-perm newer _)) (
        In-keep← test r (values (env.visit 0 s.records)) ((In-visit env s 0 r v visits).1 stored)
          ((is_mine_iff client types r).1 mine))
