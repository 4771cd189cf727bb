-- ===== src/Infos/Owners.antt =====
-- The stats records that SearchBalloon shows of the owners of balloons.
use super_mario_odyssey.Prelude.{
  ℕ, ◌≤◌, ◌≡◌, refl, ◌∙◌, leb→le, true, false, ◌&&◌, Option, none, some, List, [], ◌∷◌, arith, leb,
  ◌==◌, if◌then◌else◌, inl, inr, Bool-cases, ==_iff,
}
use super_mario_odyssey.Prelude.Map.{lookup, insert, values, lookup-insert, lookup-insert_self}
use super_mario_odyssey.Balloon.{BalloonRecord, Server, Env}
use super_mario_odyssey.Ratings.{ratings_of}
use super_mario_odyssey.Search.{OwnerSnap, no_owners, number_at, is_stats, owner_step, owner_snap}
use super_mario_odyssey.Search.Newest.{IsNewest, Finds, three, add_second, prepend}
use super_mario_odyssey.Infos.{is_achievement}
use super_mario_odyssey.Infos.Achievement.{Echoes, echoes}
use super_mario_odyssey.Invariant.{IsValid, Visits}

-- The three maps hold the time, the ratings and the id of one record of the owner, or nothing.
abbrev pub Shows : ℕ → Option BalloonRecord → OwnerSnap → Type 0
Shows owner none o =
    (lookup owner o.at ≡ none) × (lookup owner o.ratings ≡ none) × (lookup owner o.stats ≡ none)
Shows owner (some b) o =
    (lookup owner o.at ≡ some b.created_at)
    × (lookup owner o.ratings ≡ some b.ratings)
    × (lookup owner o.stats ≡ some b.data_id)

abbrev time_of : Option BalloonRecord → ℕ
time_of none = 0
time_of (some b) = b.created_at

-- the loop as it is for one owner
abbrev pick : ℕ → BalloonRecord → Option BalloonRecord → Option BalloonRecord
pick owner r best =
    if is_achievement owner r && leb (time_of best) r.created_at then some r else best

abbrev latest : ℕ → Option BalloonRecord → List BalloonRecord → Option BalloonRecord
latest owner best [] = best
latest owner best (r ∷ rs) = latest owner (pick owner r best) rs

is_achievement-is_stats :
    (owner : ℕ) (r : BalloonRecord) → is_achievement owner r ≡ (r.owner_id == owner && is_stats r)
is_achievement-is_stats owner r = ground arith

number_at-Shows :
    (owner : ℕ) (best : Option BalloonRecord) (o : OwnerSnap)
    → Shows owner best o
    → number_at owner o.at ≡ time_of best
number_at-Shows owner none o h = rw (number_at, h.0) refl
number_at-Shows owner (some b) o h = rw (number_at, h.0) refl

Shows-other :
    (owner k : ℕ) (best : Option BalloonRecord) (o : OwnerSnap) (r : BalloonRecord)
    → (k == owner) ≡ false
    → Shows owner best o
    → Shows owner best (record {
      at = insert k r.created_at o.at;
      ratings = insert k (ratings_of (some r)) o.ratings;
      stats = insert k r.data_id o.stats;
    })
Shows-other owner k none o r e h =
    rw
      (
        lookup-insert k owner r.created_at o.at,
        lookup-insert k owner (ratings_of (some r)) o.ratings,
        lookup-insert k owner r.data_id o.stats,
        e,
      )
      h
Shows-other owner k (some b) o r e h =
    rw
      (
        lookup-insert k owner r.created_at o.at,
        lookup-insert k owner (ratings_of (some r)) o.ratings,
        lookup-insert k owner r.data_id o.stats,
        e,
      )
      h

Shows-own :
    (owner k : ℕ) (o : OwnerSnap) (r : BalloonRecord)
    → k ≡ owner
    → Shows owner (some r) (record {
      at = insert k r.created_at o.at;
      ratings = insert k (ratings_of (some r)) o.ratings;
      stats = insert k r.data_id o.stats;
    })
unfolding ratings_of
Shows-own owner k o r same = rw same (
  lookup-insert_self owner r.created_at o.at,
  lookup-insert_self owner r.ratings o.ratings,
  lookup-insert_self owner r.data_id o.stats,
)

Shows-owner_step :
    (owner : ℕ) (r : BalloonRecord) (best : Option BalloonRecord) (o : OwnerSnap)
    → Shows owner best o
    → Shows owner (pick owner r best) (owner_step r o)
unfolding owner_step ratings_of
Shows-owner_step owner r best o h = elim (Bool-cases (r.owner_id == owner)) [
  | inr e ↦
      let skipped : is_achievement owner r ≡ false = rw (is_achievement-is_stats owner r, e) refl in
      elim (Bool-cases (is_stats r && leb (number_at r.owner_id o.at) r.created_at)) [
        | inl t ↦ rw (t, skipped) (Shows-other owner r.owner_id best o r e h)
        | inr t ↦ rw (t, skipped) h
      ]
  | inl e ↦
      let same : r.owner_id ≡ owner = (==_iff r.owner_id owner).0 e in
      let kind : is_achievement owner r ≡ is_stats r =
        rw (is_achievement-is_stats owner r, e) refl in
      let time : number_at r.owner_id o.at ≡ time_of best =
        rw same (number_at-Shows owner best o h) in
      let test : (is_stats r && leb (number_at r.owner_id o.at) r.created_at)
          ≡ (is_achievement owner r && leb (time_of best) r.created_at) =
        rw (time, kind) refl in
      elim (Bool-cases (is_achievement owner r && leb (time_of best) r.created_at)) [
        | inl t ↦ rw (test ∙ t, t) (Shows-own owner r.owner_id o r same)
        | inr t ↦ rw (test ∙ t, t) h
      ]
]

-- The loop over some records keeps to a newest stats record of the owner.
latest-some :
    (owner : ℕ) (rs : List BalloonRecord) (b : BalloonRecord)
    → is_achievement owner b ≡ true
    → (c : BalloonRecord) × (latest owner (some b) rs ≡ some c)
      × IsNewest (is_achievement owner) (b ∷ rs) c
latest-some owner [] b t = (
  b,
  refl,
  record {
    met = inl refl;
    passes = t;
    last = λ r m p. elim m [ inl e ↦ ground (arith, e) | inr n ↦ absurd n ];
  },
)
latest-some owner (r ∷ rs) b t = elim (Bool-cases (is_achievement owner r)) [
  | inr no_r ↦
      let (c, found, n) = latest-some owner rs b t in
      (c, rw no_r found, add_second (is_achievement owner) b r c rs (λ p. cc) t n)
  | inl is_r ↦ elim (Bool-cases (leb b.created_at r.created_at)) [
    | inr old ↦
        let (c, found, n) = latest-some owner rs b t in
        (
          c,
          rw (is_r, old) found,
          add_second (is_achievement owner) b r c rs (λ p. ground (arith, old)) t n,
        )
    | inl young ↦
        let (c, found, n) = latest-some owner rs r is_r in
        (
          c,
          rw (is_r, young) found,
          record {
            met = inr n.met;
            passes = n.passes;
            last =
                three (is_achievement owner)
                  (λ x. is_achievement owner x ≡ true → x.created_at ≤ c.created_at) b r rs
                  (λ p.
                    omega (arith, n.last r (inl refl) is_r, leb→le b.created_at r.created_at young))
                  (n.last r (inl refl)) (λ x m. n.last x (inr m));
          },
        )
  ]
]

latest-Finds :
    (owner : ℕ) (rs : List BalloonRecord) → Finds (is_achievement owner) rs (latest owner none rs)
latest-Finds owner [] = λ r m. absurd m
latest-Finds owner (r ∷ rs) = elim (Bool-cases (is_achievement owner r)) [
  | inr e ↦
      rw e (prepend (is_achievement owner) r rs (latest owner none rs) e (latest-Finds owner rs))
  | inl e ↦
      let first : leb 0 r.created_at ≡ true = ground arith in
      let (c, found, n) = latest-some owner rs r e in rw (e, first, found) n
]

Shows-owner_snap :
    (owner : ℕ) (rs : List BalloonRecord) (best : Option BalloonRecord) (o : OwnerSnap)
    → Shows owner best o
    → Shows owner (latest owner best rs) (owner_snap rs o)
unfolding owner_snap
Shows-owner_snap owner [] best o h = h
Shows-owner_snap owner (r ∷ rs) best o h =
    Shows-owner_snap owner rs (pick owner r best) (owner_step r o)
      (Shows-owner_step owner r best o h)

-- On a valid server, if the loop meets each record once: what SearchBalloon shows of the owner of a
-- balloon, the id and the ratings of a stats record, are those of one and the same record, a newest
-- completed stats record of that owner; and it shows nothing only if the owner has none.
pub owner_snap-Echoes :
    (env : Env) (s : Server) (owner i : ℕ)
    → IsValid s
    → Visits env
    → (best : Option BalloonRecord) × Echoes s owner best
      × Shows owner best (owner_snap (values (env.visit i s.records)) no_owners)
owner_snap-Echoes env s owner i v visits =
    let rs = values (env.visit i s.records) in
    (
      latest owner none rs,
      echoes env s owner v visits i (latest owner none rs) (latest-Finds owner rs),
      Shows-owner_snap owner rs none no_owners (unfold lookup in (refl, refl, refl)),
    )
