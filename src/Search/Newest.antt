-- ===== src/Search/Newest.antt =====
-- The loops that look for one record: GetPersistenceInfo, and the achievement of FetchMyInfos.
use super_mario_odyssey.Prelude.{
  ◌≤◌, ◌≡◌, refl, Bool, true, false, Option, none, some, List, [], ◌∷◌, arith, inl, inr, Bool-cases,
}
use super_mario_odyssey.Prelude.Member.{In}
use super_mario_odyssey.Balloon.{BalloonRecord}
use super_mario_odyssey.Search.{newest, newer}

module _ (test : BalloonRecord → Bool) where
  -- The record is one that the loop met, it passes, and nothing that passes is newer.
  pub record IsNewest (rs : List BalloonRecord) (b : BalloonRecord) : Type 0 where
    pub met : In b rs
    pub passes : test b ≡ true
    pub last : (r : BalloonRecord) → In r rs → test r ≡ true → r.created_at ≤ b.created_at

  abbrev pub Finds : List BalloonRecord → Option BalloonRecord → Type 0
  Finds rs none = (r : BalloonRecord) → In r rs → test r ≡ false
  Finds rs (some b) = IsNewest rs b

  skip_second :
      (b r c : BalloonRecord) (rs : List BalloonRecord) → In c (b ∷ rs) → In c (b ∷ r ∷ rs)
  skip_second b r c rs (inl e) = inl e
  skip_second b r c rs (inr m) = inr (inr m)

  -- what is true of the two first and of the rest
  pub three :
      (P : BalloonRecord → Type 0) (b r : BalloonRecord) (rs : List BalloonRecord)
      → P b
      → P r
      → ((x : BalloonRecord) → In x rs → P x)
      → (x : BalloonRecord) → In x (b ∷ r ∷ rs)
      → P x
  three P b r rs pb pr f x (inl e) = rw e pb
  three P b r rs pb pr f x (inr (inl e)) = rw e pr
  three P b r rs pb pr f x (inr (inr m)) = f x m

  -- the second record changes nothing
  pub add_second :
      (b r c : BalloonRecord) (rs : List BalloonRecord)
      → (test r ≡ true → r.created_at ≤ b.created_at)
      → test b ≡ true
      → IsNewest (b ∷ rs) c
      → IsNewest (b ∷ r ∷ rs) c
  add_second b r c rs older t n = record {
    met = skip_second b r c rs n.met;
    passes = n.passes;
    last =
        three (λ x. test x ≡ true → x.created_at ≤ c.created_at) b r rs (n.last b (inl refl))
          (λ p. omega (arith, older p, n.last b (inl refl) t)) (λ x m. n.last x (inr m));
  }

  -- from a best record so far
  newest-some :
      (rs : List BalloonRecord) (b : BalloonRecord)
      → test b ≡ true
      → (c : BalloonRecord) × (newest test (some b) rs ≡ some c) × IsNewest (b ∷ rs) c
  unfolding newest
  newest-some [] b t = (
    b,
    refl,
    record {
      met = inl refl;
      passes = t;
      last = λ r m p. elim m [ inl e ↦ ground arith | inr n ↦ absurd n ];
    },
  )
  newest-some (r ∷ rs) b t = elim (Bool-cases (test r)) [
    | inr no_r ↦
        let (c, found, n) = newest-some rs b t in
        (c, rw no_r found, add_second b r c rs (λ p. cc) t n)
    | inl is_r ↦ elim (Bool-cases (newer r b)) [
      | inr old ↦
          let (c, found, n) = newest-some rs b t in
          (c, rw (is_r, old) found, add_second b r c rs (λ p. ground arith) t n)
      | inl young ↦
          let (c, found, n) = newest-some rs r is_r in
          (
            c,
            rw (is_r, young) found,
            record {
              met = inr n.met;
              passes = n.passes;
              last =
                  three (λ x. test x ≡ true → x.created_at ≤ c.created_at) b r rs
                    (λ p. ground (arith, n.last r (inl refl) is_r)) (n.last r (inl refl))
                    (λ x m. n.last x (inr m));
            },
          )
    ]
  ]

  none_or :
      (r : BalloonRecord) (rs : List BalloonRecord)
      → test r ≡ false
      → ((x : BalloonRecord) → In x rs → test x ≡ false)
      → (x : BalloonRecord) → In x (r ∷ rs)
      → test x ≡ false
  none_or r rs e f x (inl q) = rw q e
  none_or r rs e f x (inr m) = f x m

  pub prepend :
      (r : BalloonRecord) (rs : List BalloonRecord) (o : Option BalloonRecord)
      → test r ≡ false
      → Finds rs o
      → Finds (r ∷ rs) o
  prepend r rs none e f = none_or r rs e f
  prepend r rs (some c) e n = record {
    met = inr n.met;
    passes = n.passes;
    last = λ x m p. elim m [ inl q ↦ absurd (ground arith) | inr i ↦ n.last x i p ];
  }

  -- The loop returns a newest record that passes, and none if none passes.
  pub newest-Finds : (rs : List BalloonRecord) → Finds rs (newest test none rs)
  unfolding newest
  newest-Finds [] = λ r m. absurd m
  newest-Finds (r ∷ rs) = elim (Bool-cases (test r)) [
    | inr e ↦ rw e (prepend r rs (newest test none rs) e (newest-Finds rs))
    | inl e ↦ let (c, found, n) = newest-some rs r e in rw (e, found) n
  ]
