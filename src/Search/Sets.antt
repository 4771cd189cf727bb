-- ===== src/Search/Sets.antt =====
-- The result sets of SearchBalloon: the pool is dealt out in turn.
use super_mario_odyssey.Prelude.{
  ℕ, zero, suc, ◌+◌, ◌%◌, ◌≤◌, ◌<◌, ◌≡◌, ◌≢◌, ◌⊎◌, refl, ap, ◌∙◌, some, List, [], ◌∷◌, ◌++◌, arith,
  length, get_elem?, replicate, length-replicate, ◌==◌, if◌then◌else◌, inl, inr, Bool-cases,
}
use mathlib.Core.List.{append_assoc, append-nil}
use native.Mathlib.Nat.{mod-eq_of_lt}
use super_mario_odyssey.Search.{append_at, deal, set_count, split_into_sets}

module _ {A : Type 0} where
  get_elem?-replicate : (n j : ℕ) (a : A) → j < n → get_elem? (replicate n a) j ≡ some a
  get_elem?-replicate zero j a h = absurd (omega arith)
  get_elem?-replicate (suc n) zero a h = refl
  get_elem?-replicate (suc n) (suc j) a h = get_elem?-replicate n j a (omega arith)

module _ {A : Type 0} where
  -- The elements of the pool whose position, counted from i, leaves the remainder j by k.
  unfoldable pub share : ℕ → ℕ → ℕ → List A → List A
  share k j i [] = []
  share k j i (r ∷ pool) =
      let rest = share k j (i + 1) pool in if i % k == j then r ∷ rest else rest

  length-append_at :
      (j : ℕ) (r : A) (sets : List (List A)) → length (append_at j r sets) ≡ length sets
  unfolding append_at
  length-append_at j r [] = refl
  length-append_at zero r (set ∷ sets) = refl
  length-append_at (suc j) r (set ∷ sets) = ap suc (length-append_at j r sets)

  length-deal :
      (k i : ℕ) (pool : List A) (sets : List (List A)) → length (deal k i pool sets) ≡ length sets
  unfolding deal
  length-deal k i [] sets = refl
  length-deal k i (r ∷ pool) sets =
      length-deal k (i + 1) pool (append_at (i % k) r sets) ∙ length-append_at (i % k) r sets

  get_elem?-append_at :
      (m j : ℕ) (r : A) (set : List A) (sets : List (List A))
      → get_elem? sets j ≡ some set
      → get_elem? (append_at m r sets) j ≡ some (if m == j then set ++ r ∷ [] else set)
  unfolding append_at
  get_elem?-append_at m j r set [] h = cc
  get_elem?-append_at zero zero r set (s ∷ sets) h = ground arith
  get_elem?-append_at zero (suc j) r set (s ∷ sets) h = ground arith
  get_elem?-append_at (suc m) zero r set (s ∷ sets) h = ground arith
  get_elem?-append_at (suc m) (suc j) r set (s ∷ sets) h =
      ground (arith, get_elem?-append_at m j r set sets)

  get_elem?-deal :
      (k j i : ℕ) (pool set : List A) (sets : List (List A))
      → get_elem? sets j ≡ some set
      → get_elem? (deal k i pool sets) j ≡ some (set ++ share k j i pool)
  unfolding deal share
  get_elem?-deal k j i [] set sets h = rw append-nil h
  get_elem?-deal k j i (r ∷ pool) set sets h = elim (Bool-cases (i % k == j)) [
    | inl e ↦ rw e (
        get_elem?-deal k j (i + 1) pool (set ++ r ∷ []) (append_at (i % k) r sets)
          (rw e at (get_elem?-append_at (i % k) j r set sets h))
        ∙ ap some (append_assoc set (r ∷ []) (share k j (i + 1) pool)))
    | inr e ↦ rw e (
        get_elem?-deal k j (i + 1) pool set (append_at (i % k) r sets)
          (rw e at (get_elem?-append_at (i % k) j r set sets h)))
  ]

  get_elem?-lt :
      (sets : List (List A)) (j : ℕ) (set : List A) → get_elem? sets j ≡ some set → j < length sets
  get_elem?-lt [] j set h = cc
  get_elem?-lt (s ∷ sets) zero set h = omega arith
  get_elem?-lt (s ∷ sets) (suc j) set h = omega (arith, get_elem?-lt sets j set h)

  share-ne-nil :
      (k j i : ℕ) (pool : List A) → i ≤ j → j < i + length pool → j < k → share k j i pool ≢ []
  unfolding share
  share-ne-nil k j i [] lo hi h = absurd (omega arith)
  share-ne-nil k j i (r ∷ pool) lo hi h =
      let small : i % k ≡ i = mod-eq_of_lt (omega arith) in
      ground (arith, share-ne-nil k j (i + 1) pool)

  set_count-pos : (pool : List A) (n : ℕ) → 0 < set_count pool n
  unfolding set_count
  set_count-pos pool n = ground arith

  pub length-split_into_sets :
      (pool : List A) (n : ℕ) → length (split_into_sets pool n) ≡ set_count pool n
  unfolding split_into_sets
  length-split_into_sets pool n =
      length-deal (set_count pool n) 0 pool (replicate (set_count pool n) [])
      ∙ length-replicate (set_count pool n) []

  -- The result set j, for j below the number of sets, holds the balloons of the pool whose position
  -- leaves the remainder j by the number of sets, in the order of the pool.
  pub get_elem?-split_into_sets :
      (pool : List A) (n j : ℕ)
      → j < set_count pool n
      → get_elem? (split_into_sets pool n) j ≡ some (share (set_count pool n) j 0 pool)
  unfolding split_into_sets
  get_elem?-split_into_sets pool n j h =
      get_elem?-deal (set_count pool n) j 0 pool [] (replicate (set_count pool n) [])
        (get_elem?-replicate (set_count pool n) j [] h)

  set_count-le-length : (pool : List A) (n : ℕ) → 0 < length pool → set_count pool n ≤ length pool
  unfolding set_count
  set_count-le-length pool n h = ground arith

  -- If the pool is not empty, then no result set is empty.
  pub split_into_sets-ne-nil :
      (pool : List A) (n j : ℕ) (set : List A)
      → 0 < length pool
      → get_elem? (split_into_sets pool n) j ≡ some set
      → set ≢ []
  split_into_sets-ne-nil pool n j set some_left at =
      let within = get_elem?-lt (split_into_sets pool n) j set at in
      let small : j < set_count pool n = omega (arith, length-split_into_sets pool n) in
      λ empty.
        share-ne-nil (set_count pool n) j 0 pool (omega arith)
          (omega (arith, set_count-le-length pool n some_left)) small
          (ground (arith, get_elem?-split_into_sets pool n j small))

  -- If at least one set is asked for and the pool is not empty, then there are as many sets as are
  -- asked for or as the pool has balloons, whichever is less.
  pub length-split_into_sets_cases :
      (pool : List A) (n : ℕ)
      → 0 < n
      → 0 < length pool
      → (length (split_into_sets pool n) ≤ n)
        × (length (split_into_sets pool n) ≤ length pool)
        × ((length (split_into_sets pool n) ≡ n) ⊎ (length (split_into_sets pool n) ≡ length pool))
  unfolding set_count
  length-split_into_sets_cases pool n h some_left = rw length-split_into_sets (ground arith)

-- The sets deal out the pool: the set j holds the balloons whose position leaves the remainder j by
-- the number of sets, in the order of the pool; and none is empty unless the pool is.
pub record IsDealt {A : Type 0} (pool : List A) (n : ℕ) (sets : List (List A)) : Type 0 where
  pub shares :
      (j : ℕ) → j < set_count pool n → get_elem? sets j ≡ some (share (set_count pool n) j 0 pool)
  pub full : (j : ℕ) (set : List A) → 0 < length pool → get_elem? sets j ≡ some set → set ≢ []

-- The result set j, for j below the number of sets, holds the balloons of the pool whose position
-- leaves the remainder j by the number of sets, in the order of the pool; if the pool is not empty,
-- no result set is.
pub split_into_sets-IsDealt :
    {A : Type 0} (pool : List A) (n : ℕ) → IsDealt pool n (split_into_sets pool n)
split_into_sets-IsDealt pool n = record {
  shares = λ j h. get_elem?-split_into_sets pool n j h;
  full = λ j set some_left at. split_into_sets-ne-nil pool n j set some_left at;
}
