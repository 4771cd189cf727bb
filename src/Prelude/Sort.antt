-- ===== src/Prelude/Sort.antt =====
-- sort.Slice(xs, less), as insertion sort. The library's order of elements that `less` does not
-- separate is not specified; the callers' inputs come in an arbitrary map order, so that every
-- outcome for ties is one of this function's.
use mathlib.Core.List.{Permᴰ}
use mathlib.Core.List.Permᴰ
use super_mario_odyssey.Prelude.{
  ◌≡◌, refl, Bool, true, false, List, [], ◌∷◌, All, if◌then◌else◌, Bool-cases, inl, inr,
}

module _ {A : Type 0} (less : A → A → Bool) where
  unfoldable pub insert_sorted : A → List A → List A
  insert_sorted x [] = x ∷ []
  insert_sorted x (y ∷ ys) = if less y x then y ∷ insert_sorted x ys else x ∷ y ∷ ys

  unfoldable pub sort_slice : List A → List A
  unfolding insert_sorted
  sort_slice [] = []
  sort_slice (x ∷ xs) = insert_sorted x (sort_slice xs)

  insert_sorted-perm : (x : A) (xs : List A) → Permᴰ (insert_sorted x xs) (x ∷ xs)
  unfolding insert_sorted
  insert_sorted-perm x [] = Permᴰ.refl _
  insert_sorted-perm x (y ∷ ys) = elim (Bool-cases (less y x)) [
    | inl e ↦ rw e (Permᴰ.trans (Permᴰ.cons refl (insert_sorted-perm x ys)) (Permᴰ.swap refl refl))
    | inr e ↦ rw e (Permᴰ.refl _)
  ]

  -- The sort rearranges its input and loses nothing.
  pub sort_slice-perm : (xs : List A) → Permᴰ (sort_slice xs) xs
  unfolding sort_slice
  sort_slice-perm [] = Permᴰ.nil
  sort_slice-perm (x ∷ xs) =
      Permᴰ.trans (insert_sorted-perm x (sort_slice xs)) (Permᴰ.cons refl (sort_slice-perm xs))

  -- No later element is less than an earlier one.
  abbrev pub IsSorted : List A → Type 0
  IsSorted [] = Unit
  IsSorted (x ∷ xs) = All (λ y. less y x ≡ false) xs × IsSorted xs

  module _ (asym : (x y : A) → less x y ≡ true → less y x ≡ false)
      (trans : (x y z : A) → less y x ≡ false → less z y ≡ false → less z x ≡ false) where
    All-trans :
        (x y : A) (ys : List A)
        → less y x ≡ false
        → All (λ z. less z y ≡ false) ys
        → All (λ z. less z x ≡ false) ys
    All-trans x y [] e h = tt
    All-trans x y (z ∷ zs) e h = (trans x y z e h.0, All-trans x y zs e h.1)

    All-insert_sorted :
        (z x : A) (ys : List A)
        → less x z ≡ false
        → All (λ w. less w z ≡ false) ys
        → All (λ w. less w z ≡ false) (insert_sorted x ys)
    unfolding insert_sorted
    All-insert_sorted z x [] e h = (e, tt)
    All-insert_sorted z x (y ∷ ys) e h = elim (Bool-cases (less y x)) [
      | inl t ↦ rw t (h.0, All-insert_sorted z x ys e h.1)
      | inr t ↦ rw t (e, h)
    ]

    insert_sorted-IsSorted : (x : A) (ys : List A) → IsSorted ys → IsSorted (insert_sorted x ys)
    unfolding insert_sorted
    insert_sorted-IsSorted x [] h = (tt, tt)
    insert_sorted-IsSorted x (y ∷ ys) h = elim (Bool-cases (less y x)) [
      | inl t ↦ rw t (All-insert_sorted y x ys (asym y x t) h.0, insert_sorted-IsSorted x ys h.1)
      | inr t ↦ rw t ((t, All-trans x y ys t h.0), h)
    ]

    pub sort_slice-IsSorted : (xs : List A) → IsSorted (sort_slice xs)
    unfolding sort_slice
    sort_slice-IsSorted [] = tt
    sort_slice-IsSorted (x ∷ xs) = insert_sorted-IsSorted x (sort_slice xs) (sort_slice-IsSorted xs)
