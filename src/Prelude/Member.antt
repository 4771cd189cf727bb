-- ===== src/Prelude/Member.antt =====
-- Membership with its witness kept, and how the list operations act on it.
use mathlib.Core.List.{Permᴰ}
use super_mario_odyssey.Prelude.{
  ℕ, ◌≡◌, refl, ap, ◌∙◌, ◌⊎◌, inl, inr, Bool, true, some, List, [], ◌∷◌, arith, ◌==◌, All, keep,
  Bool-cases,
}
use super_mario_odyssey.Prelude.Map.{Map, lookup, values, Distinct}

module _ {A : Type 0} where
  abbrev pub In : A → List A → Type 0
  In x [] = ⊥
  In x (y ∷ ys) = (x ≡ y) ⊎ In x ys

  pub In-perm : (x : A) {xs ys : List A} → Permᴰ xs ys → In x xs → In x ys
  In-perm x Permᴰ.nil h = h
  In-perm x (Permᴰ.cons e p) (inl q) = inl (q ∙ e)
  In-perm x (Permᴰ.cons e p) (inr h) = inr (In-perm x p h)
  In-perm x (Permᴰ.swap e f) (inl q) = inr (inl (q ∙ e))
  In-perm x (Permᴰ.swap e f) (inr (inl q)) = inl (q ∙ f)
  In-perm x (Permᴰ.swap e f) (inr (inr h)) = inr (inr h)
  In-perm x (Permᴰ.trans p q) h = In-perm x q (In-perm x p h)

  In-cons :
      (p : A → Bool) (x y : A) (ys rest : List A)
      → p y ≡ true
      → (In x rest → In x ys × (p x ≡ true))
      → In x (y ∷ rest)
      → In x (y ∷ ys) × (p x ≡ true)
  In-cons p x y ys rest e f (inl q) = (inl q, rw q e)
  In-cons p x y ys rest e f (inr m) = (inr (f m).0, (f m).1)

  pub In-keep→ : (p : A → Bool) (x : A) (xs : List A) → In x (keep p xs) → In x xs × (p x ≡ true)
  unfolding keep
  In-keep→ p x [] h = absurd h
  In-keep→ p x (y ∷ ys) h = elim (Bool-cases (p y)) [
    | inl e ↦ In-cons p x y ys (keep p ys) e (In-keep→ p x ys) (rw e at h)
    | inr e ↦ let (m, t) = In-keep→ p x ys (rw e at h) in (inr m, t)
  ]

  pub In-keep← : (p : A → Bool) (x : A) (xs : List A) → In x xs → p x ≡ true → In x (keep p xs)
  unfolding keep
  In-keep← p x [] h t = h
  In-keep← p x (y ∷ ys) (inl q) t = rw (← q, t) (inl refl)
  In-keep← p x (y ∷ ys) (inr m) t = elim (Bool-cases (p y)) [
    | inl e ↦ rw e (inr (In-keep← p x ys m t))
    | inr e ↦ rw e (In-keep← p x ys m t)
  ]

  pub All-In : (P : A → Type 0) (x : A) (xs : List A) → All P xs → In x xs → P x
  All-In P x (y ∷ ys) h (inl q) = rw q (h.0)
  All-In P x (y ∷ ys) h (inr m) = All-In P x ys h.1 m
  All-In P x [] h m = absurd m

  pub All-of_In : (P : A → Type 0) (xs : List A) → ((x : A) → In x xs → P x) → All P xs
  All-of_In P [] h = tt
  All-of_In P (y ∷ ys) h = (h y (inl refl), All-of_In P ys (λ x m. h x (inr m)))

module _ {A : Type 0} where
  pub In-values→ : (r : A) (m : Map A) → In r (values m) → (k : ℕ) × In {A = ℕ × A} (k, r) m
  In-values→ r [] h = absurd h
  In-values→ r ((k, v) ∷ m) (inl q) = (k, inl (ap (λ x. (k, x)) q))
  In-values→ r ((k, v) ∷ m) (inr h) = let (j, i) = In-values→ r m h in (j, inr i)

  pub In-values← : (k : ℕ) (r : A) (m : Map A) → In {A = ℕ × A} (k, r) m → In r (values m)
  In-values← k r [] h = h
  In-values← k r ((j, v) ∷ m) (inl q) = inl (ap (λ e. e.1) q)
  In-values← k r ((j, v) ∷ m) (inr h) = inr (In-values← k r m h)

  pub In_of_lookup : (k : ℕ) (v : A) (m : Map A) → lookup k m ≡ some v → In {A = ℕ × A} (k, v) m
  unfolding lookup
  In_of_lookup k v [] h = cc
  In_of_lookup k v ((j, w) ∷ m) h = elim (Bool-cases (j == k)) [
    | inl e ↦ inl (ground arith)
    | inr e ↦ inr (In_of_lookup k v m (rw e at h))
  ]

  pub lookup_of_In :
      (k : ℕ) (v : A) (m : Map A) → Distinct m → In {A = ℕ × A} (k, v) m → lookup k m ≡ some v
  unfolding lookup
  lookup_of_In k v [] d h = absurd h
  lookup_of_In k v ((j, w) ∷ m) d (inl q) = ground arith
  lookup_of_In k v ((j, w) ∷ m) d (inr h) = ground (arith, lookup_of_In k v m d.1 h)
