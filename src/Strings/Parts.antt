-- ===== src/Strings/Parts.antt =====
-- Cutting a text at its separators, and putting it together again.
use super_mario_odyssey.Prelude.{
  ℕ, zero, suc, ◌≡◌, refl, true, false, some, List, [], ◌∷◌, ◌++◌, arith, All, ◌==◌, inl, inr,
  Bool-cases, ==_iff, ==_self,
}
use super_mario_odyssey.Nex.{Bytes}
use super_mario_odyssey.Strings.{bytes_eq, after_prefix, onto_first, split, split_n}

pub bytes_eq_sound : (xs ys : Bytes) → bytes_eq xs ys ≡ true → xs ≡ ys
unfolding bytes_eq
bytes_eq_sound [] [] h = refl
bytes_eq_sound [] (y ∷ ys) h = cc
bytes_eq_sound (x ∷ xs) [] h = cc
bytes_eq_sound (x ∷ xs) (y ∷ ys) h = ground (arith, bytes_eq_sound xs ys)

pub bytes_eq_refl : (xs : Bytes) → bytes_eq xs xs ≡ true
unfolding bytes_eq
bytes_eq_refl [] = refl
bytes_eq_refl (x ∷ xs) = rw (==_self, bytes_eq_refl xs)

pub after_prefix-append : (p s : Bytes) → after_prefix p (p ++ s) ≡ some s
unfolding after_prefix
after_prefix-append [] s = refl
after_prefix-append (x ∷ p) s = rw (==_self, after_prefix-append p s)

pub after_prefix_sound : (p s r : Bytes) → after_prefix p s ≡ some r → s ≡ p ++ r
unfolding after_prefix
after_prefix_sound [] s r h = cc
after_prefix_sound (x ∷ p) [] r h = cc
after_prefix_sound (x ∷ p) (y ∷ s) r h = ground (arith, after_prefix_sound p s r)

abbrev pub Lacks : ℕ → Bytes → Type 0
Lacks sep = All (λ c. (c == sep) ≡ false)

split-Lacks : (sep : ℕ) (s : Bytes) → Lacks sep s → split sep s ≡ s ∷ []
unfolding split
split-Lacks sep [] h = refl
split-Lacks sep (x ∷ s) h = rw (h.0, split-Lacks sep s h.1)

-- two texts without the separator, joined by one
pub split_two :
    (sep : ℕ) (a b : Bytes) → Lacks sep a → Lacks sep b → split sep (a ++ sep ∷ b) ≡ a ∷ b ∷ []
unfolding split
split_two sep [] b h k = rw (==_self, split-Lacks sep b k)
split_two sep (x ∷ a) b h k = rw (h.0, split_two sep a b h.1 k)

pub split_n-suc :
    (cuts sep : ℕ) (a b : Bytes)
    → Lacks sep a
    → split_n (suc cuts) sep (a ++ sep ∷ b) ≡ a ∷ split_n cuts sep b
unfolding split_n
split_n-suc cuts sep [] b h = rw (split_n, ==_self)
split_n-suc cuts sep (x ∷ a) b h = rw (split_n, h.0, split_n-suc cuts sep a b h.1)

-- what the parts were cut from
abbrev pub joined : ℕ → List Bytes → Bytes
joined sep [] = []
joined sep (p ∷ []) = p
joined sep (p ∷ q ∷ ps) = p ++ sep ∷ joined sep (q ∷ ps)

joined-onto_first : (sep x : ℕ) (ps : List Bytes) → joined sep (onto_first x ps) ≡ x ∷ joined sep ps
joined-onto_first sep x [] = refl
joined-onto_first sep x (p ∷ []) = refl
joined-onto_first sep x (p ∷ q ∷ ps) = refl

split-ne-nil : (sep : ℕ) (s : Bytes) → (p : Bytes) × (ps : List Bytes) × (split sep s ≡ p ∷ ps)
unfolding split
split-ne-nil sep [] = ([], [], refl)
split-ne-nil sep (x ∷ s) = elim (Bool-cases (x == sep)) [
  | inl e ↦ ([], split sep s, rw e)
  | inr e ↦ let (p, ps, q) = split-ne-nil sep s in (x ∷ p, ps, rw (e, q))
]

pub joined-split : (sep : ℕ) (s : Bytes) → joined sep (split sep s) ≡ s
unfolding split
joined-split sep [] = refl
joined-split sep (x ∷ s) = elim (Bool-cases (x == sep)) [
  | inl e ↦
      let (p, ps, q) = split-ne-nil sep s in
      let back : joined sep (p ∷ ps) ≡ s = rw q at (joined-split sep s) in
      rw (e, q, back, (==_iff x sep).0 e) refl
  | inr e ↦ rw (e, joined-onto_first, joined-split sep s) refl
]

split_n-ne-nil :
    (cuts sep : ℕ) (s : Bytes) → (p : Bytes) × (ps : List Bytes) × (split_n cuts sep s ≡ p ∷ ps)
unfolding split_n
split_n-ne-nil zero sep s = (s, [], refl)
split_n-ne-nil (suc cuts) sep [] = ([], [], refl)
split_n-ne-nil (suc cuts) sep (x ∷ s) = elim (Bool-cases (x == sep)) [
  | inl e ↦ ([], split_n cuts sep s, rw (e, split_n))
  | inr e ↦ let (p, ps, q) = split_n-ne-nil (suc cuts) sep s in (x ∷ p, ps, rw (e, split_n, q))
]

pub joined-split_n : (cuts sep : ℕ) (s : Bytes) → joined sep (split_n cuts sep s) ≡ s
unfolding split_n
joined-split_n zero sep s = refl
joined-split_n (suc cuts) sep [] = refl
joined-split_n (suc cuts) sep (x ∷ s) = elim (Bool-cases (x == sep)) [
  | inl e ↦
      let (p, ps, q) = split_n-ne-nil cuts sep s in
      let back : joined sep (p ∷ ps) ≡ s = rw q at (joined-split_n cuts sep s) in
      rw (e, split_n, q, back, (==_iff x sep).0 e) refl
  | inr e ↦ rw (e, split_n, joined-onto_first, joined-split_n (suc cuts) sep s) refl
]
