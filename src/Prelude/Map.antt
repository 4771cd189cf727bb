-- ===== src/Prelude/Map.antt =====
-- Go maps with integer keys, as association lists with one entry for each key. A `range` over a map
-- goes through the entries in an order that the code cannot rely on: each loop takes the order that
-- it meets as an argument.
use super_mario_odyssey.Prelude.{
  ℕ, ◌≡◌, refl, Option, none, some, List, [], ◌∷◌, map, arith, ◌==◌, if◌then◌else◌,
}

abbrev pub Map {ℓ} : Type ℓ → Type ℓ
Map V = List (ℕ × V)

module _ {ℓ} {V : Type ℓ} where
  -- v, ok := m[k]
  unfoldable pub lookup : ℕ → Map V → Option V
  lookup k [] = none
  lookup k ((own, x) ∷ rest) = if own == k then some x else lookup k rest

  -- m[k] = v
  unfoldable pub insert : ℕ → V → Map V → Map V
  insert k x [] = (k, x) ∷ []
  insert k x ((own, old) ∷ rest) =
      let changed = insert k x rest in if own == k then (k, x) ∷ rest else (own, old) ∷ changed

  -- delete(m, k)
  unfoldable pub erase : ℕ → Map V → Map V
  erase k [] = []
  erase k ((j, v) ∷ m) = let rest = erase k m in if j == k then rest else (j, v) ∷ rest

  abbrev pub values : Map V → List V
  values = map (λ e. e.1)

  -- One entry for each key.
  abbrev pub Distinct : Map V → Type ℓ
  Distinct [] = Unit
  Distinct ((k, v) ∷ m) = (lookup k m ≡ none) × Distinct m

  pub lookup-insert :
      (set asked : ℕ) (x : V) (m : Map V)
      → lookup asked (insert set x m) ≡ (if set == asked then some x else lookup asked m)
  unfolding lookup insert
  lookup-insert set asked x [] = refl
  lookup-insert set asked x ((own, old) ∷ rest) = ground (arith, lookup-insert set asked x rest)

  pub lookup-insert_self : (k : ℕ) (v : V) (m : Map V) → lookup k (insert k v m) ≡ some v
  lookup-insert_self k v m = ground (arith, lookup-insert k k v m)

  pub lookup-erase :
      (k j : ℕ) (m : Map V) → lookup j (erase k m) ≡ (if k == j then none else lookup j m)
  unfolding lookup erase
  lookup-erase k j [] = ground arith
  lookup-erase k j ((i, w) ∷ m) = ground (arith, lookup-erase k j m)

  pub insert-Distinct : (k : ℕ) (v : V) (m : Map V) → Distinct m → Distinct (insert k v m)
  unfolding insert
  insert-Distinct k v [] h = (unfold lookup in refl, tt)
  insert-Distinct k v ((i, w) ∷ m) h = ground (arith, lookup-insert k i v m, insert-Distinct k v m)

  pub erase-Distinct : (k : ℕ) (m : Map V) → Distinct m → Distinct (erase k m)
  unfolding erase
  erase-Distinct k [] h = tt
  erase-Distinct k ((i, w) ∷ m) h = ground (arith, lookup-erase k i m, erase-Distinct k m)
