-- ===== src/Prelude/State.antt =====
-- Steps that read and change a state: the state that a call leaves comes back beside its result.
abbrev pub State {ℓ κ} : Type ℓ → Type κ → Type (ℓ ⊔ κ)
State S A = S → A × S

module _ {ℓ} {S : Type ℓ} where
  abbrev pub pure {κ} : {A : Type κ} → A → State S A
  pure a s = (a, s)

  infixl 5 ◌>>=◌ ◌>>◌
  abbrev pub ◌>>=◌ {κ ν} : {A : Type κ} {B : Type ν} → State S A → (A → State S B) → State S B
  ◌>>=◌ m f s = let (a, s') = m s in f a s'

  abbrev pub ◌>>◌ {κ ν} : {A : Type κ} {B : Type ν} → State S A → State S B → State S B
  m >> k = m >>= λ _. k
