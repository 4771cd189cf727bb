-- ===== src/Strings/Base64.antt =====
-- What is encoded is read back, and an encoded text holds digits only.
use super_mario_odyssey.Prelude.{
  ℕ, ◌+◌, ◌*◌, ◌/◌, ◌%◌, ◌<◌, ◌≡◌, refl, false, ◌||◌, some, [], ◌∷◌, arith, All, ◌==◌,
}
use super_mario_odyssey.Nex.{Bytes}
use super_mario_odyssey.Strings.Parts.{Lacks}
use super_mario_odyssey.Strings.{digit64, value64, encode64, values64, join64, decode64, dot}

abbrev pub IsByte : ℕ → Type 0
IsByte b = b < 256

value64-digit64 : (v : ℕ) → v < 64 → value64 (digit64 v) ≡ some v
value64-digit64 v h = ground arith

digit64_text :
    (v : ℕ) → v < 64 → ((digit64 v == 10 || digit64 v == 13) ≡ false) × ((digit64 v == dot) ≡ false)
digit64_text v h = ground arith

-- the values of the digits that an encoding writes
sextets : Bytes → Bytes
sextets [] = []
sextets (a ∷ []) = a / 4 ∷ (a % 4 * 16) ∷ []
sextets (a ∷ b ∷ []) = a / 4 ∷ (a % 4 * 16 + b / 16) ∷ (b % 16 * 4) ∷ []
sextets (a ∷ b ∷ c ∷ rest) =
    a / 4 ∷ (a % 4 * 16 + b / 16) ∷ (b % 16 * 4 + c / 64) ∷ (c % 64) ∷ sextets rest

values64-cons :
    (v : ℕ) (s vs : Bytes)
    → v < 64
    → values64 s ≡ some vs
    → values64 (digit64 v ∷ s) ≡ some (v ∷ vs)
unfolding values64
values64-cons v s vs h e = rw ((digit64_text v h).0, value64-digit64 v h, e) refl

values64-encode64 : (bs : Bytes) → All IsByte bs → values64 (encode64 bs) ≡ some (sextets bs)
unfolding encode64 sextets
values64-encode64 [] h = unfold values64 in refl
values64-encode64 (a ∷ []) h =
    values64-cons (a / 4) _ _ (omega arith)
      (values64-cons (a % 4 * 16) _ _ (omega arith) (values64-encode64 [] tt))
values64-encode64 (a ∷ b ∷ []) h = values64-cons (a / 4) _ _ (omega arith) (
    values64-cons (a % 4 * 16 + b / 16) _ _ (omega arith)
      (values64-cons (b % 16 * 4) _ _ (omega arith) (values64-encode64 [] tt)))
values64-encode64 (a ∷ b ∷ c ∷ rest) h = values64-cons (a / 4) _ _ (omega arith) (
    values64-cons (a % 4 * 16 + b / 16) _ _ (omega arith) (
      values64-cons (b % 16 * 4 + c / 64) _ _ (omega arith)
        (values64-cons (c % 64) _ _ (omega arith) (values64-encode64 rest h.1.1.1))))

join64-sextets : (bs : Bytes) → All IsByte bs → join64 (sextets bs) ≡ some bs
unfolding join64 sextets
join64-sextets [] h = refl
join64-sextets (a ∷ []) h = ground arith
join64-sextets (a ∷ b ∷ []) h = ground arith
join64-sextets (a ∷ b ∷ c ∷ rest) h = ground (arith, join64-sextets rest h.1.1.1)

pub decode64-encode64 : (bs : Bytes) → All IsByte bs → decode64 (encode64 bs) ≡ some bs
unfolding decode64
decode64-encode64 bs h = rw (values64-encode64 bs h, decode64) (join64-sextets bs h)

Lacks-digit64 : (v : ℕ) (s : Bytes) → v < 64 → Lacks dot s → Lacks dot (digit64 v ∷ s)
Lacks-digit64 v s h k = ((digit64_text v h).1, k)

pub encode64-Lacks : (bs : Bytes) → All IsByte bs → Lacks dot (encode64 bs)
unfolding encode64
encode64-Lacks [] h = tt
encode64-Lacks (a ∷ []) h =
    ((digit64_text (a / 4) (omega arith)).1, ((digit64_text (a % 4 * 16) (omega arith)).1, tt))
encode64-Lacks (a ∷ b ∷ []) h = (
  (digit64_text (a / 4) (omega arith)).1,
  (
    (digit64_text (a % 4 * 16 + b / 16) (omega arith)).1,
    ((digit64_text (b % 16 * 4) (omega arith)).1, tt),
  ),
)
encode64-Lacks (a ∷ b ∷ c ∷ rest) h = (
  (digit64_text (a / 4) (omega arith)).1,
  (
    (digit64_text (a % 4 * 16 + b / 16) (omega arith)).1,
    (
      (digit64_text (b % 16 * 4 + c / 64) (omega arith)).1,
      ((digit64_text (c % 64) (omega arith)).1, encode64-Lacks rest h.1.1.1),
    ),
  ),
)
