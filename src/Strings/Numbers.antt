-- ===== src/Strings/Numbers.antt =====
-- Reading the numbers that are printed.
use super_mario_odyssey.Prelude.{
  ℕ, zero, suc, ◌+◌, ◌-◌, ◌*◌, ◌/◌, ◌%◌, ◌^◌, ◌<◌, ◌≡◌, refl, sym, ap, ◌∙◌, true, false, some, [],
  ◌∷◌, arith, All, ltb, ◌==◌, inl, inr, Bool-cases,
}
use super_mario_odyssey.Nex.{Bytes}
use super_mario_odyssey.Strings.{
  dot, is_digit, read_digits, parse_uint, parse_int, signed_of, format_digits, format_uint,
}
use super_mario_odyssey.Strings.Parts.{Lacks}

abbrev pub IsDigit : ℕ → Type 0
IsDigit c = is_digit c ≡ true

-- reading the last digit of n after the digits before it gives n
read_last :
    (n : ℕ) (out : Bytes)
    → n < 2 ^ 64
    → read_digits (n / 10) ((b'0' + n % 10) ∷ out) ≡ read_digits n out
unfolding read_digits
read_last n out h =
    let m : n / 10 * 10 + (b'0' + n % 10 - b'0') ≡ n = omega arith in rw m (ground arith)

-- enough fuel is given
read_digits-format_digits :
    (fuel n : ℕ) (out : Bytes)
    → n < fuel
    → n < 2 ^ 64
    → read_digits 0 (format_digits fuel n out) ≡ read_digits n out
unfolding format_digits
read_digits-format_digits zero n out f h = absurd (omega arith)
read_digits-format_digits (suc fuel) n out f h = elim (Bool-cases (ltb n 10)) [
  | inl e ↦
      let z : n / 10 ≡ 0 = ground arith in
      rw e (ap (λ k. read_digits k ((b'0' + n % 10) ∷ out)) (sym z) ∙ read_last n out h)
  | inr e ↦ rw e (
      read_digits-format_digits fuel (n / 10) ((b'0' + n % 10) ∷ out) (ground arith) (omega arith)
      ∙ read_last n out h)
]

format_digits-cons :
    (fuel n c : ℕ) (out : Bytes)
    → (d : ℕ) × (ds : Bytes) × (format_digits fuel n (c ∷ out) ≡ d ∷ ds)
unfolding format_digits
format_digits-cons zero n c out = (c, out, refl)
format_digits-cons (suc fuel) n c out = elim (Bool-cases (ltb n 10)) [
  | inl e ↦ (b'0' + n % 10, c ∷ out, rw e refl)
  | inr e ↦
      let more = format_digits-cons fuel (n / 10) (b'0' + n % 10) (c ∷ out) in
      (more.0, more.1, rw e more.2)
]

-- every character of a printed number is a digit
format_digits-digits :
    (fuel n : ℕ) (out : Bytes) → All IsDigit out → All IsDigit (format_digits fuel n out)
unfolding format_digits
format_digits-digits zero n out h = h
format_digits-digits (suc fuel) n out h = elim (Bool-cases (ltb n 10)) [
  | inl e ↦ rw e (ground arith, h)
  | inr e ↦ rw e (format_digits-digits fuel (n / 10) ((b'0' + n % 10) ∷ out) (ground arith, h))
]

pub format_uint-digits : (n : ℕ) → All IsDigit (format_uint n)
unfolding format_uint
format_uint-digits n = format_digits-digits (n + 1) n [] tt

digits-Lacks : (s : Bytes) → All IsDigit s → Lacks dot s
digits-Lacks [] h = tt
digits-Lacks (c ∷ s) h = (ground arith, digits-Lacks s h.1)

pub format_uint-Lacks : (n : ℕ) → Lacks dot (format_uint n)
format_uint-Lacks n = digits-Lacks (format_uint n) (format_uint-digits n)

-- a printed number is not empty
format_digits-ne-nil :
    (fuel n : ℕ) (out : Bytes)
    → 0 < fuel
    → (d : ℕ) × (ds : Bytes) × (format_digits fuel n out ≡ d ∷ ds)
unfolding format_digits
format_digits-ne-nil zero n out h = absurd (omega arith)
format_digits-ne-nil (suc fuel) n out h = elim (Bool-cases (ltb n 10)) [
  | inl e ↦ (b'0' + n % 10, out, rw e refl)
  | inr e ↦
      let more = format_digits-cons fuel (n / 10) (b'0' + n % 10) out in
      (more.0, more.1, rw e more.2)
]

pub format_uint-cons : (n : ℕ) → (d : ℕ) × (ds : Bytes) × (format_uint n ≡ d ∷ ds)
unfolding format_uint
format_uint-cons n = format_digits-ne-nil (n + 1) n [] (omega arith)

parse_uint-digits : (d : ℕ) (ds s : Bytes) → s ≡ d ∷ ds → parse_uint s ≡ read_digits 0 s
unfolding parse_uint
parse_uint-digits d ds s e = rw e refl

pub parse_uint-format_uint : (n : ℕ) → n < 2 ^ 64 → parse_uint (format_uint n) ≡ some n
unfolding format_uint read_digits
parse_uint-format_uint n h =
    let c = format_uint-cons n in
    parse_uint-digits c.0 c.1 (format_uint n) c.2
    ∙ read_digits-format_digits (n + 1) n [] (omega arith) h

parse_int-digits :
    (d : ℕ) (ds s : Bytes)
    → s ≡ d ∷ ds
    → All IsDigit s
    → parse_int s ≡ signed_of false (parse_uint s)
unfolding parse_int
parse_int-digits d ds s e h =
    let k : All IsDigit (d ∷ ds) = rw e at h in
    let minus : (d == b'-') ≡ false = ground (arith, k.0) in
    let plus : (d == b'+') ≡ false = ground (arith, k.0) in rw (e, minus, plus) refl

pub parse_int-format_uint :
    (n : ℕ) → n < 2 ^ 63 → parse_int (format_uint n) ≡ some (record { negative = false; size = n })
parse_int-format_uint n h =
    let c = format_uint-cons n in
    let small : ltb n (2 ^ 63) ≡ true = ground arith in
    let e = parse_int-digits c.0 c.1 (format_uint n) c.2 (format_uint-digits n) in
    rw (e, parse_uint-format_uint n (omega arith), small) refl
