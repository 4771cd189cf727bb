-- ===== src/Login/KeyFile.antt =====
-- main.go, loadNextendoSecret: a key file is read.
use mathlib.Core.List.{reverse, reverse-append, reverse-reverse, reverse-cons}
use super_mario_odyssey.Prelude.{
  ℕ, zero, suc, ◌+◌, ◌-◌, ◌*◌, ◌/◌, ◌%◌, ◌≤◌, ◌<◌, ◌≡◌, refl, Bool, true, false, ◌&&◌, ◌||◌, String,
  Option, none, some, List, [], ◌∷◌, ◌++◌, map, arith, All, ltb, leb, ◌==◌, if◌then◌else◌, length,
  length-append, length-reverse,
}
use super_mario_odyssey.Nex.{Bytes}
use super_mario_odyssey.Strings.{after_prefix}
use super_mario_odyssey.Strings.Base64.{IsByte}
use super_mario_odyssey.Login.Secret.{
  env_or, hex_value, hex_decode, spaces, after_one, trim_with, trim_space, secret_of_file,
  secret_file, load_nextendo_secret,
}

-- the hexadecimal text of a key
abbrev pub hex_digit : ℕ → ℕ
hex_digit v = if ltb v 10 then v + b'0' else v - 10 + b'a'

abbrev pub hex_text : Bytes → Bytes
hex_text [] = []
hex_text (b ∷ bs) = hex_digit (b / 16) ∷ hex_digit (b % 16) ∷ hex_text bs

-- a character from '0' to 'f'
abbrev IsHex : ℕ → Type 0
IsHex c = (48 ≤ c) × (c ≤ 102)

hex_value-hex_digit : (v : ℕ) → v < 16 → hex_value (hex_digit v) ≡ some v
hex_value-hex_digit v h = ground arith

hex_decode-hex_text : (bs : Bytes) → All IsByte bs → hex_decode (hex_text bs) ≡ some bs
unfolding hex_decode
hex_decode-hex_text [] h = refl
hex_decode-hex_text (b ∷ bs) h =
    let whole : b / 16 * 16 + b % 16 ≡ b = omega arith in
    rw
      (
        hex_decode,
        hex_value-hex_digit (b / 16) (omega (arith, h.0)),
        hex_value-hex_digit (b % 16) (omega arith),
        hex_decode-hex_text bs h.1,
        whole,
      )
      refl

hex_digit-IsHex : (v : ℕ) → v < 16 → IsHex (hex_digit v)
hex_digit-IsHex v h = ground arith

hex_text-IsHex : (bs : Bytes) → All IsByte bs → All IsHex (hex_text bs)
hex_text-IsHex [] h = tt
hex_text-IsHex (b ∷ bs) h = (
  hex_digit-IsHex (b / 16) (omega (arith, h.0)),
  (hex_digit-IsHex (b % 16) (omega arith), hex_text-IsHex bs h.1),
)

-- prefixes that begin outside the hexadecimal digits
abbrev is_outside : Bytes → Bool
is_outside [] = false
is_outside (p ∷ ps) = ltb p 48 || ltb 102 p

abbrev are_outside : List Bytes → Bool
are_outside [] = true
are_outside (p ∷ ps) = is_outside p && are_outside ps

after_prefix-is_outside :
    (p : Bytes) (c : ℕ) (s : Bytes) → is_outside p ≡ true → IsHex c → after_prefix p (c ∷ s) ≡ none
unfolding after_prefix
after_prefix-is_outside [] c s o h = cc
after_prefix-is_outside (p ∷ ps) c s o h =
    let other : (p == c) ≡ false = ground arith in rw other refl

after_one-are_outside :
    (ps : List Bytes) (c : ℕ) (s : Bytes)
    → are_outside ps ≡ true
    → IsHex c
    → after_one ps (c ∷ s) ≡ none
unfolding after_one
after_one-are_outside [] c s o h = refl
after_one-are_outside (p ∷ ps) c s o h =
    let first : is_outside p ≡ true = ground (arith, o) in
    let others : are_outside ps ≡ true = ground (arith, o) in
    rw (after_prefix-is_outside p c s first h, after_one, after_one-are_outside ps c s others h)
      refl

trim_with-are_outside :
    (ps : List Bytes) (fuel c : ℕ) (s : Bytes)
    → are_outside ps ≡ true
    → IsHex c
    → trim_with ps fuel (c ∷ s) ≡ c ∷ s
unfolding trim_with
trim_with-are_outside ps zero c s o h = refl
trim_with-are_outside ps (suc fuel) c s o h = rw (trim_with, after_one-are_outside ps c s o h) refl

-- a text of hexadecimal digits that is not empty is left whole from the front
trim_front :
    (ps : List Bytes) (fuel : ℕ) (s rest : Bytes)
    → are_outside ps ≡ true
    → All IsHex s
    → 0 < length s
    → trim_with ps fuel (s ++ rest) ≡ s ++ rest
trim_front ps fuel [] rest o h l = absurd (omega arith)
trim_front ps fuel (c ∷ s) rest o h l = trim_with-are_outside ps fuel c (s ++ rest) o h.0

All-snoc : (s : Bytes) (c : ℕ) → All IsHex s → IsHex c → All IsHex (s ++ c ∷ [])
All-snoc [] c h k = (k, tt)
All-snoc (x ∷ s) c h k = (h.0, All-snoc s c h.1 k)

All-reverse : (s : Bytes) → All IsHex s → All IsHex (reverse s)
All-reverse [] h = tt
All-reverse (c ∷ s) h = rw (reverse-cons c s) (All-snoc (reverse s) c (All-reverse s h.1) h.0)

-- one round takes the line break, the next one stops
trim_back :
    (fuel : ℕ) (s : Bytes)
    → All IsHex s
    → 0 < length s
    → trim_with (map reverse spaces) (suc fuel) (10 ∷ s) ≡ s
unfolding trim_with after_one after_prefix
trim_back fuel [] h l = absurd (omega arith)
trim_back fuel (c ∷ s) h l = trim_with-are_outside (map reverse spaces) fuel c s refl h.0

trim_space-line : (s : Bytes) → All IsHex s → 0 < length s → trim_space (s ++ 10 ∷ []) ≡ s
unfolding trim_space
trim_space-line s h l =
    let back = All-reverse s h in
    let size : length (s ++ 10 ∷ []) ≡ suc (length s) = omega (arith, length-append s (10 ∷ [])) in
    let turned : reverse (s ++ 10 ∷ []) ≡ 10 ∷ reverse s = reverse-append s (10 ∷ []) in
    let end = trim_back (length s) (reverse s) back (omega (arith, length-reverse s)) in
    rw (trim_front spaces (length (s ++ 10 ∷ [])) s (10 ∷ []) refl h l, size, turned, end)
      (reverse-reverse s)

length-hex_text : (bs : Bytes) → length bs ≤ length (hex_text bs)
length-hex_text [] = omega arith
length-hex_text (b ∷ bs) = omega (arith, length-hex_text bs)

-- If NEXTENDO_SECRET is not set and the key file, whose name is the default or that of
-- NEXTENDO_SECRET_FILE, holds the hexadecimal text of a key of at least 16 bytes and a line break,
-- then that key is the secret.
pub load_nextendo_secret-hex_text :
    (getenv : String → Bytes) (read_file : Bytes → Option Bytes) (key : Bytes)
    → getenv "NEXTENDO_SECRET" ≡ []
    → read_file (env_or (getenv "NEXTENDO_SECRET_FILE") secret_file)
      ≡ some (hex_text key ++ 10 ∷ [])
    → All IsByte key
    → 16 ≤ length key
    → load_nextendo_secret getenv read_file ≡ key
unfolding load_nextendo_secret secret_of_file
load_nextendo_secret-hex_text getenv read_file key unset file bytes long =
    let trimmed =
      trim_space-line (hex_text key) (hex_text-IsHex key bytes)
        (omega (arith, length-hex_text key)) in
    let enough : leb 16 (length key) ≡ true = ground arith in
    rw (unset, file, secret_of_file, trimmed, hex_decode-hex_text key bytes, enough) refl
