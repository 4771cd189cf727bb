-- ===== src/Prelude/Text.antt =====
-- Texts: concatenation, decimal and hexadecimal printing, and Go maps with string keys.
use Prim.Native.String.{slice}
use Prim.Native.String
use text.Mathlib.Text.{◌==◌ as text_eq}
use text.Mathlib.TextEquality.{eq_iff}
use super_mario_odyssey.Prelude.{
  ℕ, zero, suc, ◌+◌, ◌/◌, ◌%◌, ◌≡◌, refl, String, Option, none, some, List, [], ◌∷◌, arith, ltb,
  if◌then◌else◌,
}
pub use text.Mathlib.Text.{◌==◌ as text_eq}

abbrev pub join : List String → String
join [] = ""
join (s ∷ ss) = String.◌++◌ s (join ss)

-- %d, with fuel for the digits
decimal_digits : ℕ → ℕ → String
decimal_digits zero n = ""
decimal_digits (suc fuel) n =
    let more = decimal_digits fuel (n / 10) in
    let last = slice "0123456789" (n % 10) (n % 10 + 1) in
    if ltb n 10 then last else String.◌++◌ more last

-- A number has at most as many digits as its value plus one.
unfoldable pub decimal : ℕ → String
unfolding decimal_digits
decimal n = decimal_digits (n + 1) n

-- %X, with fuel for the digits
hex_digits : ℕ → ℕ → String
hex_digits zero n = ""
hex_digits (suc fuel) n =
    let more = hex_digits fuel (n / 16) in
    let last = slice "0123456789ABCDEF" (n % 16) (n % 16 + 1) in
    if ltb n 16 then last else String.◌++◌ more last

unfoldable pub upper_hex : ℕ → String
unfolding hex_digits
upper_hex n = hex_digits (n + 1) n

-- hex.EncodeToString
unfoldable pub hex_encode : List ℕ → String
hex_encode [] = ""
hex_encode (b ∷ bs) = join (
    slice "0123456789abcdef" (b / 16) (b / 16 + 1)
    ∷ slice "0123456789abcdef" (b % 16) (b % 16 + 1)
    ∷ hex_encode bs
    ∷ [])

abbrev pub TextMap {ℓ} : Type ℓ → Type ℓ
TextMap V = List (String × V)

module _ {ℓ} {V : Type ℓ} where
  unfoldable pub lookup_text : String → TextMap V → Option V
  lookup_text k [] = none
  lookup_text k ((own, x) ∷ rest) = if text_eq own k then some x else lookup_text k rest

  unfoldable pub insert_text : String → V → TextMap V → TextMap V
  insert_text k x [] = (k, x) ∷ []
  insert_text k x ((own, old) ∷ rest) =
      let changed = insert_text k x rest in
      if text_eq own k then (k, x) ∷ rest else (own, old) ∷ changed

  pub lookup_text-insert_text :
      (set asked : String) (x : V) (m : TextMap V)
      → lookup_text asked (insert_text set x m)
        ≡ (if text_eq set asked then some x else lookup_text asked m)
  unfolding lookup_text insert_text
  lookup_text-insert_text set asked x [] = refl
  lookup_text-insert_text set asked x ((own, old) ∷ rest) = ground (
    arith,
    eq_iff set asked,
    eq_iff own set,
    eq_iff own asked,
    lookup_text-insert_text set asked x rest,
  )

decimal_test : decimal 60013 ≡ "60013"
unfolding decimal
decimal_test = refl

hex_encode_test : hex_encode (0 ∷ 255 ∷ 0x1a ∷ []) ≡ "00ff1a"
unfolding hex_encode
hex_encode_test = refl

upper_hex_test : upper_hex 0x7a3 ≡ "7A3"
unfolding upper_hex
upper_hex_test = refl
