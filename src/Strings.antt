-- ===== src/Strings.antt =====
-- What the code uses of Go's packages strings, strconv and encoding/base64, on texts as lists of
-- bytes.
pub mod Parts
pub mod Numbers
pub mod Base64
use super_mario_odyssey.Prelude.{
  ℕ, zero, suc, ◌+◌, ◌-◌, ◌*◌, ◌/◌, ◌%◌, ◌^◌, Bool, true, false, ◌&&◌, ◌||◌, Option, none, some,
  List, [], ◌∷◌, ◌++◌, ltb, leb, ◌==◌, if◌then◌else◌,
}
use super_mario_odyssey.Nex.{Bytes}

abbrev pub dot : ℕ
dot = b'.'

unfoldable pub bytes_eq : Bytes → Bytes → Bool
bytes_eq [] [] = true
bytes_eq [] (y ∷ ys) = false
bytes_eq (x ∷ xs) [] = false
bytes_eq (x ∷ xs) (y ∷ ys) = x == y && bytes_eq xs ys

-- strings.HasPrefix, and the text behind the prefix
unfoldable pub after_prefix : Bytes → Bytes → Option Bytes
after_prefix [] s = some s
after_prefix (p ∷ ps) [] = none
after_prefix (p ∷ ps) (x ∷ xs) = let rest = after_prefix ps xs in if p == x then rest else none

abbrev pub onto_first : ℕ → List Bytes → List Bytes
onto_first x [] = (x ∷ []) ∷ []
onto_first x (p ∷ ps) = (x ∷ p) ∷ ps

-- strings.Split
unfoldable pub split : ℕ → Bytes → List Bytes
split sep [] = [] ∷ []
split sep (x ∷ xs) = let rest = split sep xs in if x == sep then [] ∷ rest else onto_first x rest

-- strings.SplitN with at most `cuts` cuts
unfoldable pub split_n : ℕ → ℕ → Bytes → List Bytes
split_n zero sep xs = xs ∷ []
split_n (suc cuts) sep [] = [] ∷ []
split_n (suc cuts) sep (x ∷ xs) = elim (x == sep) [
  | true ↦ [] ∷ split_n cuts sep xs
  | false ↦ onto_first x (split_n (suc cuts) sep xs)
]

abbrev pub is_digit : ℕ → Bool
is_digit c = leb b'0' c && leb c b'9'

-- the loop of strconv.ParseUint in base 10, which refuses a number of more than 64 bits
unfoldable pub read_digits : ℕ → Bytes → Option ℕ
read_digits n [] = some n
read_digits n (c ∷ s) =
    let m = n * 10 + (c - b'0') in
    let rest = read_digits m s in if is_digit c && ltb m (2 ^ 64) then rest else none

unfoldable pub parse_uint : Bytes → Option ℕ
parse_uint [] = none
parse_uint (c ∷ s) = read_digits 0 (c ∷ s)

-- an int64: whether it is negative, and its size
pub record Signed : Type 0 where
  pub negative : Bool
  pub size : ℕ

-- strconv.ParseInt in base 10, on 64 bits
abbrev pub signed_of : Bool → Option ℕ → Option Signed
signed_of negative none = none
signed_of negative (some n) =
    if (if negative then leb n (2 ^ 63) else ltb n (2 ^ 63))
    then some (record { negative = negative; size = n })
    else none

unfoldable pub parse_int : Bytes → Option Signed
parse_int [] = none
parse_int (c ∷ s) =
    if c == b'-'
    then signed_of true (parse_uint s)
    else if c == b'+'
    then signed_of false (parse_uint s)
    else signed_of false (parse_uint (c ∷ s))

-- time.Now().Unix() > exp, at a time since 1970
abbrev pub is_past : ℕ → Signed → Bool
is_past now e = if e.negative then ltb 0 (now + e.size) else ltb e.size now

-- strconv.FormatUint: a round for each digit, with fuel for them
unfoldable pub format_digits : ℕ → ℕ → Bytes → Bytes
format_digits zero n out = out
format_digits (suc fuel) n out =
    let more = format_digits fuel (n / 10) ((b'0' + n % 10) ∷ out) in
    if ltb n 10 then (b'0' + n % 10) ∷ out else more

-- A number has at most as many digits as its value plus one.
unfoldable pub format_uint : ℕ → Bytes
format_uint n = format_digits (n + 1) n []

-- base64.RawURLEncoding: the digit of a value below 64, and the value of a digit
abbrev pub digit64 : ℕ → ℕ
digit64 v =
    if ltb v 26
    then v + b'A'
    else if ltb v 52
    then v + 71
    else if ltb v 62
    then v - 52 + b'0'
    else if v == 62
    then b'-'
    else b'_'

abbrev pub value64 : ℕ → Option ℕ
value64 c =
    if leb b'A' c && leb c b'Z'
    then some (c - b'A')
    else if leb b'a' c && leb c b'z'
    then some (c - 71)
    else if is_digit c
    then some (c - b'0' + 52)
    else if c == b'-'
    then some 62
    else if c == b'_'
    then some 63
    else none

unfoldable pub encode64 : Bytes → Bytes
encode64 [] = []
encode64 (a ∷ []) = digit64 (a / 4) ∷ digit64 (a % 4 * 16) ∷ []
encode64 (a ∷ b ∷ []) = digit64 (a / 4) ∷ digit64 (a % 4 * 16 + b / 16) ∷ digit64 (b % 16 * 4) ∷ []
encode64 (a ∷ b ∷ c ∷ rest) =
    digit64 (a / 4)
    ∷ digit64 (a % 4 * 16 + b / 16)
    ∷ digit64 (b % 16 * 4 + c / 64)
    ∷ digit64 (c % 64)
    ∷ encode64 rest

-- the values of the digits; line breaks are passed over, any other character is an error
unfoldable pub values64 : Bytes → Option Bytes
values64 [] = some []
values64 (c ∷ s) =
    let rest = values64 s in
    if c == 10 || c == 13 then rest else elim (value64 c) [
      | none ↦ none
      | some v ↦ elim rest [ none ↦ none | some vs ↦ some (v ∷ vs) ]
    ]

-- four digits are three bytes, three are two, two are one; the bits that are left over are dropped
unfoldable pub join64 : Bytes → Option Bytes
join64 [] = some []
join64 (v ∷ []) = none
join64 (v ∷ w ∷ []) = some ((v * 4 + w / 16) ∷ [])
join64 (v ∷ w ∷ x ∷ []) = some ((v * 4 + w / 16) ∷ (w % 16 * 16 + x / 4) ∷ [])
join64 (v ∷ w ∷ x ∷ y ∷ rest) = elim (join64 rest) [
  | none ↦ none
  | some bs ↦ some ((v * 4 + w / 16) ∷ (w % 16 * 16 + x / 4) ∷ (x % 4 * 64 + y) ∷ bs)
]

unfoldable pub decode64 : Bytes → Option Bytes
unfolding values64 join64
decode64 s = elim (values64 s) [ none ↦ none | some vs ↦ join64 vs ]
