-- ===== src/Login/Secret.antt =====
-- main.go: the settings read from the environment, and the secret that signs the tokens.
use mathlib.Core.List.{reverse}
use super_mario_odyssey.Prelude.{
  ℕ, zero, suc, ◌+◌, ◌-◌, ◌*◌, Bool, false, ◌&&◌, String, Option, none, some, List, [], ◌∷◌, map,
  leb, length, if◌then◌else◌,
}
use super_mario_odyssey.Nex.{Bytes}
use super_mario_odyssey.Strings.{Signed, bytes_eq, after_prefix, parse_int, is_digit}

-- envOr, with the value of the variable
unfoldable pub env_or : Bytes → Bytes → Bytes
env_or [] default = default
env_or (c ∷ v) default = c ∷ v

abbrev pub int_or : Option Signed → Signed → Signed
int_or none default = default
int_or (some n) default = n

-- envOrInt; strconv.Atoi reads what strconv.ParseInt reads in base 10, on 64 bits
unfoldable pub env_or_int : Bytes → Signed → Signed
env_or_int [] default = default
env_or_int (c ∷ v) default = int_or (parse_int (c ∷ v)) default

-- the value of a hexadecimal digit
abbrev pub hex_value : ℕ → Option ℕ
hex_value c =
    if is_digit c
    then some (c - b'0')
    else if leb b'a' c && leb c b'f'
    then some (c - b'a' + 10)
    else if leb b'A' c && leb c b'F'
    then some (c - b'A' + 10)
    else none

-- hex.DecodeString
unfoldable pub hex_decode : Bytes → Option Bytes
hex_decode [] = some []
hex_decode (a ∷ []) = none
hex_decode (a ∷ b ∷ s) = elim (hex_value a) [
  | none ↦ none
  | some x ↦ elim (hex_value b) [
    | none ↦ none
    | some y ↦ elim (hex_decode s) [ none ↦ none | some bs ↦ some ((x * 16 + y) ∷ bs) ]
  ]
]

-- the white space of strings.TrimSpace, in UTF-8
abbrev pub spaces : List Bytes
spaces =
    (9 ∷ [])
    ∷ (10 ∷ [])
    ∷ (11 ∷ [])
    ∷ (12 ∷ [])
    ∷ (13 ∷ [])
    ∷ (32 ∷ [])
    ∷ (0xc2 ∷ 0x85 ∷ [])
    ∷ (0xc2 ∷ 0xa0 ∷ [])
    ∷ (0xe1 ∷ 0x9a ∷ 0x80 ∷ [])
    ∷ (0xe2 ∷ 0x80 ∷ 0x80 ∷ [])
    ∷ (0xe2 ∷ 0x80 ∷ 0x81 ∷ [])
    ∷ (0xe2 ∷ 0x80 ∷ 0x82 ∷ [])
    ∷ (0xe2 ∷ 0x80 ∷ 0x83 ∷ [])
    ∷ (0xe2 ∷ 0x80 ∷ 0x84 ∷ [])
    ∷ (0xe2 ∷ 0x80 ∷ 0x85 ∷ [])
    ∷ (0xe2 ∷ 0x80 ∷ 0x86 ∷ [])
    ∷ (0xe2 ∷ 0x80 ∷ 0x87 ∷ [])
    ∷ (0xe2 ∷ 0x80 ∷ 0x88 ∷ [])
    ∷ (0xe2 ∷ 0x80 ∷ 0x89 ∷ [])
    ∷ (0xe2 ∷ 0x80 ∷ 0x8a ∷ [])
    ∷ (0xe2 ∷ 0x80 ∷ 0xa8 ∷ [])
    ∷ (0xe2 ∷ 0x80 ∷ 0xa9 ∷ [])
    ∷ (0xe2 ∷ 0x80 ∷ 0xaf ∷ [])
    ∷ (0xe2 ∷ 0x81 ∷ 0x9f ∷ [])
    ∷ (0xe3 ∷ 0x80 ∷ 0x80 ∷ [])
    ∷ []

-- the text behind the first of the prefixes that it has
unfoldable pub after_one : List Bytes → Bytes → Option Bytes
after_one [] s = none
after_one (p ∷ ps) s = elim (after_prefix p s) [ none ↦ after_one ps s | some rest ↦ some rest ]

-- A round takes a byte at least: the length of the text is enough fuel.
unfoldable pub trim_with : List Bytes → ℕ → Bytes → Bytes
unfolding after_one
trim_with skip zero s = s
trim_with skip (suc fuel) s = elim (after_one skip s) [
  | none ↦ s
  | some rest ↦ trim_with skip fuel rest
]

unfoldable pub trim_space : Bytes → Bytes
unfolding trim_with
trim_space s =
    let front = trim_with spaces (length s) s in
    reverse (trim_with (map reverse spaces) (length front) (reverse front))

unfoldable pub secret_of_file : Option Bytes → Bytes
unfolding hex_decode trim_space
secret_of_file none = []
secret_of_file (some b) = elim (hex_decode (trim_space b)) [
  | none ↦ []
  | some dec ↦ if leb 16 (length dec) then dec else []
]

-- "nextendo_secret.key"
abbrev pub secret_file : Bytes
secret_file =
    b'n' ∷ b'e' ∷ b'x' ∷ b't' ∷ b'e' ∷ b'n' ∷ b'd' ∷ b'o' ∷ b'_' ∷ b's' ∷ b'e' ∷ b'c' ∷ b'r' ∷ b'e'
    ∷ b't' ∷ b'.' ∷ b'k' ∷ b'e' ∷ b'y' ∷ []

abbrev pub secret_or : Bytes → Bytes → Bytes
secret_or [] file = file
secret_or (c ∷ v) file = c ∷ v

-- loadNextendoSecret; the empty text is its nil
unfoldable pub load_nextendo_secret : (String → Bytes) → (Bytes → Option Bytes) → Bytes
unfolding env_or secret_of_file
load_nextendo_secret getenv read_file =
    secret_or (getenv "NEXTENDO_SECRET")
      (secret_of_file (read_file (env_or (getenv "NEXTENDO_SECRET_FILE") secret_file)))

-- the global variables that are read from the environment when the program starts, but for the
-- secret and the texts that only the listeners use
pub record Settings : Type 0 where
  pub nex_version : Signed
  pub auth_port : Signed
  pub secure_port : Signed
  pub object_port : Signed
  pub secure_minor : Signed
  pub require_account : Bool

abbrev pub whole : ℕ → Signed
whole n = record { negative = false; size = n }

unfoldable pub load_settings : (String → Bytes) → Settings
unfolding env_or_int
load_settings getenv = record {
  nex_version = env_or_int (getenv "SMO_NEX_VERSION") (whole 40000);
  auth_port = env_or_int (getenv "AUTH_PORT") (whole 8453);
  secure_port = env_or_int (getenv "SECURE_PORT") (whole 60013);
  object_port = env_or_int (getenv "OBJECT_PORT") (whole 8459);
  secure_minor = env_or_int (getenv "SMO_SECURE_MINOR") (whole 0);
  require_account = bytes_eq (getenv "NEXTENDO_REQUIRE_ACCOUNT") (b'1' ∷ []);
}
