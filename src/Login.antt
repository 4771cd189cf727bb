-- ===== src/Login.antt =====
-- main.go: who may log in. The user name and the texts of the environment are lists of bytes.
pub mod Secret
pub mod Token
pub mod Ways
pub mod Strict
pub mod Admits
pub mod KeyFile
use Prim.Native.Nat.{bit_xor}
use super_mario_odyssey.Prelude.{
  ℕ, ◌+◌, ◌*◌, ◌%◌, ◌^◌, Bool, true, false, not, ◌&&◌, ◌||◌, String, Option, none, some, List, [],
  ◌∷◌, ◌++◌, ltb, leb, ◌==◌, if◌then◌else◌,
}
use super_mario_odyssey.Prelude.State.{State}
use super_mario_odyssey.Nex.{Bytes}
use super_mario_odyssey.Strings.{
  dot, bytes_eq, after_prefix, split, split_n, parse_uint, parse_int, is_past, encode64, decode64,
}
use super_mario_odyssey.Gates.{
  OnlineCheck, NsaStatus, NsaResponse, NsaCache, nextendo_online_check, resolve_nsa_to_pid,
}

-- What a login asks of the world: the hashes, the environment (the empty text for a variable that
-- is not set), the files, the clock in seconds since 1970, the token that nextendo-nex finds in the
-- extra data of a login, and the answers of the account server.
pub record World : Type 0 where
  pub sha256 : Bytes → Bytes
  pub hmac_sha256 : Bytes → Bytes → Bytes
  pub getenv : String → Bytes
  pub read_file : Bytes → Option Bytes
  pub now : ℕ
  pub nex_token_from_login_extra_data : Bytes → Option Bytes
  pub ask_online : ℕ → String → Option (Option OnlineCheck)
  pub ask_nsa : ℕ → Option NsaResponse
  -- loaded when the program starts: nextendoSecret, requireAccount
  pub nextendo_secret : Bytes
  pub require_account : Bool

abbrev pub nx2 : Bytes
nx2 = b'n' ∷ b'x' ∷ b'2' ∷ b'.' ∷ []

abbrev pub nex_prefix : Bytes
nex_prefix = b'n' ∷ b'e' ∷ b'x' ∷ b':' ∷ []

-- "nextendo-src:"
abbrev pub source_prefix : Bytes
source_prefix =
    b'n' ∷ b'e' ∷ b'x' ∷ b't' ∷ b'e' ∷ b'n' ∷ b'd' ∷ b'o' ∷ b'-' ∷ b's' ∷ b'r' ∷ b'c' ∷ b':' ∷ []

-- the three results of resolveUser
pub record Answer : Type 0 where
  pub pid : ℕ
  pub source_key : Bytes
  pub ok : Bool

abbrev pub refused : Answer
refused = record { pid = 0; source_key = []; ok = false }

abbrev pub granted : Bytes → ℕ → Answer
granted key pid = record { pid = pid; source_key = key; ok = true }

abbrev pub is_empty : Bytes → Bool
is_empty [] = true
is_empty (b ∷ bs) = false

module _ (w : World) where
  -- the fields of a signed payload: the id, a field that is not read, and the time it expires
  unfoldable pub read_claims : List Bytes → Option ℕ
  read_claims (f0 ∷ f1 ∷ f2 ∷ []) = elim (parse_uint f0) [
    | none ↦ none
    | some pid ↦ elim (parse_int f2) [
      | none ↦ none
      | some exp ↦ if is_past w.now exp then none else some pid
    ]
  ]
  read_claims _ = none

  -- the signature that the secret gives a payload
  abbrev pub signature : Bytes → Bytes
  signature raw = encode64 (w.hmac_sha256 w.nextendo_secret (nex_prefix ++ raw))

  unfoldable pub read_payload : Bytes → Bytes → Option ℕ
  unfolding read_claims
  read_payload payload sig = elim (decode64 payload) [
    | none ↦ none
    | some raw ↦ if bytes_eq (signature raw) sig then read_claims (split_n 2 dot raw) else none
  ]

  unfoldable pub read_parts : List Bytes → Option ℕ
  unfolding read_payload
  read_parts (payload ∷ sig ∷ []) = read_payload payload sig
  read_parts _ = none

  unfoldable pub nextendo_pid_from_token : Bytes → Option ℕ
  unfolding read_parts
  nextendo_pid_from_token s =
      if is_empty w.nextendo_secret
      then none
      else elim (after_prefix nx2 s) [ none ↦ none | some rest ↦ read_parts (split dot rest) ]

  -- fnv.New32a: the offset basis, then a round for each byte
  unfoldable pub fnv_rounds : ℕ → Bytes → ℕ
  fnv_rounds h [] = h
  fnv_rounds h (b ∷ bs) = fnv_rounds (bit_xor h b * 16777619 % 2 ^ 32) bs

  unfoldable pub anonymous_pid : Bytes → ℕ
  unfolding fnv_rounds
  anonymous_pid username = 1800000000 + fnv_rounds 2166136261 username % 100000000

  unfoldable pub require_signed_token : Bool
  require_signed_token =
      let v = w.getenv "NEXTENDO_REQUIRE_SIGNED_TOKEN" in
      bytes_eq v (b'1' ∷ []) || bytes_eq v (b't' ∷ b'r' ∷ b'u' ∷ b'e' ∷ [])

  unfoldable pub source_key_of : Bytes → Bytes
  source_key_of username = w.sha256 (source_prefix ++ username)

  unfoldable pub check_online : Bytes → ℕ → String → Answer
  unfolding nextendo_online_check
  check_online key pid kind =
      if (nextendo_online_check (w.ask_online pid kind)).0 then granted key pid else refused

  -- The id that the token in the extra data proves is `n`.
  unfoldable pub is_proven : ℕ → Bytes → Bool
  unfolding nextendo_pid_from_token
  is_proven n extra = elim (w.nex_token_from_login_extra_data extra) [
    | none ↦ false
    | some tok ↦ elim (nextendo_pid_from_token tok) [ none ↦ false | some proven ↦ proven == n ]
  ]

  unfoldable pub resolve_console : Bytes → ℕ × NsaStatus → Answer
  resolve_console key (pid, NsaStatus.nsa_ok) = check_online key pid "switch"
  resolve_console key (pid, NsaStatus.nsa_unknown) = refused
  resolve_console key (pid, NsaStatus.nsa_unreachable) = refused

  -- a user name that is a number of at least 1800000000
  unfoldable pub resolve_number : Bytes → ℕ → Bytes → State NsaCache Answer
  unfolding is_proven require_signed_token resolve_nsa_to_pid
  resolve_number key n extra cache =
      if ltb n 1810000000
      then (
        (if require_signed_token && not (is_proven n extra)
            then refused
            else check_online key n "ryujinx"),
        cache,
      )
      else let (found, cache') = resolve_nsa_to_pid w.ask_nsa n cache in
        (resolve_console key found, cache')

  unfoldable pub resolve_anonymous : Bytes → Answer
  unfolding anonymous_pid
  resolve_anonymous username =
      if w.require_account
      then refused
      else granted (source_key_of username) (anonymous_pid username)

  unfoldable pub resolve_name : Bytes → Bytes → Option ℕ → State NsaCache Answer
  unfolding resolve_number resolve_anonymous
  resolve_name username extra none cache = (resolve_anonymous username, cache)
  resolve_name username extra (some n) cache =
      if leb 1800000000 n
      then resolve_number (source_key_of username) n extra cache
      else (resolve_anonymous username, cache)

  unfoldable pub resolve_user : Bytes → Bytes → State NsaCache Answer
  unfolding nextendo_pid_from_token check_online resolve_name
  resolve_user username extra cache = elim (nextendo_pid_from_token username) [
    | some pid ↦ (check_online (source_key_of username) pid "ryujinx", cache)
    | none ↦ resolve_name username extra (parse_uint username) cache
  ]
