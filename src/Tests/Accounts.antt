-- ===== src/Tests/Accounts.antt =====
-- The theorems about tokens and the ways into the game, at small inputs.
use super_mario_odyssey.Prelude.{replicate, All, ◌++◌, ◌≡◌, refl, true, none, some, [], ◌∷◌, arith}
use super_mario_odyssey.Prelude.Map.{lookup}
use super_mario_odyssey.Nex.{Bytes}
use super_mario_odyssey.Strings.{bytes_eq, after_prefix, parse_uint, format_uint, read_digits}
use super_mario_odyssey.Strings.Base64.{IsByte}
use super_mario_odyssey.Login.Secret.{load_nextendo_secret}
use super_mario_odyssey.Login.KeyFile.{hex_text, load_nextendo_secret-hex_text}
use super_mario_odyssey.Login.{
  World, nextendo_pid_from_token, require_signed_token, resolve_user, refused, granted,
  source_key_of, check_online,
}
use super_mario_odyssey.Login.Token.{
  IsSigned, token_of, nextendo_pid_from_token-IsSigned, nextendo_pid_from_token-token_of,
}
use super_mario_odyssey.Gates.{nextendo_online_check}
use super_mario_odyssey.Login.Admits.{Signs, resolve_user-admits}
use super_mario_odyssey.Login.Ways.{Outcome, resolve_user-Outcome}
use super_mario_odyssey.Login.Strict.{HasShown, resolve_user-HasShown, resolve_user-SaysNothing}

-- a strict server whose hash gives three bytes, and an account server that cannot be reached
abbrev strict : World
strict = record {
  sha256 = λ text. 5 ∷ [];
  hmac_sha256 = λ key text. 200 ∷ 7 ∷ 46 ∷ [];
  getenv = λ name. b'1' ∷ [];
  read_file = λ path. none;
  now = 1000;
  nex_token_from_login_extra_data = λ extra. none;
  ask_online = λ pid kind. none;
  ask_nsa = λ nsa. none;
  nextendo_secret = 1 ∷ 2 ∷ 3 ∷ [];
  require_account = true;
}

abbrev token : Bytes
token = token_of strict 1800000005 (b'm' ∷ []) 2000

token-pid : nextendo_pid_from_token strict token ≡ some 1800000005
token-pid =
    nextendo_pid_from_token-token_of strict 1800000005 (b'm' ∷ []) 2000 refl
      (λ key text. (omega arith, (omega arith, (omega arith, tt)))) (omega arith) (omega arith, tt)
      (refl, tt) (omega arith) (omega arith)

nextendo_pid_from_token-token_of_example : nextendo_pid_from_token strict token ≡ some 1800000005
nextendo_pid_from_token-token_of_example =
    nextendo_pid_from_token-token_of strict 1800000005 (b'm' ∷ []) 2000 refl
      (λ key text. (omega arith, (omega arith, (omega arith, tt)))) (omega arith) (omega arith, tt)
      (refl, tt) (omega arith) (omega arith)

nextendo_pid_from_token-IsSigned_example : IsSigned strict token 1800000005
nextendo_pid_from_token-IsSigned_example =
    nextendo_pid_from_token-IsSigned strict token 1800000005 token-pid

resolve_user-Outcome_example : Outcome strict token [] [] (resolve_user strict token [] []).0
resolve_user-Outcome_example = resolve_user-Outcome strict token [] []

login : (resolve_user strict token [] []).0 ≡ granted (5 ∷ []) 1800000005
unfolding resolve_user check_online source_key_of
login = rw (token-pid, resolve_user) refl

resolve_user-HasShown_example : HasShown strict token [] [] 1800000005
unfolding bytes_eq
resolve_user-HasShown_example =
    resolve_user-HasShown strict token [] [] (5 ∷ []) 1800000005 refl
      (unfold require_signed_token in refl) login

-- the same server, where the extra data of a login is the token
abbrev emulator : World
emulator = record strict { nex_token_from_login_extra_data = λ extra. some extra }

token-Signs : Signs emulator 1800000005 (b'm' ∷ []) 2000
token-Signs = record {
  has_secret = refl;
  hash_bytes = λ key text. (omega arith, (omega arith, (omega arith, tt)));
  fits = omega arith;
  name_bytes = (omega arith, tt);
  name_dots = (refl, tt);
  in_time = omega arith;
  time_fits = omega arith;
}

resolve_user-admits_example :
    resolve_user emulator (format_uint 1800000005) token []
    ≡ (granted (source_key_of emulator (format_uint 1800000005)) 1800000005, [])
resolve_user-admits_example =
    resolve_user-admits emulator 1800000005 (b'm' ∷ []) 2000 token [] token-Signs (omega arith)
      (omega arith) refl (unfold nextendo_online_check in refl)

-- the number of a console, 1810000001
abbrev console : Bytes
console = b'1' ∷ b'8' ∷ b'1' ∷ b'0' ∷ b'0' ∷ b'0' ∷ b'0' ∷ b'0' ∷ b'0' ∷ b'1' ∷ []

resolve_user-SaysNothing_example : resolve_user strict console [] [] ≡ (refused, [])
unfolding lookup parse_uint read_digits nextendo_pid_from_token after_prefix
resolve_user-SaysNothing_example =
    resolve_user-SaysNothing strict console [] [] 1810000001 refl refl (omega arith) refl tt

abbrev long_key : Bytes
long_key = replicate 16 171

long_key-IsByte : All IsByte long_key
long_key-IsByte = ground arith

load_nextendo_secret-hex_text_example :
    load_nextendo_secret (λ name. []) (λ path. some (hex_text long_key ++ 10 ∷ [])) ≡ long_key
load_nextendo_secret-hex_text_example =
    load_nextendo_secret-hex_text (λ name. []) (λ path. some (hex_text long_key ++ 10 ∷ []))
      long_key refl refl long_key-IsByte (omega arith)
