-- ===== src/Login/Admits.antt =====
-- main.go, resolveUser: who is let in whatever the flags of the server.
use super_mario_odyssey.Prelude.{
  ℕ, ◌^◌, ◌≤◌, ◌<◌, ◌≡◌, refl, true, false, not, ◌&&◌, none, some, ◌∷◌, arith, All, ltb, leb, ◌==◌,
  Bool-cases, inl, inr, ==_self,
}
use super_mario_odyssey.Nex.{Bytes}
use super_mario_odyssey.Strings.{format_uint, after_prefix, parse_uint}
use super_mario_odyssey.Strings.Base64.{IsByte}
use super_mario_odyssey.Strings.Parts.{Lacks}
use super_mario_odyssey.Strings.Numbers.{
  IsDigit, format_uint-cons, format_uint-digits, parse_uint-format_uint,
}
use super_mario_odyssey.Strings.{dot}
use super_mario_odyssey.Gates.{NsaCache}
use super_mario_odyssey.Login.{
  World, is_empty, granted, nextendo_pid_from_token, is_proven, require_signed_token, check_online,
  resolve_number, resolve_name, resolve_user, source_key_of,
}
use super_mario_odyssey.Login.Token.{token_of, nextendo_pid_from_token-token_of}
use super_mario_odyssey.Login.Ways.{MayGoOnline}

-- The account server has signed a token for `pid`, which still holds.
pub record Signs (w : World) (pid : ℕ) (name : Bytes) (exp : ℕ) : Type 0 where
  pub has_secret : is_empty w.nextendo_secret ≡ false
  pub hash_bytes : (key text : Bytes) → All IsByte (w.hmac_sha256 key text)
  pub fits : pid < 2 ^ 64
  pub name_bytes : All IsByte name
  pub name_dots : Lacks dot name
  pub in_time : w.now ≤ exp
  pub time_fits : exp < 2 ^ 63

Signs-token :
    (w : World) (pid : ℕ) (name : Bytes) (exp : ℕ)
    → Signs w pid name exp
    → nextendo_pid_from_token w (token_of w pid name exp) ≡ some pid
Signs-token w pid name exp h =
    nextendo_pid_from_token-token_of w pid name exp h.has_secret h.hash_bytes h.fits h.name_bytes
      h.name_dots h.in_time h.time_fits

digit_is_no_token :
    (w : World) (d : ℕ) (ds s : Bytes)
    → s ≡ d ∷ ds
    → All IsDigit s
    → nextendo_pid_from_token w s ≡ none
unfolding nextendo_pid_from_token after_prefix
digit_is_no_token w d ds s e h =
    let k : All IsDigit (d ∷ ds) = rw e at h in
    let other : (b'n' == d) ≡ false = ground (arith, k.0) in
    elim (Bool-cases (is_empty w.nextendo_secret)) [
      | inl f ↦ rw (e, f) refl
      | inr f ↦ rw (e, f, other) refl
    ]

pub number_is_no_token : (w : World) (n : ℕ) → nextendo_pid_from_token w (format_uint n) ≡ none
number_is_no_token w n =
    let c = format_uint-cons n in
    digit_is_no_token w c.0 c.1 (format_uint n) c.2 (format_uint-digits n)

-- A player whose user name is the number of an account, from 1800000000 to 1809999999, and whose
-- extra data holds a token that the account server has signed for that account and that still holds,
-- comes in as that account, if the account server does not bar it: also where the server requires
-- accounts and signed tokens. The hash is assumed to give bytes.
pub resolve_user-admits :
    (w : World) (n : ℕ) (name : Bytes) (exp : ℕ) (extra : Bytes) (cache : NsaCache)
    → Signs w n name exp
    → 1800000000 ≤ n
    → n < 1810000000
    → w.nex_token_from_login_extra_data extra ≡ some (token_of w n name exp)
    → MayGoOnline w n "ryujinx"
    → resolve_user w (format_uint n) extra cache
      ≡ (granted (source_key_of w (format_uint n)) n, cache)
unfolding resolve_user resolve_name resolve_number is_proven check_online
resolve_user-admits w n name exp extra cache h low high token online =
    let number : parse_uint (format_uint n) ≡ some n = parse_uint-format_uint n h.fits in
    let above : leb 1800000000 n ≡ true = ground arith in
    let below : ltb n 1810000000 ≡ true = ground arith in
    let proven : is_proven w n extra ≡ true =
      rw (token, is_proven, Signs-token w n name exp h, ==_self n) refl in
    let passes : (require_signed_token w && not (is_proven w n extra)) ≡ false =
      rw proven (ground arith) in
    rw
      (
        number_is_no_token w n,
        resolve_user,
        number,
        resolve_name,
        above,
        resolve_number,
        below,
        passes,
        online,
      )
      refl
