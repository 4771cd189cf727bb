-- ===== src/Login/Token.antt =====
-- main.go, nextendoPIDFromToken: which tokens are taken, and for whom.
use super_mario_odyssey.Prelude.{
  ℕ, ◌^◌, ◌≤◌, ◌<◌, ◌≡◌, refl, ap, ◌∙◌, false, some, List, [], ◌∷◌, ◌++◌, arith, All, inl, inr,
  Bool-cases, Option-cases, ltb,
}
use super_mario_odyssey.Nex.{Bytes}
use super_mario_odyssey.Strings.{
  dot, bytes_eq, after_prefix, split, split_n, parse_uint, parse_int, Signed, is_past, encode64,
  decode64, format_uint,
}
use super_mario_odyssey.Strings.Parts.{
  bytes_eq_sound, bytes_eq_refl, after_prefix-append, after_prefix_sound, Lacks, split_two,
  split_n-suc, joined, joined-split, joined-split_n,
}
use super_mario_odyssey.Strings.Base64.{IsByte, decode64-encode64, encode64-Lacks}
use super_mario_odyssey.Strings.Numbers.{
  parse_uint-format_uint, parse_int-format_uint, format_uint-digits, format_uint-Lacks, IsDigit,
}
use super_mario_odyssey.Login.{
  World, nx2, nex_prefix, signature, read_claims, read_payload, read_parts, nextendo_pid_from_token,
  is_empty,
}

-- The payload `raw` says that the account is `pid`, and has not expired.
pub record IsClaim (now : ℕ) (raw : Bytes) (pid : ℕ) : Type 0 where
  pub id : Bytes
  pub middle : Bytes
  pub expiry : Bytes
  pub written : raw ≡ id ++ dot ∷ (middle ++ dot ∷ expiry)
  pub is_id : parse_uint id ≡ some pid
  pub time : Signed
  pub is_time : parse_int expiry ≡ some time
  pub valid : is_past now time ≡ false

-- `s` is the prefix, a payload in base64 that claims `pid`, and the signature that the secret of
-- the server gives to the payload.
pub record IsSigned (w : World) (s : Bytes) (pid : ℕ) : Type 0 where
  pub payload : Bytes
  pub raw : Bytes
  pub written : s ≡ nx2 ++ (payload ++ dot ∷ signature w raw)
  pub decoded : decode64 payload ≡ some raw
  pub claim : IsClaim w.now raw pid
  pub has_secret : is_empty w.nextendo_secret ≡ false

module _ (w : World) where
  read_claims-IsClaim :
      (parts : List Bytes) (pid : ℕ)
      → read_claims w parts ≡ some pid
      → IsClaim w.now (joined dot parts) pid
  unfolding read_claims
  read_claims-IsClaim [] pid h = cc
  read_claims-IsClaim (a ∷ []) pid h = cc
  read_claims-IsClaim (a ∷ b ∷ []) pid h = cc
  read_claims-IsClaim (a ∷ b ∷ c ∷ d ∷ rest) pid h = cc
  read_claims-IsClaim (f0 ∷ f1 ∷ f2 ∷ []) pid h = elim (Option-cases (parse_uint f0)) [
    | inl e ↦ absurd (ground (arith, e, h))
    | inr (p, e) ↦ elim (Option-cases (parse_int f2)) [
      | inl f ↦ absurd (ground (arith, e, f, h))
      | inr (exp, f) ↦ elim (Bool-cases (is_past w.now exp)) [
        | inl g ↦ absurd (ground (arith, e, f, g, h))
        | inr g ↦ record {
          id = f0;
          middle = f1;
          expiry = f2;
          written = refl;
          is_id = ground (arith, e, f, g, h);
          time = exp;
          is_time = f;
          valid = g;
        }
      ]
    ]
  ]

  read_payload-IsSigned :
      (s payload sig : Bytes) (pid : ℕ)
      → s ≡ nx2 ++ (payload ++ dot ∷ sig)
      → is_empty w.nextendo_secret ≡ false
      → read_payload w payload sig ≡ some pid
      → IsSigned w s pid
  unfolding read_payload
  read_payload-IsSigned s payload sig pid q k h = elim (Option-cases (decode64 payload)) [
    | inl e ↦ absurd (ground (arith, e, h))
    | inr (raw, e) ↦ elim (Bool-cases (bytes_eq (signature w raw) sig)) [
      | inr f ↦ absurd (ground (arith, e, f, h))
      | inl f ↦
          let claim : IsClaim w.now (joined dot (split_n 2 dot raw)) pid =
            read_claims-IsClaim (split_n 2 dot raw) pid (ground (arith, e, f, h)) in
          record {
            payload = payload;
            raw = raw;
            written = rw (bytes_eq_sound (signature w raw) sig f) q;
            decoded = e;
            claim = rw (joined-split_n 2 dot raw) at claim;
            has_secret = k;
          }
    ]
  ]

  read_parts-IsSigned :
      (s : Bytes) (parts : List Bytes) (pid : ℕ)
      → s ≡ nx2 ++ joined dot parts
      → is_empty w.nextendo_secret ≡ false
      → read_parts w parts ≡ some pid
      → IsSigned w s pid
  unfolding read_parts
  read_parts-IsSigned s [] pid q k h = cc
  read_parts-IsSigned s (a ∷ []) pid q k h = cc
  read_parts-IsSigned s (a ∷ b ∷ c ∷ rest) pid q k h = cc
  read_parts-IsSigned s (payload ∷ sig ∷ []) pid q k h =
      read_payload-IsSigned s payload sig pid q k h

  -- A token is only taken for the account that it names, before it expires and if the server's
  -- secret has signed it: then the text is "nx2.", a payload in base64, a dot and the signature of the payload.
  pub nextendo_pid_from_token-IsSigned :
      (s : Bytes) (pid : ℕ) → nextendo_pid_from_token w s ≡ some pid → IsSigned w s pid
  unfolding nextendo_pid_from_token
  nextendo_pid_from_token-IsSigned s pid h = elim (Bool-cases (is_empty w.nextendo_secret)) [
    | inl e ↦ absurd (ground (arith, e, h))
    | inr e ↦ elim (Option-cases (after_prefix nx2 s)) [
      | inl f ↦ absurd (ground (arith, e, f, h))
      | inr (rest, f) ↦
          read_parts-IsSigned s (split dot rest) pid
            (rw (joined-split dot rest) (after_prefix_sound nx2 s rest f)) e
            (ground (arith, e, f, h))
    ]
  ]

-- what the account server writes into a token
abbrev pub payload_of : ℕ → Bytes → ℕ → Bytes
payload_of pid name exp = format_uint pid ++ dot ∷ (name ++ dot ∷ format_uint exp)

abbrev pub token_of : World → ℕ → Bytes → ℕ → Bytes
token_of w pid name exp =
    nx2 ++ (encode64 (payload_of pid name exp) ++ dot ∷ signature w (payload_of pid name exp))

All-append : (xs ys : Bytes) → All IsByte xs → All IsByte ys → All IsByte (xs ++ ys)
All-append [] ys h k = k
All-append (x ∷ xs) ys h k = (h.0, All-append xs ys h.1 k)

split-payload_of :
    (pid : ℕ) (name : Bytes) (exp : ℕ)
    → Lacks dot name
    → split_n 2 dot (payload_of pid name exp) ≡ format_uint pid ∷ name ∷ format_uint exp ∷ []
split-payload_of pid name exp n =
    let rest : split_n 1 dot (name ++ dot ∷ format_uint exp) ≡ name ∷ format_uint exp ∷ [] =
      split_n-suc 0 dot name (format_uint exp) n ∙ ap (λ x. name ∷ x) (unfold split_n in refl) in
    split_n-suc 1 dot (format_uint pid) (name ++ dot ∷ format_uint exp) (format_uint-Lacks pid)
    ∙ ap (λ x. format_uint pid ∷ x) rest

read_claims-payload_of :
    (w : World) (pid : ℕ) (name : Bytes) (exp : ℕ)
    → pid < 2 ^ 64
    → Lacks dot name
    → w.now ≤ exp
    → exp < 2 ^ 63
    → read_claims w (split_n 2 dot (payload_of pid name exp)) ≡ some pid
unfolding read_claims
read_claims-payload_of w pid name exp p n t e =
    let current : ltb exp w.now ≡ false = ground arith in
    rw
      (
        split-payload_of pid name exp n,
        read_claims,
        parse_uint-format_uint pid p,
        parse_int-format_uint exp e,
        current,
      )
      refl

digits-IsByte : (s : Bytes) → All IsDigit s → All IsByte s
digits-IsByte [] h = tt
digits-IsByte (c ∷ s) h = (ground arith, digits-IsByte s h.1)

payload_of-IsByte :
    (pid : ℕ) (name : Bytes) (exp : ℕ) → All IsByte name → All IsByte (payload_of pid name exp)
payload_of-IsByte pid name exp h =
    All-append (format_uint pid) (dot ∷ (name ++ dot ∷ format_uint exp))
      (digits-IsByte (format_uint pid) (format_uint-digits pid))
      (
        omega arith,
        All-append name (dot ∷ format_uint exp) h
            (omega arith, digits-IsByte (format_uint exp) (format_uint-digits exp)),
      )

-- Every token that the account server signs with the secret of this server is taken, for the
-- account in it, until it expires: if the secret is not empty, the hash gives bytes, the account
-- fits 64 bits and the time 63, and the middle field holds bytes other than the dot.
pub nextendo_pid_from_token-token_of :
    (w : World) (pid : ℕ) (name : Bytes) (exp : ℕ)
    → is_empty w.nextendo_secret ≡ false
    → ((key text : Bytes) → All IsByte (w.hmac_sha256 key text))
    → pid < 2 ^ 64
    → All IsByte name
    → Lacks dot name
    → w.now ≤ exp
    → exp < 2 ^ 63
    → nextendo_pid_from_token w (token_of w pid name exp) ≡ some pid
unfolding nextendo_pid_from_token read_parts read_payload
nextendo_pid_from_token-token_of w pid name exp k hash p b n t e =
    let raw = payload_of pid name exp in
    let bytes = payload_of-IsByte pid name exp b in
    let prefix = after_prefix-append nx2 (encode64 raw ++ dot ∷ signature w raw) in
    let parts = split_two dot (encode64 raw) (signature w raw) (encode64-Lacks raw bytes) (
      encode64-Lacks (w.hmac_sha256 w.nextendo_secret (nex_prefix ++ raw))
        (hash w.nextendo_secret (nex_prefix ++ raw))) in
    rw
      (
        k,
        prefix,
        parts,
        read_parts,
        read_payload,
        decode64-encode64 raw bytes,
        bytes_eq_refl (signature w raw),
      )
      (read_claims-payload_of w pid name exp p n t e)
