-- ===== src/Login/Strict.antt =====
-- main.go, resolveUser: what the flags of the server promise.
use super_mario_odyssey.Prelude.{
  ℕ, ◌≤◌, ◌≡◌, ◌≢◌, ◌⊎◌, inl, inr, refl, sym, ap, ◌∙◌, true, false, Option, none, some, arith, ltb,
  leb, ◌==◌, Bool-cases, Option-cases,
}
use super_mario_odyssey.Prelude.Map.{lookup}
use super_mario_odyssey.Nex.{Bytes}
use super_mario_odyssey.Strings.{parse_uint}
use super_mario_odyssey.Gates.{
  NsaResponse, NsaCache, fetch_nsa, read_nsa_response, resolve_nsa_to_pid,
}
use super_mario_odyssey.Gates.Resolve.{Links}
use super_mario_odyssey.Login.{
  World, refused, granted, nextendo_pid_from_token, require_signed_token, is_proven, resolve_user,
  resolve_console, resolve_name, resolve_number, source_key_of,
}
use super_mario_odyssey.Login.Token.{IsSigned, nextendo_pid_from_token-IsSigned}
use super_mario_odyssey.Login.Ways.{Way, resolve_user-Outcome}

-- The player has shown that the account is theirs: by a signed token as the user name, or in the
-- extra data, or by a console that the cache or the account server links to the account.
pub data HasShown (w : World) (username extra : Bytes) (cache : NsaCache) : ℕ → Type 0 where
  as_name : {pid : ℕ} → IsSigned w username pid → HasShown w username extra cache pid
  in_extra :
      {pid : ℕ} {tok : Bytes}
      → w.nex_token_from_login_extra_data extra ≡ some tok
      → IsSigned w tok pid
      → HasShown w username extra cache pid
  by_link :
      {n pid : ℕ}
      → parse_uint username ≡ some n
      → (lookup n cache ≡ some pid) ⊎ Links w.ask_nsa n pid
      → HasShown w username extra cache pid

true-ne-false : true ≢ false
true-ne-false h = cc

module _ (w : World) (username extra : Bytes) (cache : NsaCache) where
  is_proven-IsSigned :
      (n : ℕ)
      → is_proven w n extra ≡ true
      → (tok : Bytes) × (w.nex_token_from_login_extra_data extra ≡ some tok) × IsSigned w tok n
  unfolding is_proven
  is_proven-IsSigned n h = elim (Option-cases (w.nex_token_from_login_extra_data extra)) [
    | inl e ↦ absurd (ground (arith, e, h))
    | inr (tok, e) ↦ elim (Option-cases (nextendo_pid_from_token w tok)) [
      | inl f ↦ absurd (ground (arith, e, f, h))
      | inr (p, f) ↦
          let same : p ≡ n = ground (arith, e, f, h) in
          (tok, e, nextendo_pid_from_token-IsSigned w tok n (rw (← same) f))
    ]
  ]

  HasShown-of_Way :
      (pid : ℕ)
      → w.require_account ≡ true
      → require_signed_token w ≡ true
      → Way w username extra cache pid
      → HasShown w username extra cache pid
  HasShown-of_Way pid a s (Way.by_token e o) =
      HasShown.as_name (nextendo_pid_from_token-IsSigned w username pid e)
  HasShown-of_Way pid a s (Way.by_number u l h p o) =
      let (tok, e, signed) = is_proven-IsSigned pid (p s) in HasShown.in_extra e signed
  HasShown-of_Way pid a s (Way.by_console u l k o) = HasShown.by_link u k
  HasShown-of_Way _ a s (Way.without_account e) = cc

  -- Where the server requires an account and signed tokens, a player who comes in has shown that
  -- the account is theirs: by a token that the server's secret signed, as the user name or in the
  -- extra data, or by a console that the cache or the account server links to the account.
  pub resolve_user-HasShown :
      (key : Bytes) (pid : ℕ)
      → w.require_account ≡ true
      → require_signed_token w ≡ true
      → (resolve_user w username extra cache).0 ≡ granted key pid
      → HasShown w username extra cache pid
  resolve_user-HasShown key pid a s h = elim (resolve_user-Outcome w username extra cache) [
    | inl e ↦ absurd (true-ne-false (sym (ap (λ a. a.ok) h) ∙ ap (λ a. a.ok) e))
    | inr (p, e, way) ↦
        let same : p ≡ pid = sym (ap (λ x. x.pid) e) ∙ ap (λ x. x.pid) h in
        HasShown-of_Way pid a s (rw same at way)
  ]

  -- The account server cannot be reached, or answers with a status other than 200.
  abbrev pub SaysNothing : Option NsaResponse → Type 0
  SaysNothing none = Unit
  SaysNothing (some resp) = (resp.status_code == 200) ≡ false

  fetch_nsa-refused :
      (key : Bytes) (n : ℕ) (o : Option NsaResponse)
      → SaysNothing o
      → (resolve_console w key (fetch_nsa o n cache).0 ≡ refused)
        × ((fetch_nsa o n cache).1 ≡ cache)
  unfolding resolve_console fetch_nsa read_nsa_response
  fetch_nsa-refused key n none h = (refl, refl)
  fetch_nsa-refused key n (some resp) h = elim (Bool-cases (resp.status_code == 404)) [
    | inl e ↦ (rw e refl, rw e refl)
    | inr e ↦ (rw (e, h) refl, rw (e, h) refl)
  ]

  -- Fail closed: the number of a console that the cache does not hold is refused when the account
  -- server cannot be reached or answers with a status other than 200, and the cache stays as it is;
  -- if the user name is no valid token.
  pub resolve_user-SaysNothing :
      (n : ℕ)
      → nextendo_pid_from_token w username ≡ none
      → parse_uint username ≡ some n
      → 1810000000 ≤ n
      → lookup n cache ≡ none
      → SaysNothing (w.ask_nsa n)
      → resolve_user w username extra cache ≡ (refused, cache)
  unfolding resolve_user resolve_name resolve_number resolve_nsa_to_pid
  resolve_user-SaysNothing n t u l c h =
      let (a, b) = fetch_nsa-refused (source_key_of w username) n (w.ask_nsa n) h in
      let high : leb 1800000000 n ≡ true = ground arith in
      let console : ltb n 1810000000 ≡ false = ground arith in
      rw
        (
          t, resolve_user, u, resolve_name, high, resolve_number, console, c, resolve_nsa_to_pid, a,
          b,
        )
        refl
