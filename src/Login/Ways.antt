-- ===== src/Login/Ways.antt =====
-- main.go, resolveUser: the ways into the game, and what bars them.
use super_mario_odyssey.Prelude.{
  ℕ, ◌≤◌, ◌<◌, ◌≡◌, ◌⊎◌, inl, inr, refl, true, false, not, String, ◌&&◌, Option, none, some, arith,
  ltb, leb, Bool-cases, Option-cases,
}
use super_mario_odyssey.Prelude.Map.{lookup}
use super_mario_odyssey.Nex.{Bytes}
use super_mario_odyssey.Strings.{parse_uint}
use super_mario_odyssey.Gates.{NsaStatus, NsaCache, nextendo_online_check, resolve_nsa_to_pid}
use super_mario_odyssey.Gates.Resolve.{Links, resolve_nsa_to_pid-IsResolved}
use super_mario_odyssey.Login.{
  World, Answer, refused, granted, nextendo_pid_from_token, require_signed_token, is_proven,
  check_online, resolve_console, resolve_number, resolve_anonymous, resolve_name, resolve_user,
  source_key_of, anonymous_pid,
}

-- The account server lets `pid` go online, or cannot be asked.
abbrev pub MayGoOnline : World → ℕ → String → Type 0
MayGoOnline w pid kind = (nextendo_online_check (w.ask_online pid kind)).0 ≡ true

-- How the player `pid` comes in: with a signed token as the user name; with a number of an account,
-- proven by a token if that is required; from a console that is linked to the account; or without
-- an account, if none is required.
pub data Way (w : World) (username extra : Bytes) (cache : NsaCache) : ℕ → Type 0 where
  by_token :
      {pid : ℕ}
      → nextendo_pid_from_token w username ≡ some pid
      → MayGoOnline w pid "ryujinx"
      → Way w username extra cache pid
  by_number :
      {n : ℕ}
      → parse_uint username ≡ some n
      → 1800000000 ≤ n
      → n < 1810000000
      → (require_signed_token w ≡ true → is_proven w n extra ≡ true)
      → MayGoOnline w n "ryujinx"
      → Way w username extra cache n
  by_console :
      {n pid : ℕ}
      → parse_uint username ≡ some n
      → 1810000000 ≤ n
      → (lookup n cache ≡ some pid) ⊎ Links w.ask_nsa n pid
      → MayGoOnline w pid "switch"
      → Way w username extra cache pid
  without_account :
      w.require_account ≡ false → Way w username extra cache (anonymous_pid w username)

-- A refusal, or the admission of a player who has a way in, with the key of the user name.
abbrev pub Outcome : World → Bytes → Bytes → NsaCache → Answer → Type 0
Outcome w username extra cache a =
    (a ≡ refused)
    ⊎ ((pid : ℕ) × (a ≡ granted (source_key_of w username) pid) × Way w username extra cache pid)

module _ (w : World) (username extra : Bytes) (cache : NsaCache) where
  check_online-Outcome :
      (pid : ℕ) (kind : String)
      → (MayGoOnline w pid kind → Way w username extra cache pid)
      → Outcome w username extra cache (check_online w (source_key_of w username) pid kind)
  unfolding check_online
  check_online-Outcome pid kind way =
      elim (Bool-cases (nextendo_online_check (w.ask_online pid kind)).0) [
        | inl e ↦ inr (pid, rw e refl, way e)
        | inr e ↦ inl (rw e refl)
      ]

  resolve_anonymous-Outcome : Outcome w username extra cache (resolve_anonymous w username)
  unfolding resolve_anonymous
  resolve_anonymous-Outcome = elim (Bool-cases w.require_account) [
    | inl e ↦ inl (rw e refl)
    | inr e ↦ inr (anonymous_pid w username, rw e refl, Way.without_account e)
  ]

  resolve_console-Outcome :
      (n pid : ℕ) (st : NsaStatus)
      → parse_uint username ≡ some n
      → 1810000000 ≤ n
      → (resolve_nsa_to_pid w.ask_nsa n cache).0 ≡ (pid, st)
      → Outcome w username extra cache (resolve_console w (source_key_of w username) (pid, st))
  unfolding resolve_console
  resolve_console-Outcome n pid NsaStatus.nsa_ok u l h =
      let r = resolve_nsa_to_pid-IsResolved w.ask_nsa n pid cache h in
      check_online-Outcome pid "switch" (λ o. Way.by_console u l r.known o)
  resolve_console-Outcome n pid NsaStatus.nsa_unknown u l h = inl refl
  resolve_console-Outcome n pid NsaStatus.nsa_unreachable u l h = inl refl

  resolve_number-Outcome :
      (n : ℕ)
      → parse_uint username ≡ some n
      → 1800000000 ≤ n
      → Outcome w username extra cache (resolve_number w (source_key_of w username) n extra cache).0
  unfolding resolve_number
  resolve_number-Outcome n u l = elim (Bool-cases (ltb n 1810000000)) [
    | inl e ↦ elim (Bool-cases (require_signed_token w && not (is_proven w n extra))) [
      | inl f ↦ inl (rw (e, f) refl)
      | inr f ↦
          rw (e, f)
            (check_online-Outcome n "ryujinx"
              (λ o. Way.by_number u l (ground (arith, e)) (λ s. ground (arith, f, s)) o))
    ]
    | inr e ↦ rw e (
        resolve_console-Outcome n (resolve_nsa_to_pid w.ask_nsa n cache).0.0
          (resolve_nsa_to_pid w.ask_nsa n cache).0.1 u (ground (arith, e)) refl)
  ]

  resolve_name-Outcome :
      (o : Option ℕ)
      → parse_uint username ≡ o
      → Outcome w username extra cache (resolve_name w username extra o cache).0
  unfolding resolve_name
  resolve_name-Outcome none u = resolve_anonymous-Outcome
  resolve_name-Outcome (some n) u = elim (Bool-cases (leb 1800000000 n)) [
    | inl e ↦ rw e (resolve_number-Outcome n u (ground (arith, e)))
    | inr e ↦ rw e resolve_anonymous-Outcome
  ]

  -- A login ends in a refusal, which gives no player and no key; or the player comes in with the
  -- key of the user name in one of four ways: with a signed token as the user name; with the number
  -- of an account from 1800000000 to 1809999999, proven by a token if that is required; from a
  -- console whose number is 1810000000 at least, that the cache or the account server links to the account;
  -- or without an account, if none is required. In the first three the account server does not bar the account.
  pub resolve_user-Outcome : Outcome w username extra cache (resolve_user w username extra cache).0
  unfolding resolve_user
  resolve_user-Outcome = elim (Option-cases (nextendo_pid_from_token w username)) [
    | inl e ↦ rw (e, resolve_user) (resolve_name-Outcome (parse_uint username) refl)
    | inr (pid, e) ↦
        rw (e, resolve_user) (check_online-Outcome pid "ryujinx" (λ o. Way.by_token e o))
  ]
