-- ===== src/Dashboard/Guards.antt =====
-- dashboard.go, startDashboard: what a request without the key can do, and what one with it does.
use super_mario_odyssey.Prelude.{
  ℕ, ◌≡◌, ◌≢◌, ◌⊎◌, inl, inr, refl, true, Option, none, some, [], ◌∷◌, arith, ◌==◌, Bool-cases,
  Option-cases,
}
use super_mario_odyssey.Nex.{Bytes}
use super_mario_odyssey.Balloon.{Server, Env}
use super_mario_odyssey.Strings.{parse_uint}
use super_mario_odyssey.Strings.Parts.{bytes_eq_sound}
use super_mario_odyssey.Dashboard.{Dash}
use super_mario_odyssey.Dashboard.Stats.{DashEnv}
use super_mario_odyssey.Dashboard.Http.{
  Endpoint, Reply, KickRequest, authed, nonzero, parse_uint32, kick, kick_connection_or_reap,
  api_kick, api_stats,
}

nonzero_sound : (o : Option ℕ) (n : ℕ) → nonzero o ≡ some n → (o ≡ some n) × (n ≢ 0)
nonzero_sound none n h = cc
nonzero_sound (some m) n h = elim (Bool-cases (m == 0)) [
  | inl e ↦ absurd (ground (arith, e, h))
  | inr e ↦ (ground (arith, e, h), ground (arith, e, h))
]

authed_sound : (token key : Bytes) → authed token key ≡ true → (token ≢ []) × (key ≡ token)
unfolding authed
authed_sound [] key h = cc
authed_sound (t ∷ ts) key h = (λ e. cc, bytes_eq_sound key (t ∷ ts) h)

module _ (e : Endpoint) where
  -- What a kick with the key does: it throws out the player of the query, or else the connection of the
  -- query, or else the idle connections.
  pub data Kicks (r : KickRequest e) (c : e.Connections) : Reply e × e.Connections → Type 0 where
    of_player :
        {pid : ℕ}
        → parse_uint r.pid ≡ some pid
        → pid ≢ 0
        → Kicks r c (Reply.kicked_player pid (e.kick_pid pid c).0, (e.kick_pid pid c).1)
    of_connection :
        {rv : ℕ}
        → nonzero (parse_uint r.pid) ≡ none
        → parse_uint32 r.rvcid ≡ some rv
        → rv ≢ 0
        → Kicks r c
            (Reply.kicked_connection rv (e.kick_connection rv c).0, (e.kick_connection rv c).1)
    of_idle :
        nonzero (parse_uint r.pid) ≡ none
        → nonzero (parse_uint32 r.rvcid) ≡ none
        → Kicks r c (Reply.reaped (e.reap_idle c).0, (e.reap_idle c).1)

  kick-Kicks :
      (r : KickRequest e) (c : e.Connections)
      → Kicks r c (kick e (nonzero (parse_uint r.pid)) r.rvcid c)
  unfolding kick kick_connection_or_reap
  kick-Kicks r c = elim (Option-cases (nonzero (parse_uint r.pid))) [
    | inr (pid, f) ↦
        let (p, ne) = nonzero_sound (parse_uint r.pid) pid f in rw (f, kick) (Kicks.of_player p ne)
    | inl f ↦ elim (Option-cases (nonzero (parse_uint32 r.rvcid))) [
      | inr (rv, g) ↦
          let (p, ne) = nonzero_sound (parse_uint32 r.rvcid) rv g in
          rw (f, kick, g, kick_connection_or_reap) (Kicks.of_connection f p ne)
      | inl g ↦ rw (f, kick, g, kick_connection_or_reap) (Kicks.of_idle f g)
    ]
  ]

  -- A request to throw out is refused and changes no connection, or its key is the token of the
  -- server, which is not empty; then it throws out the player of its query, or if there is none the connection
  -- of its query, or if there is none the idle connections.
  pub api_kick-Kicks :
      (token : Bytes) (r : KickRequest e) (c : e.Connections)
      → (api_kick e token r c ≡ (Reply.forbidden, c))
        ⊎ ((token ≢ []) × (r.key ≡ token) × Kicks r c (api_kick e token r c))
  unfolding api_kick
  api_kick-Kicks token r c = elim (Bool-cases (authed token r.key)) [
    | inr f ↦ inl (rw f refl)
    | inl f ↦
        let (full, same) = authed_sound token r.key f in inr (full, same, rw f (kick-Kicks r c))
  ]

  -- Without the token of the server, or on a server that has none, the statistics are refused, and
  -- reading them moves neither the peak nor the cache of names.
  pub api_stats-forbidden :
      (env : Env) (own : DashEnv) (token key : Bytes) (c : e.Connections) (d : Dash) (s : Server)
      → (token ≡ []) ⊎ (key ≢ token)
      → api_stats e env own token key c d s ≡ ((Reply.forbidden, d), s)
  unfolding api_stats
  api_stats-forbidden env own token key c d s h = elim (Bool-cases (authed token key)) [
    | inr f ↦ rw f refl
    | inl f ↦
        let (full, same) = authed_sound token key f in
        elim h [ inl x ↦ absurd (full x) | inr x ↦ absurd (x same) ]
  ]
