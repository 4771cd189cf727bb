-- ===== src/Dashboard/Http.antt =====
-- dashboard.go, startDashboard: who may read the statistics and throw players out. The connections of
-- the endpoint, and what it says of a kick, are those of nextendo-nex. A request carries the values
-- of its query, the empty text for one that is missing.
use super_mario_odyssey.Prelude.{
  ℕ, ◌^◌, Bool, true, false, ◌&&◌, Option, none, some, List, [], ◌∷◌, ltb, ◌==◌, if◌then◌else◌,
}
use super_mario_odyssey.Prelude.State.{State}
use super_mario_odyssey.Nex.{Bytes}
use super_mario_odyssey.Balloon.{Server, Env}
use super_mario_odyssey.Strings.{bytes_eq, parse_uint}
use super_mario_odyssey.Dashboard.{Dash}
use super_mario_odyssey.Dashboard.Stats.{ApiStats, DashEnv, build_stats}

pub record Endpoint : Type 1 where
  pub Connections : Type 0
  pub Kicked : Type 0
  pub Reaped : Type 0
  pub pids : Connections → List ℕ
  pub kick_pid : ℕ → State Connections Kicked
  pub kick_connection : ℕ → State Connections Kicked
  pub reap_idle : State Connections Reaped

abbrev pub is_some_text : Bytes → Bool
is_some_text [] = false
is_some_text (c ∷ s) = true

-- the key of the query against DASH_TOKEN
unfoldable pub authed : Bytes → Bytes → Bool
authed token key = is_some_text token && bytes_eq key token

-- strconv.ParseUint in base 10, on 32 bits
abbrev pub parse_uint32 : Bytes → Option ℕ
parse_uint32 s = elim (parse_uint s) [
  | none ↦ none
  | some n ↦ if ltb n (2 ^ 32) then some n else none
]

-- a parsed number, if it is not 0
abbrev pub nonzero : Option ℕ → Option ℕ
nonzero none = none
nonzero (some n) = if n == 0 then none else some n

module _ (e : Endpoint) where
  -- the answers: an error with the status 403, or a JSON text of these fields
  pub data Reply : Type 0 where
    forbidden : Reply
    stats : ApiStats → Reply
    kicked_player : ℕ → e.Kicked → Reply
    kicked_connection : ℕ → e.Kicked → Reply
    reaped : e.Reaped → Reply

  pub record KickRequest : Type 0 where
    pub key : Bytes
    pub pid : Bytes
    pub rvcid : Bytes

  unfoldable pub kick_connection_or_reap : Option ℕ → State e.Connections Reply
  kick_connection_or_reap none c = let (n, c') = e.reap_idle c in (reaped n, c')
  kick_connection_or_reap (some rv) c =
      let (n, c') = e.kick_connection rv c in (kicked_connection rv n, c')

  unfoldable pub kick : Option ℕ → Bytes → State e.Connections Reply
  unfolding kick_connection_or_reap
  kick none rvcid c = kick_connection_or_reap (nonzero (parse_uint32 rvcid)) c
  kick (some pid) rvcid c = let (n, c') = e.kick_pid pid c in (kicked_player pid n, c')

  -- /api/kick
  unfoldable pub api_kick : Bytes → KickRequest → State e.Connections Reply
  unfolding authed kick
  api_kick token r c =
      if authed token r.key then kick (nonzero (parse_uint r.pid)) r.rvcid c else (forbidden, c)

  -- /api/stats
  unfoldable pub api_stats :
      Env → DashEnv → Bytes → Bytes → e.Connections → Dash → State Server (Reply × Dash)
  unfolding authed build_stats
  api_stats env own token key c d s =
      let ((report, d'), s') = build_stats env own (e.pids c) d s in
      if authed token key then ((stats report, d'), s') else ((forbidden, d), s)
