-- ===== src/Dashboard/Stats.antt =====
-- dashboard.go, buildStats. A duration in whole seconds is cut towards 0; a time that was never set is
-- so far back that its distance is the longest duration of 63 bits.
use mathlib.Core.List.{reverse}
use super_mario_odyssey.Prelude.{
  ℕ, ◌-◌, ◌/◌, ◌%◌, ◌^◌, Bool, true, false, ◌||◌, String, Option, none, some, List, [], ◌∷◌, map,
  ltb, leb, ◌+◌, ◌==◌, if◌then◌else◌, length, take, keep,
}
use super_mario_odyssey.Prelude.Map.{Map, lookup, insert, values}
use super_mario_odyssey.Prelude.Sort.{sort_slice}
use super_mario_odyssey.Prelude.State.{State}
use super_mario_odyssey.Prelude.Text.{TextMap, join, decimal}
use super_mario_odyssey.Balloon.{BalloonRecord, NameCacheEntry, Server, Env}
use super_mario_odyssey.Ratings.{u64_mod}
use super_mario_odyssey.Names.{disp_name}
use super_mario_odyssey.Dashboard.{Dash, PlayerInfo, RmcEvent, rmc_name}

pub record ApiPlayer : Type 0 where
  pub pid : ℕ
  pub name : String
  pub ip : String
  pub state : String
  pub gathering : ℕ
  pub online_secs : ℕ
  pub calls : ℕ
  pub last_action : String
  pub idle_secs : ℕ

pub record ApiEvent : Type 0 where
  pub ago : ℕ
  pub pid : ℕ
  pub action : String

pub record ApiMethod : Type 0 where
  pub name : String
  pub count : ℕ

pub record ApiServer : Type 0 where
  pub access_key : String
  pub nex_version : String
  pub auth_port : String
  pub secure_port : ℕ
  pub sni_host : String
  pub session_key : ℕ
  pub stack : String

pub record ApiBalloon : Type 0 where
  pub data_id : ℕ
  pub owner_pid : ℕ
  pub name : String
  pub data_type : ℕ
  pub age_secs : ℕ
  pub rating_sum : ℕ
  pub rating_n : ℕ

-- an empty struct; the list of them is always empty
pub data ApiGathering : Type 0 where
  gathering : ApiGathering

pub record ApiStats : Type 0 where
  pub server_time : String
  pub uptime_seconds : ℕ
  pub connected : ℕ
  pub in_lobby : ℕ
  pub active_lobbies : ℕ
  pub total_sessions : ℕ
  pub total_rmc : ℕ
  pub total_balloons : ℕ
  pub peak_connected : ℕ
  pub server : ApiServer
  pub players : List ApiPlayer
  pub gatherings : List ApiGathering
  pub balloons : List ApiBalloon
  pub events : List ApiEvent
  pub methods : List ApiMethod

-- what the statistics take from the start of the program, and from their surroundings beside `Env`:
-- the time as a text, and the order in which the loop over the methods meets them
pub record DashEnv : Type 0 where
  pub access_key : String
  pub nex_version : ℕ
  pub auth_port : ℕ
  pub secure_port : ℕ
  pub sni_host : String
  pub dash_start : ℕ
  pub server_time : String
  pub visit_methods : TextMap ℕ → TextMap ℕ

abbrev pub session_key_len : ℕ
session_key_len = 32

unfoldable pub nex_version_string : ℕ → String
nex_version_string v =
    join (decimal (v / 10000) ∷ "." ∷ decimal (v / 100 % 100) ∷ "." ∷ decimal (v % 100) ∷ [])

-- the longest duration, 2 ^ 63 - 1 nanoseconds
abbrev pub longest : ℕ
longest = (2 ^ 63 - 1) / 1_000_000_000

-- now.Sub stops at the longest duration
abbrev pub whole_seconds : ℕ → ℕ
whole_seconds d = let n = d / 1_000_000_000 in if ltb longest n then longest else n

-- int(now.Sub(t).Seconds()), towards 0, as a bit pattern of 64 bits: negative for a time after `now`
abbrev pub seconds : ℕ → ℕ → ℕ
seconds now t =
    if leb t now then whole_seconds (now - t) else (u64_mod - whole_seconds (t - now)) % u64_mod

-- a bit pattern of 64 bits moved so that the order of the numbers is that of the signed integers
abbrev pub signed : ℕ → ℕ
signed n = (n + 2 ^ 63) % u64_mod

abbrev pub api_player : ℕ → ℕ → String → Option PlayerInfo → ApiPlayer
api_player now pid name none = record {
  pid = pid;
  name = name;
  ip = "";
  state = "Online";
  gathering = 0;
  online_secs = longest;
  calls = 0;
  last_action = rmc_name 0 0;
  idle_secs = longest;
}
api_player now pid name (some m) = record {
  pid = pid;
  name = name;
  ip = m.ip;
  state = "Online";
  gathering = 0;
  online_secs = seconds now m.first_seen;
  calls = m.calls;
  last_action = rmc_name m.last_proto m.last_method;
  idle_secs = seconds now m.last_seen;
}

abbrev pub or_false : Option Bool → Bool
or_false none = false
or_false (some b) = b

abbrev pub is_seen : ℕ → Map Bool → Bool
is_seen pid seen = or_false (lookup pid seen)

-- the loop over the ids of the connections
unfoldable pub players_loop :
    Env → Map PlayerInfo → List ℕ → Map Bool → State (Map NameCacheEntry) (List ApiPlayer)
players_loop env snap [] seen cache = ([], cache)
players_loop env snap (pid ∷ conns) seen cache = elim (pid == 0 || is_seen pid seen) [
  | true ↦ players_loop env snap conns seen cache
  | false ↦
      let (name, named) = disp_name env pid cache in
      let (rest, left) = players_loop env snap conns (insert pid true seen) named in
      (api_player env.wall pid name (lookup pid snap) ∷ rest, left)
]

abbrev pub longer_online : ApiPlayer → ApiPlayer → Bool
longer_online a b = ltb (signed b.online_secs) (signed a.online_secs)

abbrev pub api_event : ℕ → RmcEvent → ApiEvent
api_event now e = record { ago = seconds now e.t; pid = e.pid; action = rmc_name e.proto e.method }

-- from the last event back, at most 40
unfoldable pub api_events : ℕ → List RmcEvent → List ApiEvent
api_events now events = map (api_event now) (take 40 (reverse events))

abbrev pub more_counted : ApiMethod → ApiMethod → Bool
more_counted a b = ltb b.count a.count

unfoldable pub api_methods : TextMap ℕ → List ApiMethod
api_methods m = sort_slice more_counted (map (λ e. record { name = e.0; count = e.1 }) m)

abbrev pub api_balloon : ℕ → BalloonRecord → ApiBalloon
api_balloon now r = record {
  data_id = r.data_id;
  owner_pid = r.owner_id;
  name = r.name;
  data_type = r.data_type;
  age_secs = seconds now r.created_wall;
  rating_sum = r.rating_sum;
  rating_n = r.rating_n;
}

abbrev pub newer_id : ApiBalloon → ApiBalloon → Bool
newer_id a b = ltb b.data_id a.data_id

unfoldable pub all_balloons : ℕ → List BalloonRecord → List ApiBalloon
all_balloons now rs = sort_slice newer_id (map (api_balloon now) (keep (λ r. r.complete) rs))

-- `balloons[:40]`, where there are more
unfoldable pub api_balloons : ℕ → List BalloonRecord → List ApiBalloon
unfolding all_balloons
api_balloons now rs =
    let balloons = all_balloons now rs in
    if ltb 40 (length balloons) then take 40 balloons else balloons

abbrev pub peak_of : ℕ → List ℕ → ℕ
peak_of peak conns = if ltb peak (length conns) then length conns else peak

-- buildStats, with the ids of the connections of the endpoint: it moves the peak and the cache of names
unfoldable pub build_stats : Env → DashEnv → List ℕ → Dash → State Server (ApiStats × Dash)
unfolding players_loop api_events api_methods api_balloons nex_version_string
build_stats env own conns d s =
    let peak = peak_of d.peak_connected conns in
    let (players, names) = players_loop env d.player_meta conns [] s.name_cache in
    (
      (
        record {
          server_time = own.server_time;
          uptime_seconds = seconds env.wall own.dash_start;
          connected = length players;
          in_lobby = 0;
          active_lobbies = 0;
          total_sessions = d.sessions_seen;
          total_rmc = d.rmc_total;
          total_balloons = length s.records;
          peak_connected = peak;
          server = record {
            access_key = own.access_key;
            nex_version = nex_version_string own.nex_version;
            auth_port = decimal own.auth_port;
            secure_port = own.secure_port;
            sni_host = own.sni_host;
            session_key = session_key_len;
            stack = "npln-smo";
          };
          players = sort_slice longer_online players;
          gatherings = [];
          balloons = api_balloons env.wall (values (env.visit 0 s.records));
          events = api_events env.wall d.events;
          methods = api_methods (own.visit_methods d.method_count);
        },
        record d { peak_connected = peak },
      ),
      record s { name_cache = names },
    )
