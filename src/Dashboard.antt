-- ===== src/Dashboard.antt =====
-- dashboard.go: the counters that every request on the secure server moves, and the names of the
-- requests. Counters of 64 bits are bit patterns; times are in nanoseconds.
pub mod Stats
pub mod Log
pub mod Balloons
pub mod Players
pub mod Http
pub mod Guards
pub mod OnRmc
use super_mario_odyssey.Prelude.{
  ℕ, ◌+◌, ◌-◌, ◌%◌, ◌^◌, String, Option, none, some, List, [], ◌∷◌, ◌++◌, ltb, ◌==◌, if◌then◌else◌,
  length, drop,
}
use super_mario_odyssey.Prelude.Map.{Map, lookup, insert}
use super_mario_odyssey.Ratings.{u64_mod}
use super_mario_odyssey.Prelude.Text.{
  TextMap, lookup_text, insert_text, text_eq, join, decimal, upper_hex,
}

pub record PlayerInfo : Type 0 where
  pub pid : ℕ
  pub first_seen : ℕ
  pub last_seen : ℕ
  pub ip : String
  pub calls : ℕ
  pub last_proto : ℕ
  pub last_method : ℕ

pub record RmcEvent : Type 0 where
  pub t : ℕ
  pub pid : ℕ
  pub proto : ℕ
  pub method : ℕ

-- the global variables of the file, but for the cache of names
pub record Dash : Type 0 where
  pub player_meta : Map PlayerInfo
  pub sessions_seen : ℕ
  pub peak_connected : ℕ
  pub rmc_total : ℕ
  pub events : List RmcEvent
  pub method_count : TextMap ℕ

abbrev pub no_dash : Dash
no_dash = record {
  player_meta = [];
  sessions_seen = 0;
  peak_connected = 0;
  rmc_total = 0;
  events = [];
  method_count = [];
}

-- a request as the counters see it, with the readings of the clock: the first contact of its
-- player, if this is one, the last, and the event
pub record Call : Type 0 where
  pub pid : ℕ
  pub remote_addr : String
  pub protocol : ℕ
  pub method : ℕ
  pub first_time : ℕ
  pub last_time : ℕ
  pub event_time : ℕ

-- an entry of a map that is a literal; the empty text for a missing key
abbrev pub text_at : ℕ → Map String → String
text_at k m = elim (lookup k m) [ none ↦ "" | some name ↦ name ]

abbrev pub or_text : String → String → String
or_text name other = if text_eq name "" then other else name

abbrev pub protocol_names : Map String
protocol_names =
    (0x0a, "TicketGranting")
    ∷ (0x0b, "SecureConnection")
    ∷ (0x6e, "Utility")
    ∷ (0x70, "Ranking")
    ∷ (0x73, "DataStore")
    ∷ []

abbrev pub method_names : Map (Map String)
method_names =
    (0x0a, (1, "Login") ∷ (2, "LoginEx") ∷ (3, "RequestTicket") ∷ [])
    ∷ (0x0b, (1, "Register") ∷ (4, "RegisterEx") ∷ (7, "ReplaceURL") ∷ [])
    ∷ (0x6e, (1, "AcquireNexUniqueID") ∷ (7, "GetIntegerSettings") ∷ (8, "GetStringSettings") ∷ [])
    ∷ (0x70, (1, "UploadScore") ∷ (4, "UploadCommonData") ∷ (6, "GetCommonData") ∷ [])
    ∷ (
      0x73,
      (4, "DeleteObject")
          ∷ (8, "GetMeta")
          ∷ (9, "GetMetas")
          ∷ (12, "SearchObject")
          ∷ (15, "RateObject")
          ∷ (16, "GetRating")
          ∷ (24, "PreparePostObject")
          ∷ (25, "PrepareGetObject")
          ∷ (26, "CompletePostObject")
          ∷ (47, "AddToBufferQueue")
          ∷ (48, "AddToBufferQueues")
          ∷ (49, "GetBufferQueue")
          ∷ (50, "GetBufferQueues")
          ∷ (51, "ClearBufferQueues")
          ∷ (52, "SearchBalloon")
          ∷ (53, "FetchMyInfos")
          ∷ [],
    )
    ∷ []

unfoldable pub rmc_name : ℕ → ℕ → String
rmc_name proto method =
    let pn = or_text (text_at proto protocol_names) (join ("Proto-0x" ∷ upper_hex proto ∷ [])) in
    let known : String = elim (lookup proto method_names) [
      | none ↦ ""
      | some names ↦ text_at method names
    ] in
    join (pn ∷ "::" ∷ or_text known (join ("m" ∷ decimal method ∷ [])) ∷ [])

-- `pi := playerMeta[pid]`, or a new one
abbrev pub info_of : Call → Option PlayerInfo → PlayerInfo
info_of c none = record {
  pid = c.pid;
  first_seen = c.first_time;
  last_seen = 0;
  ip = "";
  calls = 0;
  last_proto = 0;
  last_method = 0;
}
info_of c (some pi) = pi

abbrev pub touched : Call → PlayerInfo → PlayerInfo
touched c pi = record pi {
  last_seen = c.last_time;
  calls = (pi.calls + 1) % u64_mod;
  last_proto = c.protocol;
  last_method = c.method;
  ip = if text_eq c.remote_addr "" then pi.ip else c.remote_addr;
}

abbrev pub event_of : Call → RmcEvent
event_of c = record { t = c.event_time; pid = c.pid; proto = c.protocol; method = c.method }

unfoldable pub add_event : Call → List RmcEvent → List RmcEvent
add_event c events =
    let all = events ++ event_of c ∷ [] in
    if ltb 100 (length all) then drop (length all - 100) all else all

abbrev pub or_zero : Option ℕ → ℕ
or_zero none = 0
or_zero (some n) = n

abbrev pub count_at : String → TextMap ℕ → ℕ
count_at name m = or_zero (lookup_text name m)

unfoldable pub count_method : Call → TextMap ℕ → TextMap ℕ
count_method c m =
    let name = rmc_name c.protocol c.method in insert_text name ((count_at name m + 1) % u64_mod) m

-- sessionsSeen++ for a player without an entry
abbrev pub count_session : Option PlayerInfo → ℕ → ℕ
count_session none n = (n + 1) % u64_mod
count_session (some pi) n = n

unfoldable pub note_rmc : Call → Dash → Dash
unfolding add_event count_method
note_rmc c d =
    let known = lookup c.pid d.player_meta in
    if c.pid == 0 then d else record d {
      rmc_total = (d.rmc_total + 1) % u64_mod;
      player_meta = insert c.pid (touched c (info_of c known)) d.player_meta;
      sessions_seen = count_session known d.sessions_seen;
      events = add_event c d.events;
      method_count = count_method c d.method_count;
    }
