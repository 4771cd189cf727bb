-- ===== src/Tests/Panels.antt =====
-- The theorems about the statistics and the pictures, at small inputs.
use super_mario_odyssey.Prelude.{
  some, none, ℕ, ◌≡◌, ◌⊎◌, ◌≢◌, List, [], ◌∷◌, map, take, keep, arith, All, ◌==◌, if◌then◌else◌,
}
use super_mario_odyssey.Nex.{Bytes}
use super_mario_odyssey.Dashboard.{Call, no_dash, event_of}
use super_mario_odyssey.Dashboard.Log.{HasNoted, note_all, is_counted, note_all-HasNoted}
use super_mario_odyssey.Dashboard.Stats.{DashEnv, api_event, build_stats}
use super_mario_odyssey.Dashboard.Players.{rows, build_stats-rows, build_stats-events}
use super_mario_odyssey.Dashboard.Http.{Endpoint, Reply, KickRequest, api_kick}
use super_mario_odyssey.Dashboard.Guards.{Kicks, api_kick-Kicks}
use super_mario_odyssey.Avatar.{AvatarEnv, Image, Colour, scale_into}
use super_mario_odyssey.Avatar.Boxes.{IsCover, boxes-IsCover}
use super_mario_odyssey.Avatar.Means.{HasColours, IsMean, scale_into-IsMean}
use super_mario_odyssey.Tests.World.{env, server}

abbrev search_call : ℕ → Call
search_call pid = record {
  pid = pid;
  remote_addr = "10.0.0.7";
  protocol = 0x73;
  method = 52;
  first_time = 1;
  last_time = 2;
  event_time = 3;
}

abbrev calls : List Call
calls = search_call 7 ∷ search_call 0 ∷ search_call 8 ∷ search_call 7 ∷ []

note_all-HasNoted_example : HasNoted (keep is_counted calls) (note_all calls)
note_all-HasNoted_example = note_all-HasNoted calls

abbrev own : DashEnv
own = record {
  access_key = "afef0ecf";
  nex_version = 40000;
  auth_port = 8453;
  secure_port = 60013;
  sni_host = "";
  dash_start = 0;
  server_time = "2026-01-01T00:00:00Z";
  visit_methods = λ m. m;
}

abbrev connected : List ℕ
connected = 7 ∷ 0 ∷ 8 ∷ 7 ∷ []

build_stats-rows_example : rows 7 (build_stats env own connected no_dash server).0.0.players ≡ 1
build_stats-rows_example = build_stats-rows env own connected no_dash server 7

build_stats-events_example :
    (build_stats env own connected (note_all calls) server).0.0.events
    ≡ map (api_event env.wall) (take 40 (map event_of (keep is_counted calls)))
build_stats-events_example = build_stats-events env own connected calls server

-- the connections as a list of ids; a kick says how many it met
abbrev ids : Endpoint
ids = record {
  Connections = List ℕ;
  Kicked = ℕ;
  Reaped = ℕ;
  pids = λ c. c;
  kick_pid = λ pid c. (1, keep (λ i. i == pid) c);
  kick_connection = λ rv c. (0, c);
  reap_idle = λ c. (0, c);
}

abbrev the_key : Bytes
the_key = b'k' ∷ []

abbrev kick_7 : KickRequest ids
kick_7 = record { key = the_key; pid = b'7' ∷ []; rvcid = [] }

api_kick-Kicks_example :
    (api_kick ids the_key kick_7 connected ≡ (Reply.forbidden, connected))
    ⊎ ((the_key ≢ [])
        × (kick_7.key ≡ the_key)
        × Kicks ids kick_7 connected (api_kick ids the_key kick_7 connected))
api_kick-Kicks_example = api_kick-Kicks ids the_key kick_7 connected

abbrev grey : ℕ → Colour
grey v = record { red = v; green = v; blue = v }

-- three pixels by two, black on the left and white elsewhere
abbrev picture : Image
picture = record {
  min_x = 0;
  min_y = 0;
  dx = 3;
  dy = 2;
  at = λ x y. if x == 0 then grey 0 else grey 65535;
}

picture-HasColours : HasColours (grey 0) (grey 65535) picture
picture-HasColours = record {
  inside = λ x y a b c d. record { red = ground arith; green = ground arith; blue = ground arith };
  bits = (omega arith, omega arith, omega arith);
}

scale_into-IsMean_example : All (IsMean (grey 0) (grey 65535)) (scale_into 2 2 picture)
scale_into-IsMean_example =
    scale_into-IsMean (grey 0) (grey 65535) picture picture-HasColours 2 2 (omega arith)
      (omega arith) (omega arith)

boxes-IsCover_example : IsCover 0 256 128
boxes-IsCover_example = boxes-IsCover 0 256 128 (omega arith) (omega arith)

-- a picture server that has no pictures, and an encoder that writes the side
abbrev pictures : AvatarEnv
pictures = record {
  now = 1000;
  ask_avatar = λ pid. none;
  encode_jpeg = λ size pixels. some (size ∷ []);
}

abbrev broken : AvatarEnv
broken = record pictures { now = 2000; encode_jpeg = λ size pixels. none }
