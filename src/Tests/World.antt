-- ===== src/Tests/World.antt =====
-- A small world for the witnesses: one environment, and a server with one balloon.
use mathlib.Core.List.Permᴰ
use super_mario_odyssey.Prelude.{ℕ, refl, true, false, none, [], ◌∷◌, arith}
use super_mario_odyssey.Prelude.Map.{lookup}
use super_mario_odyssey.Nex.{Bytes, Connection, Request}
use super_mario_odyssey.Balloon.{BalloonRecord, zero_record, Server, Config, Env}
use super_mario_odyssey.Posts.{PostParam}
use super_mario_odyssey.Invariant.{IsValid, Visits}

abbrev pub config : Config
config = record { nextendo_host = "localhost"; object_port = 8459 }

abbrev pub env : Env
env = record {
  date_time = 100;
  wall = 5_000_000_000;
  random = 1 ∷ 2 ∷ [];
  visit = λ i m. m;
  account_name = λ pid. none;
}

pub env-Visits : Visits env
env-Visits = record { once = λ i m. Permᴰ.refl m }

abbrev pub placer : Connection
placer = record { client = 7; remote_addr = "10.0.0.7" }

abbrev pub finder : Connection
finder = record { client = 8; remote_addr = "10.0.0.8" }

abbrev pub request : ℕ → Bytes → Request
request method body = record { protocol = 0x73; method = method; call_id = 1; body = body }

abbrev pub cascade : PostParam
cascade = record {
  size = 3;
  name = "cap";
  data_type = 13;
  meta_binary = 9 ∷ [];
  tags = [];
  ratings = [];
  slot = none;
}

abbrev pub balloon : BalloonRecord
balloon = record zero_record {
  data_id = 1;
  owner_id = 7;
  size = 3;
  name = "cap";
  data_type = 13;
  meta_binary = 9 ∷ [];
  created_at = 50;
  updated_at = 50;
  complete = true;
}

abbrev pub server : Server
server = record {
  records = (1, balloon) ∷ [];
  next_id = 2;
  dirty = false;
  saved = none;
  found = [];
  tokens = [];
  blobs = (1, 1 ∷ 2 ∷ 3 ∷ []) ∷ [];
  name_cache = [];
}

pub server-IsValid : IsValid server
unfolding lookup
server-IsValid = record {
  saved_fits = tt;
  distinct = (refl, tt);
  keyed = λ k r h. ground arith;
  below = λ k r h. ground arith;
  found_below = λ pid k h. cc;
  foreign = λ pid k r f h. cc;
}
