-- ===== src/Balloon.antt =====
-- The data of datastore.go, objectstore.go and dashboard.go: balloon records, their ratings, the
-- global variables as one record, and what a request takes from its surroundings.
-- Integers are numbers below 2 ^ width; an int64 or an int8 is its two's complement bit pattern.
use super_mario_odyssey.Prelude.{ℕ, Bool, false, Option, none, String, List, []}
use super_mario_odyssey.Prelude.Map.{Map}
use super_mario_odyssey.Nex.{Bytes}

pub record RatingInfo : Type 0 where
  pub total : ℕ
  pub count : ℕ
  pub initial : ℕ

abbrev pub zero_rating : RatingInfo
zero_rating = record { total = 0; count = 0; initial = 0 }

pub record BalloonRecord : Type 0 where
  pub data_id : ℕ
  pub owner_id : ℕ
  pub size : ℕ
  pub name : String
  pub data_type : ℕ
  pub meta_binary : Bytes
  pub tags : List String
  pub created_at : ℕ
  pub updated_at : ℕ
  -- a time.Time, in nanoseconds since 1970
  pub created_wall : ℕ
  pub complete : Bool
  pub buffers : Map (List Bytes)
  pub rating_sum : ℕ
  pub rating_n : ℕ
  pub ratings : Map RatingInfo
  pub slot : Option ℕ

-- &balloonRecord{}
abbrev pub zero_record : BalloonRecord
zero_record = record {
  data_id = 0;
  owner_id = 0;
  size = 0;
  name = "";
  data_type = 0;
  meta_binary = [];
  tags = [];
  created_at = 0;
  updated_at = 0;
  created_wall = 0;
  complete = false;
  buffers = [];
  rating_sum = 0;
  rating_n = 0;
  ratings = [];
  slot = none;
}

-- a balloonRecord without its buffers
pub record PersistedRecord : Type 0 where
  pub data_id : ℕ
  pub owner_id : ℕ
  pub size : ℕ
  pub name : String
  pub data_type : ℕ
  pub meta_binary : Bytes
  pub tags : List String
  pub created_at : ℕ
  pub updated_at : ℕ
  pub created_wall_unix : ℕ
  pub complete : Bool
  pub rating_sum : ℕ
  pub rating_n : ℕ
  pub ratings : Map RatingInfo
  pub slot : Option ℕ

pub record ObjectToken : Type 0 where
  pub data_id : ℕ
  pub requester_id : ℕ
  pub upload : Bool
  pub expires : ℕ

pub record NameCacheEntry : Type 0 where
  pub name : String
  pub at : ℕ

-- The global variables. `blobs` holds the files of the blob directory by data id, `saved` the
-- records that the file of the store holds, if it is there and well formed.
pub record Server : Type 0 where
  pub records : Map BalloonRecord
  pub next_id : ℕ
  pub dirty : Bool
  pub saved : Option (List PersistedRecord)
  pub found : Map (Map Bool)
  pub tokens : List (String × ObjectToken)
  pub blobs : Map Bytes
  pub name_cache : Map NameCacheEntry

-- the variables read from the environment once
pub record Config : Type 0 where
  pub nextendo_host : String
  pub object_port : ℕ

-- What one request takes from its surroundings: the clock (one reading for a request, as a wire
-- DateTime and in nanoseconds), the random bytes, the order in which each of its loops over the
-- records meets them, and the name that the account server gives a player, if it answers.
pub record Env : Type 0 where
  pub date_time : ℕ
  pub wall : ℕ
  pub random : Bytes
  pub visit : ℕ → Map BalloonRecord → Map BalloonRecord
  pub account_name : ℕ → Option String

abbrev pub smo_achievement_data_type : ℕ
smo_achievement_data_type = 200

abbrev pub protocol_data_store : ℕ
protocol_data_store = 0x73

abbrev pub result_data_store_not_found : ℕ
result_data_store_not_found = 0x80690004
