-- ===== src/Persist.antt =====
-- dsLoad and dsFlusher of datastore.go: the store is written to a file and read back at the start.
-- The JSON text between the two is not modelled: the file holds the list of records.
pub mod Restart
use super_mario_odyssey.Prelude.{
  ℕ, ◌+◌, ◌*◌, ◌/◌, ◌%◌, false, Option, none, some, List, [], ◌∷◌, map, leb, ◌==◌, if◌then◌else◌,
}
use super_mario_odyssey.Prelude.Map.{insert, values}
use super_mario_odyssey.Balloon.{BalloonRecord, PersistedRecord, Server, Env}
use super_mario_odyssey.Ratings.{u64_mod}

-- nanoseconds in a second
abbrev pub second : ℕ
second = 1_000_000_000

unfoldable pub to_persisted : BalloonRecord → PersistedRecord
to_persisted r = record {
  data_id = r.data_id;
  owner_id = r.owner_id;
  size = r.size;
  name = r.name;
  data_type = r.data_type;
  meta_binary = r.meta_binary;
  tags = r.tags;
  created_at = r.created_at;
  updated_at = r.updated_at;
  created_wall_unix = r.created_wall / second;
  complete = r.complete;
  rating_sum = r.rating_sum;
  rating_n = r.rating_n;
  ratings = r.ratings;
  slot = r.slot;
}

unfoldable pub from_persisted : ℕ → PersistedRecord → BalloonRecord
from_persisted now r = record {
  data_id = r.data_id;
  owner_id = r.owner_id;
  size = r.size;
  name = r.name;
  data_type = r.data_type;
  meta_binary = r.meta_binary;
  tags = r.tags;
  created_at = r.created_at;
  updated_at = r.updated_at;
  created_wall = if r.created_wall_unix == 0 then now else r.created_wall_unix * second;
  complete = r.complete;
  buffers = [];
  rating_sum = r.rating_sum;
  rating_n = r.rating_n;
  ratings = r.ratings;
  slot = r.slot;
}

-- one round of the loop of dsLoad
unfoldable pub load_record : ℕ → PersistedRecord → Server → Server
load_record now p s = record s {
  records = insert p.data_id (from_persisted now p) s.records;
  next_id = if leb s.next_id p.data_id then (p.data_id + 1) % u64_mod else s.next_id;
}

unfoldable pub load_records : ℕ → List PersistedRecord → Server → Server
unfolding load_record
load_records now [] s = s
load_records now (p ∷ ps) s = load_records now ps (load_record now p s)

unfoldable pub ds_load : Env → Server → Server
ds_load env s = elim s.saved [ none ↦ s | some recs ↦ load_records env.wall recs s ]

-- What os.WriteFile leaves: the whole text, the file as it was (it could not be opened), or a text
-- that was cut off and is no list any more.
pub data FileWrite : Type 0 where
  whole untouched cut_off : FileWrite

abbrev pub file_after :
    FileWrite → List PersistedRecord → Option (List PersistedRecord) → Option (List PersistedRecord)
file_after FileWrite.whole recs old = some recs
file_after FileWrite.untouched recs old = old
file_after FileWrite.cut_off recs old = none

-- one round of the loop of dsFlusher
unfoldable pub ds_flush : Env → FileWrite → Server → Server
ds_flush env result s =
    if s.dirty
    then (let recs = map to_persisted (values (env.visit 0 s.records)) in
        record s { dirty = false; saved = file_after result recs s.saved })
    else s

-- The variables at the start of the program, beside the file and the blobs that it finds.
unfoldable pub boot : Server → Server
boot s = record {
  records = [];
  next_id = 1;
  dirty = false;
  saved = s.saved;
  found = [];
  tokens = [];
  blobs = s.blobs;
  name_cache = [];
}
