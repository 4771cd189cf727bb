-- ===== src/Infos.antt =====
-- FetchMyInfos of datastore.go, with achievementPayload.
pub mod Achievement
pub mod Mine
pub mod Owners
use super_mario_odyssey.Prelude.{
  ℕ, Bool, true, false, not, ◌&&◌, ◌||◌, Option, none, some, List, [], ◌∷◌, keep, ◌==◌,
  if◌then◌else◌,
}
use super_mario_odyssey.Prelude.Map.{Map, values}
use super_mario_odyssey.Prelude.Sort.{sort_slice}
use super_mario_odyssey.Prelude.State.{State, pure, ◌>>=◌, ◌>>◌}
use super_mario_odyssey.Nex.{Bytes, Nex, Connection, Request}
use super_mario_odyssey.Balloon.{RatingInfo, BalloonRecord, Server, Env, smo_achievement_data_type}
use super_mario_odyssey.Wire.{
  Reader, Writer, writes, list_of, put_list, read_struct_header, write_struct_header, checked,
  parse, on_params, body_of, refuse, answer,
}
use super_mario_odyssey.Ratings.{ratings_of, write_ratings}
use super_mario_odyssey.Objects.{found_by, flag}
use super_mario_odyssey.Search.{newer, newest, ratings_at, rating_snap}

unfoldable pub has_type : List ℕ → ℕ → Bool
has_type [] t = false
has_type (dt ∷ dts) t = dt == t || has_type dts t

-- wantType: no filter means every type
unfoldable pub want_type : List ℕ → ℕ → Bool
unfolding has_type
want_type [] t = true
want_type (dt ∷ dts) t = has_type (dt ∷ dts) t

-- the records that the loop appends to `mine`
abbrev pub is_mine : ℕ → List ℕ → BalloonRecord → Bool
is_mine client types r =
    if not r.complete || not (r.owner_id == client)
    then false
    else if r.data_type == smo_achievement_data_type
    then false
    else want_type types r.data_type

-- the records that it takes for the achievement record
abbrev pub is_achievement : ℕ → BalloonRecord → Bool
is_achievement client r =
    r.complete && (r.owner_id == client && r.data_type == smo_achievement_data_type)

unfoldable pub my_balloons : ℕ → List ℕ → List BalloonRecord → List BalloonRecord
my_balloons client types rs = sort_slice newer (keep (is_mine client types) rs)

-- the achievement of the loop
unfoldable pub my_achievement : ℕ → List BalloonRecord → Option BalloonRecord
my_achievement client = newest (is_achievement client) none

unfoldable pub achievement_payload : Option BalloonRecord → Bytes × ℕ
achievement_payload none = ([], 0)
achievement_payload (some r) = (r.meta_binary, r.created_at)

-- the id and the type that are echoed
unfoldable pub achievement_ids : Option BalloonRecord → ℕ × ℕ
achievement_ids none = (0, 0)
achievement_ids (some r) = (r.data_id, r.data_type)

-- isCleared of one balloon, as it is sent
unfoldable pub is_cleared : ℕ → Server → BalloonRecord → Bool
is_cleared client s r = flag r.data_id (found_by client s)

module _ ⦃nex : Nex⦄ where
  open nex use {
    StreamIn, u16, put_u16, put_u64, put_qbuffer, put_bool, put_s8, put_date_time, write_map,
    Message,
  }

  read_fetch : StreamIn → Reader (Option (List ℕ))
  read_fetch outer = do
    input ← read_struct_header outer
    types ← list_of ℕ input u16
    u16 input
    checked input types

  no_buffers : Writer
  no_buffers = write_map (List Bytes) [] put_s8 (λ v. put_list v put_qbuffer)

  my_info : ℕ → Server → Map (Map RatingInfo) → BalloonRecord → Writer
  unfolding no_buffers
  my_info client s snap r = write_struct_header (
      writes (
        put_u64 r.data_id
        ∷ put_u16 r.data_type
        ∷ put_qbuffer r.meta_binary
        ∷ put_date_time r.created_at
        ∷ put_date_time r.updated_at
        ∷ put_bool (is_cleared client s r)
        ∷ write_ratings (ratings_at r.data_id snap)
        ∷ no_buffers
        ∷ []))

  my_achievement_info : Env → Option BalloonRecord → Writer
  unfolding no_buffers
  my_achievement_info env achievement =
      let (data_id, data_type) = achievement_ids achievement in
      let (metadata, _) = achievement_payload achievement in
      write_struct_header (
        writes (
          put_u64 data_id
          ∷ put_u16 data_type
          ∷ put_qbuffer metadata
          ∷ put_date_time env.date_time
          ∷ write_ratings (ratings_of achievement)
          ∷ no_buffers
          ∷ []))

  unfoldable pub my_infos : Env → ℕ → Server → List BalloonRecord → Option BalloonRecord → Writer
  unfolding my_info my_achievement_info
  my_infos env client s mine achievement = write_struct_header (
      writes (
        put_list mine (my_info client s (rating_snap mine []))
        ∷ my_achievement_info env achievement
        ∷ []))

  unfoldable pub ds_fetch_my_infos : Env → Connection → Request → State Server Message
  unfolding read_fetch
  ds_fetch_my_infos env conn req s = on_params req (parse read_fetch req.body) s λ types.
      let rs = values (env.visit 0 s.records) in
      (
        answer req (
            body_of (
              my_infos env conn.client s (my_balloons conn.client types rs)
                (my_achievement conn.client rs))),
        s,
      )
