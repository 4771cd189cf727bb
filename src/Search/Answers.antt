-- ===== src/Search/Answers.antt =====
-- The handlers of GetPersistenceInfo, SearchObject and SearchBalloon of datastore.go.
use super_mario_odyssey.Prelude.{
  ℕ, true, false, Option, none, some, List, [], ◌∷◌, length, ◌==◌, if◌then◌else◌,
}
use super_mario_odyssey.Prelude.Map.{Map, values}
use super_mario_odyssey.Prelude.State.{State, ◌>>=◌, ◌>>◌}
use super_mario_odyssey.Nex.{Nex, Connection, Request}
use super_mario_odyssey.Balloon.{
  RatingInfo, BalloonRecord, NameCacheEntry, Server, Env, result_data_store_not_found,
}
use super_mario_odyssey.Wire.{
  Reader, Writer, writes, list_of, put_list, read_struct_header, struct_header_with,
  write_struct_header, checked, parse, on_params, body_of, refuse, answer,
}
use super_mario_odyssey.Ratings.{write_ratings}
use super_mario_odyssey.Objects.{found_by}
use super_mario_odyssey.Metas.{put_meta}
use super_mario_odyssey.Names.{disp_name}
use super_mario_odyssey.Search.{
  OwnerSnap, best_persistent, candidates, matches, no_owners, number_at, owner_snap, rating_snap,
  ratings_at, split_into_sets,
}

module _ ⦃nex : Nex⦄ where
  open nex use {
    StreamIn, u8, u16, u64, pid, put_u8, put_u16, put_u32, put_u64, put_pid, put_string,
    put_qbuffer, put_bool, put_date_time, write_list, StreamOut, new_stream_out, bytes, Message,
  }

  read_persistence : StreamIn → Reader (Option (ℕ × ℕ))
  read_persistence input = do owner ← pid input; slot ← u16 input; checked input (owner, slot)

  unfoldable pub persistence_info : ℕ → ℕ → ℕ → Writer
  persistence_info owner slot data_id =
      write_struct_header (writes (put_pid owner ∷ put_u16 slot ∷ put_u64 data_id ∷ []))

  -- GetPersistenceInfo after its parse
  unfoldable pub get_persistence_info : Env → Request → ℕ → ℕ → State Server Message
  get_persistence_info env req owner slot s =
      elim (best_persistent owner slot (values (env.visit 0 s.records))) [
        | none ↦ (refuse req result_data_store_not_found, s)
        | some best ↦ (answer req (body_of (persistence_info owner slot best.data_id)), s)
      ]

  unfoldable pub ds_get_persistence_info : Env → Connection → Request → State Server Message
  unfolding read_persistence
  ds_get_persistence_info env conn req s =
      on_params req (parse read_persistence req.body) s
        λ (owner, slot). get_persistence_info env req owner slot s

  read_search : StreamIn → Reader (Option ℕ)
  read_search outer = do
    input ← read_struct_header outer
    u8 input
    list_of ℕ input pid
    u8 input
    list_of ℕ input u64
    data_type ← u16 input
    checked input data_type

  unfoldable pub search_result : List BalloonRecord → Writer
  search_result rs = write_struct_header (
      writes (
        put_u32 (length rs)
        ∷ put_list rs (λ r. put_meta (record { r = r; include_meta_binary = true }))
        ∷ put_u8 1
        ∷ []))

  unfoldable pub ds_search_object : Env → Connection → Request → State Server Message
  unfolding read_search
  ds_search_object env conn req s = on_params req (parse read_search req.body) s λ data_type.
      (answer req (body_of (search_result (matches data_type (values (env.visit 0 s.records))))), s)

  read_search_balloon : StreamIn → Reader (Option (ℕ × ℕ))
  read_search_balloon outer = do
    input ← read_struct_header outer
    data_type ← u16 input
    u8 input
    result_set_count ← u8 input
    checked input (data_type, if result_set_count == 0 then 1 else result_set_count)

  -- DataStoreSearchBalloonResult; the name of the owner goes through the name cache
  put_balloon :
      Env
      → OwnerSnap
      → Map (Map RatingInfo)
      → BalloonRecord
      → StreamOut × Map NameCacheEntry
      → StreamOut × Map NameCacheEntry
  put_balloon env owners snap r = struct_header_with λ (out, cache).
      let out1 =
        writes
          (put_u64 r.data_id
            ∷ put_pid r.owner_id
            ∷ put_u32 r.size
            ∷ put_string r.name
            ∷ put_u16 r.data_type
            ∷ put_qbuffer r.meta_binary
            ∷ put_date_time r.created_at
            ∷ put_date_time r.updated_at
            ∷ put_u64 (number_at r.owner_id owners.stats)
            ∷ [])
          out in
      let (name, cache') = disp_name env r.owner_id cache in
      (
        writes
            (put_string name
              ∷ put_bool false
              ∷ write_ratings (ratings_at r.data_id snap)
              ∷ write_ratings (ratings_at r.owner_id owners.ratings)
              ∷ [])
            out1,
        cache',
      )

  -- the list of DataStoreSearchBalloonResultSet
  unfoldable pub put_balloon_sets :
      Env
      → OwnerSnap
      → Map (Map RatingInfo)
      → List (List BalloonRecord)
      → StreamOut × Map NameCacheEntry
      → StreamOut × Map NameCacheEntry
  unfolding put_balloon
  put_balloon_sets env owners snap sets =
      write_list (List BalloonRecord) (Map NameCacheEntry) sets λ set.
        struct_header_with
          (write_list BalloonRecord (Map NameCacheEntry) set (put_balloon env owners snap))

  -- SearchBalloon after its parse
  unfoldable pub search_balloon : Env → Connection → Request → ℕ → ℕ → State Server Message
  search_balloon env conn req data_type result_set_count s =
      let pool =
        candidates conn.client data_type (found_by conn.client s)
          (values (env.visit 0 s.records)) in
      let owners = owner_snap (values (env.visit 1 s.records)) no_owners in
      let (out, cache) =
        put_balloon_sets env owners (rating_snap pool []) (split_into_sets pool result_set_count)
          (new_stream_out, s.name_cache) in
      (answer req (bytes out), record s { name_cache = cache })

  unfoldable pub ds_search_balloon : Env → Connection → Request → State Server Message
  unfolding read_search_balloon
  ds_search_balloon env conn req s =
      on_params req (parse read_search_balloon req.body) s
        λ (data_type, result_set_count). search_balloon env conn req data_type result_set_count s
