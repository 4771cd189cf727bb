-- ===== src/Posts.antt =====
-- Posting, completing, fetching and deleting an object: datastore.go.
pub mod Replace
use super_mario_odyssey.Prelude.{
  ℕ, ◌+◌, ◌-◌, ◌%◌, Bool, true, false, not, ◌&&◌, ◌||◌, String, Option, none, some, List, [], ◌∷◌,
  ◌==◌, if◌then◌else◌,
}
use super_mario_odyssey.Prelude.Map.{Map, lookup, insert, erase}
use super_mario_odyssey.Prelude.State.{State, pure, ◌>>=◌, ◌>>◌}
use super_mario_odyssey.Nex.{Bytes, Nex, Connection, Request}
use super_mario_odyssey.Balloon.{
  RatingInfo, BalloonRecord, Server, Config, Env, result_data_store_not_found,
}
use super_mario_odyssey.Wire.{
  Reader, Writer, writes, list_of, put_list, read_struct_header, write_struct_header,
  read_permission, checked, parse, on_params, body_of, refuse, answer,
}
use super_mario_odyssey.Ratings.{u64_mod, read_rating_init_params, read_persistence_slot}
use super_mario_odyssey.Objects.{object_upload_url, object_download_url_for, object_delete}

-- what PreparePostObject and PostMetaBinary read
pub record PostParam : Type 0 where
  pub size : ℕ
  pub name : String
  pub data_type : ℕ
  pub meta_binary : Bytes
  pub tags : List String
  pub ratings : Map RatingInfo
  pub slot : Option ℕ

abbrev pub mark_dirty : Server → Server
mark_dirty s = record s { dirty = true }

-- dsNextID.Add(1) - 1, on 64 bits
unfoldable pub take_data_id : State Server ℕ
take_data_id s =
    let next = (s.next_id + 1) % u64_mod in
    ((next + u64_mod - 1) % u64_mod, record s { next_id = next })

unfoldable pub new_record : Env → ℕ → ℕ → PostParam → Bool → BalloonRecord
new_record env data_id owner p complete = record {
  data_id = data_id;
  owner_id = owner;
  size = p.size;
  name = p.name;
  data_type = p.data_type;
  meta_binary = p.meta_binary;
  tags = p.tags;
  created_at = env.date_time;
  updated_at = env.date_time;
  created_wall = env.wall;
  complete = complete;
  buffers = [];
  rating_sum = 0;
  rating_n = 0;
  ratings = p.ratings;
  slot = p.slot;
}

-- the record enters the store under a new id
unfoldable pub post_record : Env → ℕ → PostParam → Bool → State Server ℕ
post_record env owner p complete s =
    let (data_id, s') = take_data_id s in
    (
      data_id,
      record s' {
        records = insert data_id (new_record env data_id owner p complete) s'.records;
        dirty = true;
      },
    )

-- the test of the loop of dsDeletePreviousBalloon
abbrev pub is_previous : ℕ → ℕ → ℕ → ℕ → BalloonRecord → Bool
is_previous owner data_type keep_id id r =
    not (id == keep_id) && (r.owner_id == owner && (r.data_type == data_type && r.complete))

-- the first match of the loop, in the order in which it meets the records
unfoldable pub find_previous : ℕ → ℕ → ℕ → Map BalloonRecord → Option ℕ
find_previous owner data_type keep_id [] = none
find_previous owner data_type keep_id ((id, r) ∷ rest) =
    if is_previous owner data_type keep_id id r
    then some id
    else find_previous owner data_type keep_id rest

-- After a deletion of the id 0 the code behaves as if there had been none.
unfoldable pub delete_found : Option ℕ → State Server ℕ
delete_found none s = (0, s)
delete_found (some old) s =
    let s' = record s { records = erase old s.records } in
    (old, if old == 0 then s' else object_delete old (mark_dirty s'))

unfoldable pub ds_delete_previous_balloon : Env → ℕ → ℕ → ℕ → State Server ℕ
ds_delete_previous_balloon env owner data_type keep_id s =
    delete_found (find_previous owner data_type keep_id (env.visit 0 s.records)) s

unfoldable pub complete_post : ℕ → Bool → Server → Server
complete_post data_id is_success s = elim (lookup data_id s.records) [
  | none ↦ mark_dirty s
  | some r ↦
      if is_success
      then mark_dirty
          (record s { records = insert data_id (record r { complete = true }) s.records })
      else mark_dirty (record s { records = erase data_id s.records })
]

unfoldable pub delete_object : ℕ → Server → Server
delete_object data_id s =
    object_delete data_id (mark_dirty (record s { records = erase data_id s.records }))

module _ ⦃nex : Nex⦄ where
  open nex use {
    StreamIn, u16, u32, u64, bool, string, qbuffer, failed, put_u32, put_u64, put_string,
    put_buffer, Message,
  }

  post_param_tail :
      StreamIn → ℕ → String → ℕ → Bytes → List String → Bool → Reader (Option PostParam)
  post_param_tail input size name data_type meta_binary tags true = pure none
  post_param_tail input size name data_type meta_binary tags false = do
    ratings ← read_rating_init_params input
    slot ← read_persistence_slot input
    pure (
        some (record {
          size = size;
          name = name;
          data_type = data_type;
          meta_binary = meta_binary;
          tags = tags;
          ratings = ratings;
          slot = slot;
        }))

  -- DataStorePreparePostParam: the check comes before the ratings and the slot are read
  unfoldable pub read_post_param : StreamIn → Reader (Option PostParam)
  unfolding post_param_tail
  read_post_param outer = do
    input ← read_struct_header outer
    size ← u32 input
    name ← string input
    data_type ← u16 input
    meta_binary ← qbuffer input
    read_permission input
    read_permission input
    u32 input
    u16 input
    u32 input
    tags ← list_of String input string
    bad ← failed input
    post_param_tail input size name data_type meta_binary tags bad

  unfoldable pub put_header : String × String → Writer
  put_header kv = writes (put_string kv.0 ∷ put_string kv.1 ∷ [])

  -- DataStoreReqPostInfo
  unfoldable pub post_info : ℕ → String → String → Writer
  unfolding put_header
  post_info data_id url token = write_struct_header (
      writes (
        put_u64 data_id
        ∷ put_string url
        ∷ put_list (("X-Object-Token", token) ∷ []) put_header
        ∷ put_list {A = String × String} [] (λ _. writes [])
        ∷ put_buffer []
        ∷ []))

  -- DataStoreReqGetInfo
  unfoldable pub get_info : String → String → ℕ → ℕ → Writer
  unfolding put_header
  get_info url token size data_id = write_struct_header (
      writes (
        put_string url
        ∷ put_list (("X-Object-Token", token) ∷ []) put_header
        ∷ put_u32 size
        ∷ put_buffer []
        ∷ put_u64 data_id
        ∷ []))

  -- PreparePostObject after its parse
  unfoldable pub prepare_post_object :
      Config → Env → Connection → Request → PostParam → State Server Message
  prepare_post_object config env conn req p s =
      let (data_id, s') = post_record env conn.client p false s in
      let ((url, token), s'') = object_upload_url config env data_id s' in
      (answer req (body_of (post_info data_id url token)), s'')

  unfoldable pub ds_prepare_post_object : Config → Env → Connection → Request → State Server Message
  ds_prepare_post_object config env conn req s =
      on_params req (parse read_post_param req.body) s
        λ p. prepare_post_object config env conn req p s

  -- PostMetaBinary after its parse
  unfoldable pub post_meta_binary : Env → Connection → Request → PostParam → State Server Message
  post_meta_binary env conn req p s =
      let (data_id, s') = post_record env conn.client p true s in
      let (replaced, s'') = ds_delete_previous_balloon env conn.client p.data_type data_id s' in
      (answer req (body_of (put_u64 data_id)), s'')

  unfoldable pub ds_post_meta_binary : Env → Connection → Request → State Server Message
  ds_post_meta_binary env conn req s =
      on_params req (parse read_post_param req.body) s λ p. post_meta_binary env conn req p s

  read_complete : StreamIn → Reader (Option (ℕ × Bool))
  read_complete outer = do
    input ← read_struct_header outer
    data_id ← u64 input
    is_success ← bool input
    checked input (data_id, is_success)

  unfoldable pub ds_complete_post_object : Connection → Request → State Server Message
  unfolding read_complete
  ds_complete_post_object conn req s =
      on_params req (parse read_complete req.body) s
        λ (data_id, is_success). (answer req [], complete_post data_id is_success s)

  read_get_object : StreamIn → Reader (Option ℕ)
  read_get_object outer = do
    input ← read_struct_header outer
    data_id ← u64 input
    checked input data_id

  -- PrepareGetObject after its parse
  unfoldable pub prepare_get_object : Config → Env → Connection → Request → ℕ → State Server Message
  prepare_get_object config env conn req data_id s = elim (lookup data_id s.records) [
    | none ↦ (refuse req result_data_store_not_found, s)
    | some r ↦
        if not r.complete
        then (refuse req result_data_store_not_found, s)
        else (let ((url, token), s') = object_download_url_for config env data_id conn.client s in
            (answer req (body_of (get_info url token r.size data_id)), s'))
  ]

  unfoldable pub ds_prepare_get_object : Config → Env → Connection → Request → State Server Message
  unfolding read_get_object
  ds_prepare_get_object config env conn req s =
      on_params req (parse read_get_object req.body) s
        λ data_id. prepare_get_object config env conn req data_id s

  read_delete : StreamIn → Reader (Option ℕ)
  read_delete outer = do
    input ← read_struct_header outer
    data_id ← u64 input
    u64 input
    checked input data_id

  unfoldable pub ds_delete_object : Connection → Request → State Server Message
  unfolding read_delete
  ds_delete_object conn req s =
      on_params req (parse read_delete req.body) s
        λ data_id. (answer req [], delete_object data_id s)
