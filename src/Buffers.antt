-- ===== src/Buffers.antt =====
-- The buffer queues of datastore.go: AddToBufferQueue(s), GetBufferQueue(s), ClearBufferQueues.
pub mod Queues
use super_mario_odyssey.Prelude.{
  ℕ, ◌%◌, ◌||◌, Option, none, some, List, [], ◌∷◌, ◌++◌, if◌then◌else◌,
}
use super_mario_odyssey.Prelude.Map.{Map, lookup, insert, erase}
use super_mario_odyssey.Prelude.State.{State, pure, ◌>>=◌}
use super_mario_odyssey.Nex.{Bytes, Nex, Connection, Request}
use super_mario_odyssey.Balloon.{BalloonRecord, Server, result_data_store_not_found}
use super_mario_odyssey.Wire.{
  Reader, writes, list_of, put_list, read_struct_header, checked, parse, on_params, body_of, answer,
}

-- int8(v) of a uint32, as a bit pattern
abbrev pub to_int8 : ℕ → ℕ
to_int8 v = v % 256

-- r.Buffers[slot], empty where the slot is missing
unfoldable pub buffers_at : ℕ → BalloonRecord → List Bytes
buffers_at slot r = elim (lookup slot r.buffers) [ none ↦ [] | some bs ↦ bs ]

unfoldable pub push_buffer : ℕ → Bytes → BalloonRecord → BalloonRecord
push_buffer slot buf r = record r {
  buffers = insert slot (buffers_at slot r ++ buf ∷ []) r.buffers;
}

unfoldable pub add_buffer : ℕ → ℕ → Bytes → Map BalloonRecord → Map BalloonRecord
add_buffer data_id slot buf m = elim (lookup data_id m) [
  | none ↦ m
  | some r ↦ insert data_id (push_buffer slot buf r) m
]

-- a missing record has no buffers
unfoldable pub queue_of : ℕ → ℕ → Map BalloonRecord → List Bytes
queue_of data_id slot m = elim (lookup data_id m) [ none ↦ [] | some r ↦ buffers_at slot r ]

pub record BufferQueueParam : Type 0 where
  pub data_id : ℕ
  pub slot : ℕ

module _ ⦃nex : Nex⦄ where
  open nex use {
    StreamIn, u32, u64, qbuffer, failed, put_u32, put_qbuffer, Message, success_result,
    error_result,
  }

  -- the loop of AddToBufferQueues: a param beyond the last buffer is answered as not found
  unfoldable pub add_buffers :
      List BufferQueueParam → List Bytes → State (Map BalloonRecord) (List ℕ)
  add_buffers [] bufs m = ([], m)
  add_buffers (p ∷ ps) [] m =
      let (results, m') = add_buffers ps [] m in
      (error_result result_data_store_not_found ∷ results, m')
  add_buffers (p ∷ ps) (b ∷ bufs) m = elim (lookup p.data_id m) [
    | none ↦
        let (results, m') = add_buffers ps bufs m in
        (error_result result_data_store_not_found ∷ results, m')
    | some r ↦
        let (results, m') =
          add_buffers ps bufs (insert p.data_id (push_buffer (to_int8 p.slot) b r) m) in
        (success_result 0 ∷ results, m')
  ]

  unfoldable pub get_buffers :
      List BufferQueueParam → Map BalloonRecord → List (List Bytes) × List ℕ
  get_buffers [] m = ([], [])
  get_buffers (p ∷ ps) m =
      let (lists, results) = get_buffers ps m in
      elim (lookup p.data_id m) [
        | none ↦ ([] ∷ lists, error_result result_data_store_not_found ∷ results)
        | some r ↦ (buffers_at (to_int8 p.slot) r ∷ lists, success_result 0 ∷ results)
      ]

  unfoldable pub clear_buffers : List BufferQueueParam → State (Map BalloonRecord) (List ℕ)
  clear_buffers [] m = ([], m)
  clear_buffers (p ∷ ps) m = elim (lookup p.data_id m) [
    | none ↦
        let (results, m') = clear_buffers ps m in
        (error_result result_data_store_not_found ∷ results, m')
    | some r ↦
        let r' = record r { buffers = erase (to_int8 p.slot) r.buffers } in
        let (results, m') = clear_buffers ps (insert p.data_id r' m) in
        (success_result 0 ∷ results, m')
  ]

  read_queue_param : StreamIn → Reader BufferQueueParam
  read_queue_param input = do
    p ← read_struct_header input
    data_id ← u64 p
    slot ← u32 p
    pure (record { data_id = data_id; slot = slot })

  read_add : StreamIn → Reader (Option (ℕ × ℕ × Bytes))
  read_add outer = do
    input ← read_struct_header outer
    data_id ← u64 input
    slot ← u32 input
    buf ← qbuffer outer
    bad ← failed input
    bad_outer ← failed outer
    pure (if bad || bad_outer then none else some (data_id, to_int8 slot, buf))

  unfoldable pub ds_add_to_buffer_queue : Connection → Request → State Server Message
  unfolding read_add
  ds_add_to_buffer_queue conn req s =
      on_params req (parse read_add req.body) s λ (data_id, slot, buf).
        (answer req [], record s { records = add_buffer data_id slot buf s.records })

  read_adds : StreamIn → Reader (Option (List BufferQueueParam × List Bytes))
  unfolding read_queue_param
  read_adds input = do
    params ← list_of BufferQueueParam input read_queue_param
    buffers ← list_of Bytes input qbuffer
    checked input (params, buffers)

  unfoldable pub ds_add_to_buffer_queues : Connection → Request → State Server Message
  unfolding read_adds
  ds_add_to_buffer_queues conn req s = on_params req (parse read_adds req.body) s λ (params, bufs).
      let (results, m) = add_buffers params bufs s.records in
      (answer req (body_of (put_list results put_u32)), record s { records = m })

  read_get : StreamIn → Reader (Option (ℕ × ℕ))
  read_get outer = do
    input ← read_struct_header outer
    data_id ← u64 input
    slot ← u32 input
    checked input (data_id, to_int8 slot)

  unfoldable pub ds_get_buffer_queue : Connection → Request → State Server Message
  unfolding read_get queue_of
  ds_get_buffer_queue conn req s = on_params req (parse read_get req.body) s λ (data_id, slot).
      (answer req (body_of (put_list (queue_of data_id slot s.records) put_qbuffer)), s)

  read_params : StreamIn → Reader (Option (List BufferQueueParam))
  unfolding read_queue_param
  read_params input = do
    params ← list_of BufferQueueParam input read_queue_param
    checked input params

  unfoldable pub ds_get_buffer_queues : Connection → Request → State Server Message
  unfolding read_params
  ds_get_buffer_queues conn req s = on_params req (parse read_params req.body) s λ params.
      let (lists, results) = get_buffers params s.records in
      (
        answer req (
            body_of (
              writes (
                put_list lists (λ bufs. put_list bufs put_qbuffer)
                ∷ put_list results put_u32
                ∷ []))),
        s,
      )

  unfoldable pub ds_clear_buffer_queues : Connection → Request → State Server Message
  unfolding read_params
  ds_clear_buffer_queues conn req s = on_params req (parse read_params req.body) s λ params.
      let (results, m) = clear_buffers params s.records in
      (answer req (body_of (put_list results put_u32)), record s { records = m })
