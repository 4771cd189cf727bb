-- ===== src/Metas.antt =====
-- GetMeta and GetMetas of datastore.go.
use Prim.Native.Nat.{bit_and}
use super_mario_odyssey.Prelude.{
  ℕ, Bool, true, not, Option, none, some, List, [], ◌∷◌, ◌==◌, if◌then◌else◌,
}
use super_mario_odyssey.Prelude.Map.{Map, lookup}
use super_mario_odyssey.Prelude.State.{State, ◌>>=◌, ◌>>◌}
use super_mario_odyssey.Nex.{Nex, Connection, Request}
use super_mario_odyssey.Balloon.{BalloonRecord, zero_record, Server, result_data_store_not_found}
use super_mario_odyssey.Wire.{
  Reader, Writer, writes, list_of, put_list, read_struct_header, write_permission, checked, parse,
  on_params, body_of, refuse, answer,
}

-- DataStoreGetMetaParam.resultOption, the bit that asks for the meta binary
abbrev pub result_option_meta_binary : ℕ
result_option_meta_binary = 0x4

pub record MetaInfo : Type 0 where
  pub r : BalloonRecord
  pub include_meta_binary : Bool

module _ ⦃nex : Nex⦄ where
  open nex use {
    StreamIn, u8, u64, put_u8, put_u16, put_u32, put_u64, put_pid, put_string, put_qbuffer,
    put_date_time, add, Message, success_result, error_result,
  }

  unfoldable pub meta_info_levels : BalloonRecord → Bool → List Writer
  meta_info_levels r include_meta_binary =
      writes (
        put_u64 r.data_id
        ∷ put_pid r.owner_id
        ∷ put_u32 r.size
        ∷ put_string r.name
        ∷ put_u16 r.data_type
        ∷ (if include_meta_binary then put_qbuffer r.meta_binary else writes [])
        ∷ write_permission
        ∷ write_permission
        ∷ put_date_time r.created_at
        ∷ put_date_time r.updated_at
        ∷ put_u16 0
        ∷ put_u8 0
        ∷ put_u32 0
        ∷ put_u32 0
        ∷ put_u32 0
        ∷ put_date_time 0
        ∷ put_date_time 0
        ∷ put_list r.tags put_string
        ∷ put_list {A = ℕ} [] (λ _. writes [])
        ∷ [])
      ∷ []

  unfoldable pub put_meta : MetaInfo → Writer
  put_meta m = add (meta_info_levels m.r m.include_meta_binary)

  read_get_meta : StreamIn → Reader (Option (ℕ × ℕ))
  read_get_meta outer = do
    input ← read_struct_header outer
    data_id ← u64 input
    read_struct_header input
    result_option ← u8 input
    checked input (data_id, result_option)

  -- GetMeta after its parse
  unfoldable pub get_meta : Request → ℕ → ℕ → State Server Message
  get_meta req data_id result_option s = elim (lookup data_id s.records) [
    | none ↦ (refuse req result_data_store_not_found, s)
    | some r ↦ (
      answer req (
          body_of (
            put_meta (record {
              r = r;
              include_meta_binary = not (bit_and result_option result_option_meta_binary == 0);
            }))),
      s,
    )
  ]

  unfoldable pub ds_get_meta : Connection → Request → State Server Message
  unfolding read_get_meta
  ds_get_meta conn req s =
      on_params req (parse read_get_meta req.body) s
        λ (data_id, result_option). get_meta req data_id result_option s

  read_get_metas : StreamIn → Reader (Option (List ℕ))
  read_get_metas input = do
    ids ← list_of ℕ input (λ i. (do p ← read_struct_header i; u64 p))
    checked input ids

  -- one entry of each of the two lists for each id, in the order of the ids
  unfoldable pub collect_metas : List ℕ → Map BalloonRecord → List MetaInfo × List ℕ
  collect_metas [] m = ([], [])
  collect_metas (id ∷ ids) m =
      let (metas, results) = collect_metas ids m in
      elim (lookup id m) [
        | none ↦ (
          record { r = zero_record; include_meta_binary = true } ∷ metas,
          error_result result_data_store_not_found ∷ results,
        )
        | some r ↦
            (record { r = r; include_meta_binary = true } ∷ metas, success_result 0 ∷ results)
      ]

  unfoldable pub ds_get_metas : Connection → Request → State Server Message
  unfolding read_get_metas collect_metas
  ds_get_metas conn req s = on_params req (parse read_get_metas req.body) s λ ids.
      let (metas, results) = collect_metas ids s.records in
      (answer req (body_of (writes (put_list metas put_meta ∷ put_list results put_u32 ∷ []))), s)
