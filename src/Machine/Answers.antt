-- ===== src/Machine/Answers.antt =====
-- The answers with which PreparePostObject and PrepareGetObject hand out a token, field by field as
-- the client reads them: DataStoreReqPostInfo and DataStoreReqGetInfo.
use super_mario_odyssey.Prelude.{ℕ, ◌+◌, ◌<◌, ◌≡◌, ap, refl, String, false, true, some, [], ◌∷◌}
use super_mario_odyssey.Prelude.Map.{lookup}
use super_mario_odyssey.Prelude.Text.{hex_encode}
use super_mario_odyssey.Nex.{Nex, Connection, Request}
use super_mario_odyssey.Balloon.{BalloonRecord, Server, Config, Env}
use super_mario_odyssey.Wire.{Writer, put_list, write_struct_header}
use super_mario_odyssey.Ratings.{u64_mod}
use super_mario_odyssey.Objects.{
  object_url, object_upload_url, object_download_url_for, new_object_token,
}
use super_mario_odyssey.Posts.{
  PostParam, post_info, get_info, put_header, prepare_post_object, prepare_get_object,
}
use super_mario_odyssey.Invariant.{IsValid}
use super_mario_odyssey.Invariant.Operations.{post_record_lem, post_record-IsValid, same-IsValid}

module _ ⦃nex : Nex⦄ where
  open nex use {
    StreamOut, new_stream_out, bytes, put_u32, put_u64, put_string, put_buffer, Message,
    rmc_success,
  }

  abbrev header_fields : String × String → Writer
  header_fields kv out = put_string kv.1 (put_string kv.0 out)

  -- the one HTTP header that the client is to send with the transfer
  abbrev with_token : String → StreamOut → StreamOut
  with_token token = put_list (("X-Object-Token", token) ∷ []) header_fields

  abbrev success : Request → Writer → Message
  success req fields =
      rmc_success 115 req.method req.call_id (bytes (write_struct_header fields new_stream_out))

  -- the id, the URL, the header with the token, no form fields, no root certificate
  abbrev pub told_post : Config → Request → ℕ → String → Message
  told_post config req k token = success req λ out. put_buffer [] (
      put_list {A = String × String} [] (λ kv o. o)
        (with_token token (put_string (object_url config k) (put_u64 k out))))

  -- the URL, the header with the token, the size, no root certificate, the id
  abbrev pub told_get : Config → Request → ℕ → ℕ → String → Message
  told_get config req k size token = success req λ out.
      put_u64 k
        (put_buffer [] (put_u32 size (with_token token (put_string (object_url config k) out))))

  module _ (config : Config) (env : Env) (conn : Connection) (req : Request) where
    pub prepare_post_object-tells :
        (p : PostParam) (s : Server)
        → s.next_id + 1 < u64_mod
        → (prepare_post_object config env conn req p s).0
          ≡ told_post config req s.next_id (hex_encode env.random)
    unfolding prepare_post_object object_upload_url new_object_token post_info put_header
    prepare_post_object-tells p s room =
        ap (λ (x : ℕ × Server). told_post config req x.0 (hex_encode env.random))
          (post_record_lem env conn.client p false s room)

    pub prepare_get_object-tells :
        (k : ℕ) (r : BalloonRecord) (s : Server)
        → lookup k s.records ≡ some r
        → r.complete ≡ true
        → (prepare_get_object config env conn req k s).0
          ≡ told_get config req k r.size (hex_encode env.random)
    unfolding prepare_get_object object_download_url_for new_object_token get_info put_header
    prepare_get_object-tells k r s e c = rw (e, prepare_get_object, c) refl

    pub prepare_post_object-IsValid :
        (p : PostParam) (s : Server)
        → s.next_id + 1 < u64_mod
        → IsValid s
        → IsValid (prepare_post_object config env conn req p s).1
    unfolding prepare_post_object object_upload_url new_object_token
    prepare_post_object-IsValid p s room v =
        same-IsValid _ _ (post_record-IsValid env conn.client p false s room v) refl refl refl refl

    pub prepare_get_object-IsValid :
        (k : ℕ) (r : BalloonRecord) (s : Server)
        → lookup k s.records ≡ some r
        → r.complete ≡ true
        → IsValid s
        → IsValid (prepare_get_object config env conn req k s).1
    unfolding prepare_get_object object_download_url_for new_object_token
    prepare_get_object-IsValid k r s e c v =
        rw (e, prepare_get_object, c) (same-IsValid s _ v refl refl refl refl)
