-- ===== src/Invariant/Handlers.antt =====
-- Every handler of the DataStore protocol keeps the invariant.
use super_mario_odyssey.Prelude.{
  ℕ, ◌+◌, ◌<◌, ◌≡◌, refl, true, false, inl, inr, Option-cases, Bool-cases, arith,
}
use super_mario_odyssey.Prelude.Map.{lookup}
use super_mario_odyssey.Nex.{Nex, Connection, Request}
use super_mario_odyssey.Balloon.{Server, Config, Env}
use super_mario_odyssey.Wire.{on_params_keeps}
use super_mario_odyssey.Ratings.{u64_mod}
use super_mario_odyssey.Objects.{new_object_token, object_upload_url, object_download_url_for}
use super_mario_odyssey.Metas.{get_meta, ds_get_meta, ds_get_metas}
use super_mario_odyssey.Posts.{
  prepare_post_object, ds_prepare_post_object, post_meta_binary, ds_post_meta_binary,
  ds_complete_post_object, prepare_get_object, ds_prepare_get_object, ds_delete_object,
}
use super_mario_odyssey.Rates.{ds_rate_object, get_rating, ds_get_rating, ds_rate_objects, paired}
use super_mario_odyssey.Buffers.{
  ds_add_to_buffer_queue, ds_add_to_buffer_queues, ds_get_buffer_queue, ds_get_buffer_queues,
  ds_clear_buffer_queues,
}
use super_mario_odyssey.Search.Answers.{
  get_persistence_info, ds_get_persistence_info, ds_search_object, search_balloon,
  ds_search_balloon,
}
use super_mario_odyssey.Infos.{ds_fetch_my_infos}
use super_mario_odyssey.DataStore.{Method, dispatch, data_store_handler, method_of}
use super_mario_odyssey.Invariant.{IsValid}
use super_mario_odyssey.Invariant.Operations.{
  same-IsValid, rate_record-IsValid, add_buffer-IsValid, complete_post-IsValid,
  delete_object-IsValid, ds_delete_previous_balloon-IsValid, post_record-IsValid,
}
use super_mario_odyssey.Invariant.Loops.{
  rate_all-IsValid, add_buffers-IsValid, clear_buffers-IsValid,
}

module _ ⦃nex : Nex⦄ (env : Env) (conn : Connection) (req : Request) (s : Server) where
  pub get_meta-same : (k option : ℕ) → (get_meta req k option s).1 ≡ s
  unfolding get_meta
  get_meta-same k option = ground arith

  pub get_rating-same : (k : ℕ) → (get_rating req k s).1 ≡ s
  unfolding get_rating
  get_rating-same k = ground arith

  pub get_persistence_info-same :
      (owner slot : ℕ) → (get_persistence_info env req owner slot s).1 ≡ s
  unfolding get_persistence_info
  get_persistence_info-same owner slot = ground arith

  module _ (v : IsValid s) where
    ds_get_meta-IsValid : IsValid (ds_get_meta conn req s).1
    unfolding ds_get_meta
    ds_get_meta-IsValid =
        on_params_keeps IsValid req _ s _ v λ (k, option). rw (get_meta-same k option) v

    ds_get_metas-IsValid : IsValid (ds_get_metas conn req s).1
    unfolding ds_get_metas
    ds_get_metas-IsValid = on_params_keeps IsValid req _ s _ v λ ids. v

    ds_get_rating-IsValid : IsValid (ds_get_rating conn req s).1
    unfolding ds_get_rating
    ds_get_rating-IsValid = on_params_keeps IsValid req _ s _ v λ k. rw (get_rating-same k) v

    ds_get_persistence_info-IsValid : IsValid (ds_get_persistence_info env conn req s).1
    unfolding ds_get_persistence_info
    ds_get_persistence_info-IsValid =
        on_params_keeps IsValid req _ s _ v
          λ (owner, slot). rw (get_persistence_info-same owner slot) v

    ds_search_object-IsValid : IsValid (ds_search_object env conn req s).1
    unfolding ds_search_object
    ds_search_object-IsValid = on_params_keeps IsValid req _ s _ v λ t. v

    ds_search_balloon-IsValid : IsValid (ds_search_balloon env conn req s).1
    unfolding ds_search_balloon search_balloon
    ds_search_balloon-IsValid =
        on_params_keeps IsValid req _ s _ v λ (t, n). same-IsValid s _ v refl refl refl refl

    ds_fetch_my_infos-IsValid : IsValid (ds_fetch_my_infos env conn req s).1
    unfolding ds_fetch_my_infos
    ds_fetch_my_infos-IsValid = on_params_keeps IsValid req _ s _ v λ ts. v

    ds_get_buffer_queue-IsValid : IsValid (ds_get_buffer_queue conn req s).1
    unfolding ds_get_buffer_queue
    ds_get_buffer_queue-IsValid = on_params_keeps IsValid req _ s _ v λ (k, slot). v

    ds_get_buffer_queues-IsValid : IsValid (ds_get_buffer_queues conn req s).1
    unfolding ds_get_buffer_queues
    ds_get_buffer_queues-IsValid = on_params_keeps IsValid req _ s _ v λ ps. v

    ds_add_to_buffer_queue-IsValid : IsValid (ds_add_to_buffer_queue conn req s).1
    unfolding ds_add_to_buffer_queue
    ds_add_to_buffer_queue-IsValid =
        on_params_keeps IsValid req _ s _ v λ (k, slot, buf). add_buffer-IsValid s k slot buf v

    ds_add_to_buffer_queues-IsValid : IsValid (ds_add_to_buffer_queues conn req s).1
    unfolding ds_add_to_buffer_queues
    ds_add_to_buffer_queues-IsValid =
        on_params_keeps IsValid req _ s _ v λ (ps, bufs). add_buffers-IsValid s ps bufs s.records v

    ds_clear_buffer_queues-IsValid : IsValid (ds_clear_buffer_queues conn req s).1
    unfolding ds_clear_buffer_queues
    ds_clear_buffer_queues-IsValid =
        on_params_keeps IsValid req _ s _ v λ ps. clear_buffers-IsValid s ps s.records v

    ds_rate_object-IsValid : IsValid (ds_rate_object conn req s).1
    unfolding ds_rate_object
    ds_rate_object-IsValid = on_params_keeps IsValid req _ s _ v λ (k, slot, value).
        same-IsValid _ _ (rate_record-IsValid s k slot value v) refl refl refl refl

    ds_rate_objects-IsValid : IsValid (ds_rate_objects conn req s).1
    unfolding ds_rate_objects
    ds_rate_objects-IsValid = on_params_keeps IsValid req _ s _ v λ (targets, params, fetch).
        same-IsValid _ _ (rate_all-IsValid s (paired targets params) s.records v) refl refl refl
          refl

    ds_complete_post_object-IsValid : IsValid (ds_complete_post_object conn req s).1
    unfolding ds_complete_post_object
    ds_complete_post_object-IsValid =
        on_params_keeps IsValid req _ s _ v λ (k, ok). complete_post-IsValid k ok s v

    ds_delete_object-IsValid : IsValid (ds_delete_object conn req s).1
    unfolding ds_delete_object
    ds_delete_object-IsValid = on_params_keeps IsValid req _ s _ v λ k. delete_object-IsValid k s v

    ds_prepare_get_object-IsValid :
        (config : Config) → IsValid (ds_prepare_get_object config env conn req s).1
    unfolding ds_prepare_get_object prepare_get_object object_download_url_for new_object_token
    ds_prepare_get_object-IsValid config = on_params_keeps IsValid req _ s _ v λ k.
        elim (Option-cases (lookup k s.records)) [
          | inl e ↦ rw (e, prepare_get_object) v
          | inr (r, e) ↦ elim (Bool-cases r.complete) [
            | inl c ↦ rw (e, prepare_get_object, c) (same-IsValid s _ v refl refl refl refl)
            | inr c ↦ rw (e, prepare_get_object, c) v
          ]
        ]

    module _ (room : s.next_id + 1 < u64_mod) where
      ds_prepare_post_object-IsValid :
          (config : Config) → IsValid (ds_prepare_post_object config env conn req s).1
      unfolding ds_prepare_post_object prepare_post_object object_upload_url new_object_token
      ds_prepare_post_object-IsValid config = on_params_keeps IsValid req _ s _ v λ p.
          same-IsValid _ _ (post_record-IsValid env conn.client p false s room v) refl refl refl
            refl

      ds_post_meta_binary-IsValid : IsValid (ds_post_meta_binary env conn req s).1
      unfolding ds_post_meta_binary post_meta_binary
      ds_post_meta_binary-IsValid = on_params_keeps IsValid req _ s _ v λ p.
          ds_delete_previous_balloon-IsValid env conn.client p.data_type _ _
            (post_record-IsValid env conn.client p true s room v)

module _ ⦃nex : Nex⦄ (config : Config) (env : Env) (conn : Connection) (req : Request) (s : Server)
    (room : s.next_id + 1 < u64_mod) (v : IsValid s) where
  dispatch-IsValid : (m : Method) → IsValid (dispatch config env conn req m s).1
  unfolding dispatch
  dispatch-IsValid Method.get_meta = ds_get_meta-IsValid env conn req s v
  dispatch-IsValid Method.get_metas = ds_get_metas-IsValid env conn req s v
  dispatch-IsValid Method.prepare_post_object =
      ds_prepare_post_object-IsValid env conn req s v room config
  dispatch-IsValid Method.complete_post_object = ds_complete_post_object-IsValid env conn req s v
  dispatch-IsValid Method.get_persistence_info = ds_get_persistence_info-IsValid env conn req s v
  dispatch-IsValid Method.prepare_get_object = ds_prepare_get_object-IsValid env conn req s v config
  dispatch-IsValid Method.delete_object = ds_delete_object-IsValid env conn req s v
  dispatch-IsValid Method.search_object = ds_search_object-IsValid env conn req s v
  dispatch-IsValid Method.rate_object = ds_rate_object-IsValid env conn req s v
  dispatch-IsValid Method.get_rating = ds_get_rating-IsValid env conn req s v
  dispatch-IsValid Method.rate_objects = ds_rate_objects-IsValid env conn req s v
  dispatch-IsValid Method.post_meta_binary = ds_post_meta_binary-IsValid env conn req s v room
  dispatch-IsValid Method.add_to_buffer_queue = ds_add_to_buffer_queue-IsValid env conn req s v
  dispatch-IsValid Method.add_to_buffer_queues = ds_add_to_buffer_queues-IsValid env conn req s v
  dispatch-IsValid Method.get_buffer_queue = ds_get_buffer_queue-IsValid env conn req s v
  dispatch-IsValid Method.get_buffer_queues = ds_get_buffer_queues-IsValid env conn req s v
  dispatch-IsValid Method.clear_buffer_queues = ds_clear_buffer_queues-IsValid env conn req s v
  dispatch-IsValid Method.search_balloon = ds_search_balloon-IsValid env conn req s v
  dispatch-IsValid Method.fetch_my_infos = ds_fetch_my_infos-IsValid env conn req s v
  dispatch-IsValid Method.unhandled = v

  -- A request of any method of the protocol, parsed or not, answered or refused, leads from a valid
  -- server, whose counter of ids has room for one more, to a valid server.
  pub data_store_handler-IsValid : IsValid (data_store_handler config env conn req s).1
  unfolding data_store_handler
  data_store_handler-IsValid = dispatch-IsValid (method_of req.method)
