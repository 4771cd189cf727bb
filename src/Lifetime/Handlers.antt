-- ===== src/Lifetime/Handlers.antt =====
-- Every handler of the DataStore protocol moves ids on.
use super_mario_odyssey.Prelude.{◌+◌, ◌<◌, refl, true, false, inl, inr, Option-cases, Bool-cases}
use super_mario_odyssey.Prelude.Map.{lookup}
use super_mario_odyssey.Nex.{Nex, Connection, Request}
use super_mario_odyssey.Balloon.{Server, Config, Env}
use super_mario_odyssey.Wire.{on_params_keeps}
use super_mario_odyssey.Ratings.{u64_mod}
use super_mario_odyssey.Objects.{new_object_token, object_upload_url, object_download_url_for}
use super_mario_odyssey.Metas.{ds_get_meta, ds_get_metas}
use super_mario_odyssey.Posts.{
  prepare_post_object, ds_prepare_post_object, post_meta_binary, ds_post_meta_binary,
  ds_complete_post_object, prepare_get_object, ds_prepare_get_object, ds_delete_object,
}
use super_mario_odyssey.Rates.{ds_rate_object, ds_get_rating, ds_rate_objects, paired}
use super_mario_odyssey.Buffers.{
  ds_add_to_buffer_queue, ds_add_to_buffer_queues, ds_get_buffer_queue, ds_get_buffer_queues,
  ds_clear_buffer_queues,
}
use super_mario_odyssey.Search.Answers.{
  ds_get_persistence_info, ds_search_object, search_balloon, ds_search_balloon,
}
use super_mario_odyssey.Infos.{ds_fetch_my_infos}
use super_mario_odyssey.DataStore.{Method, dispatch, data_store_handler, method_of}
use super_mario_odyssey.Invariant.{IsValid}
use super_mario_odyssey.Invariant.Operations.{post_record-IsValid}
use super_mario_odyssey.Invariant.Handlers.{
  get_meta-same, get_rating-same, get_persistence_info-same,
}
use super_mario_odyssey.Lifetime.{Follows, Follows-refl, Follows-trans}
use super_mario_odyssey.Lifetime.Operations.{
  same-Follows, rate_record-Follows, add_buffer-Follows, complete_post-Follows,
  delete_object-Follows, ds_delete_previous_balloon-Follows, post_record-Follows,
}
use super_mario_odyssey.Lifetime.Loops.{
  rate_all-Follows, add_buffers-Follows, clear_buffers-Follows,
}

module _ ⦃nex : Nex⦄ (config : Config) (env : Env) (conn : Connection) (req : Request) (s : Server)
    (v : IsValid s) where
  abbrev stay : Follows s s
  stay = Follows-refl s

  ds_prepare_get_object-Follows : Follows s (ds_prepare_get_object config env conn req s).1
  unfolding ds_prepare_get_object prepare_get_object object_download_url_for new_object_token
  ds_prepare_get_object-Follows = on_params_keeps (Follows s) req _ s _ stay λ k.
      elim (Option-cases (lookup k s.records)) [
        | inl e ↦ rw (e, prepare_get_object) stay
        | inr (r, e) ↦ elim (Bool-cases r.complete) [
          | inl c ↦ rw (e, prepare_get_object, c) (same-Follows s _ refl refl refl)
          | inr c ↦ rw (e, prepare_get_object, c) stay
        ]
      ]

  -- requests that read
  get_meta_family : Follows s (ds_get_meta conn req s).1
  unfolding ds_get_meta
  get_meta_family =
      on_params_keeps (Follows s) req _ s _ stay
        λ (k, option). rw (get_meta-same env conn req s k option) stay

  dispatch-Follows :
      (m : Method) → s.next_id + 1 < u64_mod → Follows s (dispatch config env conn req m s).1
  unfolding dispatch ds_get_metas ds_get_rating ds_get_persistence_info ds_search_object
      ds_search_balloon search_balloon ds_fetch_my_infos ds_get_buffer_queue ds_get_buffer_queues
      ds_add_to_buffer_queue ds_add_to_buffer_queues ds_clear_buffer_queues ds_rate_object
      ds_rate_objects ds_complete_post_object ds_delete_object ds_prepare_post_object
      prepare_post_object object_upload_url new_object_token ds_post_meta_binary post_meta_binary
  dispatch-Follows Method.get_meta room = get_meta_family
  dispatch-Follows Method.get_metas room = on_params_keeps (Follows s) req _ s _ stay λ ids. stay
  dispatch-Follows Method.prepare_post_object room = on_params_keeps (Follows s) req _ s _ stay λ p.
      Follows-trans (post_record-Follows env conn.client p false s room v)
        (same-Follows _ _ refl refl refl)
  dispatch-Follows Method.complete_post_object room =
      on_params_keeps (Follows s) req _ s _ stay λ (k, ok). complete_post-Follows k ok s v
  dispatch-Follows Method.get_persistence_info room =
      on_params_keeps (Follows s) req _ s _ stay
        λ (owner, slot). rw (get_persistence_info-same env conn req s owner slot) stay
  dispatch-Follows Method.prepare_get_object room = ds_prepare_get_object-Follows
  dispatch-Follows Method.delete_object room =
      on_params_keeps (Follows s) req _ s _ stay λ k. delete_object-Follows k s v
  dispatch-Follows Method.search_object room = on_params_keeps (Follows s) req _ s _ stay λ t. stay
  dispatch-Follows Method.rate_object room =
      on_params_keeps (Follows s) req _ s _ stay λ (k, slot, value).
        Follows-trans (rate_record-Follows s k slot value) (same-Follows _ _ refl refl refl)
  dispatch-Follows Method.get_rating room =
      on_params_keeps (Follows s) req _ s _ stay λ k. rw (get_rating-same env conn req s k) stay
  dispatch-Follows Method.rate_objects room =
      on_params_keeps (Follows s) req _ s _ stay λ (targets, params, fetch).
        Follows-trans (rate_all-Follows s (paired targets params) s.records)
          (same-Follows _ _ refl refl refl)
  dispatch-Follows Method.post_meta_binary room = on_params_keeps (Follows s) req _ s _ stay λ p.
      Follows-trans (post_record-Follows env conn.client p true s room v) (
        ds_delete_previous_balloon-Follows env conn.client p.data_type _ _
          (post_record-IsValid env conn.client p true s room v))
  dispatch-Follows Method.add_to_buffer_queue room =
      on_params_keeps (Follows s) req _ s _ stay λ (k, slot, buf). add_buffer-Follows s k slot buf
  dispatch-Follows Method.add_to_buffer_queues room =
      on_params_keeps (Follows s) req _ s _ stay
        λ (ps, bufs). add_buffers-Follows s ps bufs s.records
  dispatch-Follows Method.get_buffer_queue room =
      on_params_keeps (Follows s) req _ s _ stay λ (k, slot). stay
  dispatch-Follows Method.get_buffer_queues room =
      on_params_keeps (Follows s) req _ s _ stay λ ps. stay
  dispatch-Follows Method.clear_buffer_queues room =
      on_params_keeps (Follows s) req _ s _ stay λ ps. clear_buffers-Follows s ps s.records
  dispatch-Follows Method.search_balloon room =
      on_params_keeps (Follows s) req _ s _ stay λ (t, n). same-Follows s _ refl refl refl
  dispatch-Follows Method.fetch_my_infos room =
      on_params_keeps (Follows s) req _ s _ stay λ ts. stay
  dispatch-Follows Method.unhandled room = stay

  pub data_store_handler-Follows :
      s.next_id + 1 < u64_mod → Follows s (data_store_handler config env conn req s).1
  unfolding data_store_handler
  data_store_handler-Follows room = dispatch-Follows (method_of req.method) room
