-- ===== src/DataStore.antt =====
-- DataStoreHandler of datastore.go: the dispatch of a request on its method.
use super_mario_odyssey.Prelude.{ℕ, ◌==◌, if◌then◌else◌}
use super_mario_odyssey.Prelude.State.{State}
use super_mario_odyssey.Nex.{Nex, Connection, Request}
use super_mario_odyssey.Balloon.{Server, Config, Env}
use super_mario_odyssey.Wire.{refuse}
use super_mario_odyssey.Metas.{ds_get_meta, ds_get_metas}
use super_mario_odyssey.Posts.{
  ds_prepare_post_object, ds_post_meta_binary, ds_complete_post_object, ds_prepare_get_object,
  ds_delete_object,
}
use super_mario_odyssey.Rates.{ds_rate_object, ds_get_rating, ds_rate_objects}
use super_mario_odyssey.Buffers.{
  ds_add_to_buffer_queue, ds_add_to_buffer_queues, ds_get_buffer_queue, ds_get_buffer_queues,
  ds_clear_buffer_queues,
}
use super_mario_odyssey.Search.Answers.{
  ds_get_persistence_info, ds_search_object, ds_search_balloon,
}
use super_mario_odyssey.Infos.{ds_fetch_my_infos}

pub data Method : Type 0 where
  delete_object get_meta get_metas search_object rate_object get_rating post_meta_binary : Method
  prepare_post_object prepare_get_object complete_post_object get_persistence_info : Method
  rate_objects add_to_buffer_queue add_to_buffer_queues get_buffer_queue get_buffer_queues : Method
  clear_buffer_queues search_balloon fetch_my_infos : Method
  unhandled : Method

-- the method numbers
unfoldable pub method_of : ℕ → Method
method_of n =
    if n == 8
    then get_meta
    else if n == 9
    then get_metas
    else if n == 24
    then prepare_post_object
    else if n == 26
    then complete_post_object
    else if n == 29
    then get_persistence_info
    else if n == 25
    then prepare_get_object
    else if n == 4
    then delete_object
    else if n == 12
    then search_object
    else if n == 15
    then rate_object
    else if n == 16
    then get_rating
    else if n == 40
    then rate_objects
    else if n == 21
    then post_meta_binary
    else if n == 47
    then add_to_buffer_queue
    else if n == 48
    then add_to_buffer_queues
    else if n == 49
    then get_buffer_queue
    else if n == 50
    then get_buffer_queues
    else if n == 51
    then clear_buffer_queues
    else if n == 52
    then search_balloon
    else if n == 53
    then fetch_my_infos
    else unhandled

module _ ⦃nex : Nex⦄ (config : Config) (env : Env) (conn : Connection) (req : Request) where
  open nex use {Message, result_not_implemented}

  unfoldable pub not_implemented_ds : State Server Message
  not_implemented_ds s = (refuse req result_not_implemented, s)

  unfoldable pub dispatch : Method → State Server Message
  unfolding not_implemented_ds
  dispatch get_meta = ds_get_meta conn req
  dispatch get_metas = ds_get_metas conn req
  dispatch prepare_post_object = ds_prepare_post_object config env conn req
  dispatch complete_post_object = ds_complete_post_object conn req
  dispatch get_persistence_info = ds_get_persistence_info env conn req
  dispatch prepare_get_object = ds_prepare_get_object config env conn req
  dispatch delete_object = ds_delete_object conn req
  dispatch search_object = ds_search_object env conn req
  dispatch rate_object = ds_rate_object conn req
  dispatch get_rating = ds_get_rating conn req
  dispatch rate_objects = ds_rate_objects conn req
  dispatch post_meta_binary = ds_post_meta_binary env conn req
  dispatch add_to_buffer_queue = ds_add_to_buffer_queue conn req
  dispatch add_to_buffer_queues = ds_add_to_buffer_queues conn req
  dispatch get_buffer_queue = ds_get_buffer_queue conn req
  dispatch get_buffer_queues = ds_get_buffer_queues conn req
  dispatch clear_buffer_queues = ds_clear_buffer_queues conn req
  dispatch search_balloon = ds_search_balloon env conn req
  dispatch fetch_my_infos = ds_fetch_my_infos env conn req
  dispatch unhandled = not_implemented_ds

  unfoldable pub data_store_handler : State Server Message
  unfolding dispatch method_of
  data_store_handler = dispatch (method_of req.method)
