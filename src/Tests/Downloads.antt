-- ===== src/Tests/Downloads.antt =====
-- The theorems about the object host, at the small world of `World`.
use super_mario_odyssey.Prelude.{◌≡◌, ◌≢◌, refl, Bool, true, false, some, [], ◌∷◌, arith}
use super_mario_odyssey.Prelude.Map.{lookup, insert}
use super_mario_odyssey.Prelude.Text.{lookup_text, insert_text, hex_encode}
use super_mario_odyssey.Balloon.{ObjectToken, Server, Env}
use super_mario_odyssey.Objects.{
  HttpMethod, HttpRequest, serve_object, token_for, dispatch_object, upload_object, download_object,
  credit_find, mark_balloon_found, object_download_url_for, new_object_token, sweep,
  object_upload_url,
}
use super_mario_odyssey.Posts.{
  prepare_get_object, complete_post, prepare_post_object, post_record, take_data_id, new_record,
}
use super_mario_odyssey.Objects.Tokens.{Serves, Writes, serve_object-Serves, serve_object-Writes}
use super_mario_odyssey.Machine.Hunt.{Hunts, IsHunted, hunt, granted}
use super_mario_odyssey.Persist.{FileWrite}
use super_mario_odyssey.Machine.{flush, step}
use super_mario_odyssey.Machine.Lives.{starts, goes_on}
use super_mario_odyssey.Tests.Tape.{tape_nex}
use super_mario_odyssey.Tests.World.{
  config, env, placer, finder, request, cascade, balloon, server, server-IsValid, env-Visits,
}

abbrev ticket : Bool → ObjectToken
ticket upload = record { data_id = 1; requester_id = 8; upload = upload; expires = 10 }

abbrev with_ticket : Bool → Server
with_ticket upload = record server { tokens = ("t", ticket upload) ∷ [] }

abbrev sent : HttpMethod → HttpRequest
sent method = record {
  object_id = some 1;
  token = "t";
  method = method;
  received = 4 ∷ 5 ∷ [];
  can_create = true;
  copy_ok = true;
}

serve_object-Serves_example : Serves 9 (sent HttpMethod.get) (with_ticket false) (1 ∷ 2 ∷ 3 ∷ [])
unfolding serve_object token_for dispatch_object download_object lookup_text lookup
serve_object-Serves_example =
    serve_object-Serves 9 (sent HttpMethod.get) (with_ticket false) (1 ∷ 2 ∷ 3 ∷ []) refl

blob_changes :
    lookup 1 (serve_object 9 (sent HttpMethod.put) (with_ticket true)).1.blobs
    ≢ lookup 1 (with_ticket true).blobs
unfolding serve_object token_for dispatch_object upload_object lookup_text lookup insert
blob_changes e = cc

serve_object-Writes_example : Writes 9 (sent HttpMethod.put) (with_ticket true) 1
serve_object-Writes_example =
    serve_object-Writes 9 (sent HttpMethod.put) (with_ticket true) 1 blob_changes

abbrev later : Env
later = record env { random = 3 ∷ 4 ∷ [] }

abbrev upload : HttpRequest
upload = record (sent HttpMethod.put) { object_id = some 2; token = hex_encode (1 ∷ 2 ∷ []) }

abbrev download : HttpRequest
download = record (sent HttpMethod.get) { object_id = some 2; token = hex_encode (3 ∷ 4 ∷ []) }

goes : Hunts env later placer finder upload download 9 9 (4 ∷ 5 ∷ []) server
goes = record {
  room = omega arith;
  uploads = (refl, refl, refl, refl, refl);
  upload_token = refl;
  upload_time = omega arith;
  downloads = (refl, refl);
  download_token = refl;
  download_time = omega arith;
  two_players = omega arith;
  known = omega arith;
}

abbrev reached : Server
reached =
    granted config env later placer finder (request 24 []) (request 25 []) cascade upload 9 server

-- after the download, a round of the flusher that spoils the file
reached-next : (serve_object 9 download reached).1.next_id ≡ 3
unfolding serve_object token_for dispatch_object upload_object download_object credit_find
    mark_balloon_found prepare_get_object object_download_url_for new_object_token sweep
    complete_post prepare_post_object object_upload_url post_record take_data_id new_record lookup
    insert lookup_text insert_text hex_encode
reached-next = refl

hunt_example :
    IsHunted config env later placer finder
      (request 24 [])
      (request 25 [])
      cascade
      upload
      download
      9
      9
      (4 ∷ 5 ∷ [])
      server
      server-IsValid
      goes
      (step config (flush env FileWrite.cut_off) (serve_object 9 download reached).1)
      env
      13
      balloon
hunt_example =
    hunt config env later placer finder (request 24 []) (request 25 []) cascade upload download 9 9
      (4 ∷ 5 ∷ []) server server-IsValid goes
      (step config (flush env FileWrite.cut_off) (serve_object 9 download reached).1)
      (goes_on (flush env FileWrite.cut_off) (serve_object 9 download reached).1 starts env-Visits
        (omega (arith, reached-next)))
      env 13 balloon
