-- ===== src/Objects.antt =====
-- objectstore.go: the tokens, the URLs and the HTTPS host of the uploaded objects, and
-- markBalloonFound of datastore.go, which a download calls.
pub mod Tokens
use super_mario_odyssey.Prelude.{
  ℕ, ◌+◌, ◌*◌, Bool, true, false, not, ◌&&◌, ◌||◌, String, Option, none, some, List, [], ◌∷◌, ltb,
  ◌==◌, if◌then◌else◌,
}
use super_mario_odyssey.Prelude.Map.{Map, lookup, insert, erase}
use super_mario_odyssey.Prelude.State.{State}
use super_mario_odyssey.Prelude.Text.{TextMap, join, decimal, hex_encode, lookup_text, insert_text}
use super_mario_odyssey.Nex.{Bytes}
use super_mario_odyssey.Balloon.{BalloonRecord, ObjectToken, Server, Config, Env}

-- ten minutes, in nanoseconds
abbrev pub object_token_ttl : ℕ
object_token_ttl = 600_000_000_000

-- time.Now().After(t.expires)
abbrev pub is_expired : ℕ → ObjectToken → Bool
is_expired now t = ltb t.expires now

unfoldable pub sweep : ℕ → TextMap ObjectToken → TextMap ObjectToken
sweep now [] = []
sweep now ((k, v) ∷ rest) =
    let kept = sweep now rest in if is_expired now v then kept else (k, v) ∷ kept

unfoldable pub new_object_token : Env → ℕ → ℕ → Bool → State Server String
unfolding sweep
new_object_token env data_id requester_id upload s =
    let tok = hex_encode env.random in
    let t : ObjectToken = record {
      data_id = data_id;
      requester_id = requester_id;
      upload = upload;
      expires = env.wall + object_token_ttl;
    } in
    (tok, record s { tokens = sweep env.wall (insert_text tok t s.tokens) })

object_base_url : Config → String
object_base_url c = join ("https://" ∷ c.nextendo_host ∷ ":" ∷ decimal c.object_port ∷ [])

unfoldable pub object_url : Config → ℕ → String
unfolding object_base_url
object_url c data_id = join (object_base_url c ∷ "/object/" ∷ decimal data_id ∷ [])

unfoldable pub object_upload_url : Config → Env → ℕ → State Server (String × String)
object_upload_url c env data_id s =
    let (token, s') = new_object_token env data_id 0 true s in ((object_url c data_id, token), s')

unfoldable pub object_download_url_for : Config → Env → ℕ → ℕ → State Server (String × String)
object_download_url_for c env data_id requester_id s =
    let (token, s') = new_object_token env data_id requester_id false s in
    ((object_url c data_id, token), s')

unfoldable pub object_delete : ℕ → Server → Server
object_delete data_id s = record s { blobs = erase data_id s.blobs }

-- a missing player has found nothing
abbrev pub found_by : ℕ → Server → Map Bool
found_by pid s = elim (lookup pid s.found) [ none ↦ [] | some m ↦ m ]

-- a missing key of a map of truth values reads as false
abbrev pub flag : ℕ → Map Bool → Bool
flag k m = elim (lookup k m) [ none ↦ false | some b ↦ b ]

unfoldable pub mark_balloon_found : ℕ → ℕ → Server → Server
mark_balloon_found pid data_id s = record s {
  found = insert pid (insert data_id true (found_by pid s)) s.found;
}

pub data HttpMethod : Type 0 where
  put post get other : HttpMethod

-- A request to /object/: the id that Sscanf reads from the path, if it reads one, the token header,
-- the method, the bytes of the body that arrive, and whether the file can be created and the copy
-- ends well.
pub record HttpRequest : Type 0 where
  pub object_id : Option ℕ
  pub token : String
  pub method : HttpMethod
  pub received : Bytes
  pub can_create : Bool
  pub copy_ok : Bool

pub data HttpReply : Type 0 where
  not_found forbidden server_error method_not_allowed uploaded : HttpReply
  content : Bytes → HttpReply

unfoldable pub upload_object : HttpRequest → ObjectToken → ℕ → State Server HttpReply
upload_object req info data_id s =
    if not info.upload then (forbidden, s) else if not req.can_create then (server_error, s) else (
      (if req.copy_ok then uploaded else server_error),
      record s { blobs = insert data_id req.received s.blobs },
    )

-- After the download, the balloon of another player counts as found by the token's owner.
unfoldable pub credit_find : ObjectToken → ℕ → Server → Server
credit_find info data_id s = if info.requester_id == 0 then s else elim (lookup data_id s.records) [
  | none ↦ s
  | some rec ↦
      if rec.owner_id == info.requester_id
      then s
      else mark_balloon_found info.requester_id data_id s
]

unfoldable pub download_object : ObjectToken → ℕ → State Server HttpReply
download_object info data_id s =
    if info.upload then (forbidden, s) else elim (lookup data_id s.blobs) [
      | none ↦ (not_found, s)
      | some b ↦ (content b, credit_find info data_id s)
    ]

unfoldable pub dispatch_object : HttpMethod → HttpRequest → ObjectToken → ℕ → State Server HttpReply
dispatch_object put req info data_id s = upload_object req info data_id s
dispatch_object post req info data_id s = upload_object req info data_id s
dispatch_object get req info data_id s = download_object info data_id s
dispatch_object other req info data_id s = (method_not_allowed, s)

-- the checks on a token before the method is looked at
unfoldable pub token_for : ℕ → HttpRequest → ℕ → Server → Option ObjectToken
token_for now req data_id s = elim (lookup_text req.token s.tokens) [
  | none ↦ none
  | some info ↦ if not (info.data_id == data_id) || is_expired now info then none else some info
]

-- the handler of /object/ at the time `now`
unfoldable pub serve_object : ℕ → HttpRequest → State Server HttpReply
serve_object now req s = elim req.object_id [
  | none ↦ (not_found, s)
  | some data_id ↦ elim (token_for now req data_id s) [
    | none ↦ (forbidden, s)
    | some info ↦ dispatch_object req.method req info data_id s
  ]
]
