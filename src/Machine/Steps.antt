-- ===== src/Machine/Steps.antt =====
-- The single steps on the way of a balloon.
use super_mario_odyssey.Prelude.{
  ℕ, ◌+◌, ◌<◌, ◌≡◌, ◌≢◌, refl, ap, Bool, true, false, some, List, arith,
}
use super_mario_odyssey.Prelude.Map.{Map, lookup, insert, lookup-insert_self}
use super_mario_odyssey.Prelude.Member.{In, In-perm, In-keep→}
use super_mario_odyssey.Prelude.Sort.{sort_slice-perm}
use super_mario_odyssey.Prelude.Text.{hex_encode}
use super_mario_odyssey.Search.{newer, is_candidate, candidates}
use super_mario_odyssey.Nex.{Bytes, Nex, Connection, Request}
use super_mario_odyssey.Balloon.{BalloonRecord, ObjectToken, Server, Config, Env}
use super_mario_odyssey.Ratings.{u64_mod}
use super_mario_odyssey.Objects.{
  found_by, flag, mark_balloon_found, new_object_token, object_upload_url, object_download_url_for,
  HttpMethod, HttpRequest, upload_object, download_object, credit_find, dispatch_object,
  serve_object, uploaded, content, token_for,
}
use super_mario_odyssey.Posts.{
  PostParam, new_record, complete_post, prepare_post_object, prepare_get_object,
}
use super_mario_odyssey.Invariant.Operations.{post_record_lem}

-- an upload that arrives whole, and a download
abbrev pub UploadOf : ℕ → HttpRequest → Bytes → Type 0
UploadOf k req b =
    (req.object_id ≡ some k)
    × (req.method ≡ HttpMethod.put)
    × (req.received ≡ b)
    × (req.can_create ≡ true)
    × (req.copy_ok ≡ true)

abbrev pub DownloadOf : ℕ → HttpRequest → Type 0
DownloadOf k req = (req.object_id ≡ some k) × (req.method ≡ HttpMethod.get)

pub serve_object-upload :
    (now k : ℕ) (req : HttpRequest) (b : Bytes) (t : ObjectToken) (s : Server)
    → UploadOf k req b
    → token_for now req k s ≡ some t
    → t.upload ≡ true
    → serve_object now req s ≡ (uploaded, record s { blobs = insert k b s.blobs })
unfolding serve_object dispatch_object upload_object
serve_object-upload now k req b t s (asked, m, got, c, ok) open_ u =
    rw (asked, serve_object, open_, m, dispatch_object, u, c, ok, got)

pub serve_object-download :
    (now k : ℕ) (req : HttpRequest) (b : Bytes) (t : ObjectToken) (r : BalloonRecord) (s : Server)
    → DownloadOf k req
    → token_for now req k s ≡ some t
    → t.upload ≡ false
    → lookup k s.blobs ≡ some b
    → lookup k s.records ≡ some r
    → r.owner_id ≢ t.requester_id
    → t.requester_id ≢ 0
    → serve_object now req s ≡ (content b, mark_balloon_found t.requester_id k s)
unfolding serve_object dispatch_object download_object credit_find
serve_object-download now k req b t r s (asked, m) open_ u blob stored other pid =
    rw (asked, serve_object, open_, m, dispatch_object, u, blob, download_object)
      (ground (arith, stored))

pub complete_post-success :
    (k : ℕ) (r : BalloonRecord) (s : Server)
    → lookup k s.records ≡ some r
    → (lookup k (complete_post k true s).records ≡ some (record r { complete = true }))
      × ((complete_post k true s).blobs ≡ s.blobs)
unfolding complete_post
complete_post-success k r s e = (
  rw (e, complete_post) (lookup-insert_self k (record r { complete = true }) s.records),
  rw (e, complete_post),
)

module _ ⦃nex : Nex⦄ (config : Config) (env : Env) (conn : Connection) (req : Request) where
  pub prepare_post_object-issues :
      (p : PostParam) (s : Server)
      → s.next_id + 1 < u64_mod
      → (prepare_post_object config env conn req p s).1
        ≡ (new_object_token env s.next_id 0 true (record s {
          next_id = s.next_id + 1;
          records = insert s.next_id (new_record env s.next_id conn.client p false) s.records;
          dirty = true;
        })).1
  unfolding prepare_post_object object_upload_url
  prepare_post_object-issues p s room =
      ap (λ (x : ℕ × Server). (new_object_token env x.0 0 true x.1).1)
        (post_record_lem env conn.client p false s room)

  pub prepare_get_object-issues :
      (k : ℕ) (r : BalloonRecord) (s : Server)
      → lookup k s.records ≡ some r
      → r.complete ≡ true
      → (prepare_get_object config env conn req k s).1
        ≡ (new_object_token env k conn.client false s).1
  unfolding prepare_get_object object_download_url_for
  prepare_get_object-issues k r s e c = rw (e, prepare_get_object, c)

-- The objects and the records do not see that a token is issued.
pub issue-same :
    (env : Env) (k requester : ℕ) (upload : Bool) (s : Server)
    → ((new_object_token env k requester upload s).1.blobs ≡ s.blobs)
      × ((new_object_token env k requester upload s).1.records ≡ s.records)
      × ((new_object_token env k requester upload s).0 ≡ hex_encode env.random)
unfolding new_object_token
issue-same env k requester upload s = (refl, refl, refl)

pub flag-mark_balloon_found :
    (pid k : ℕ) (s : Server) → flag k (found_by pid (mark_balloon_found pid k s)) ≡ true
unfolding mark_balloon_found
flag-mark_balloon_found pid k s = ground (
  arith,
  lookup-insert_self pid (insert k true (found_by pid s)) s.found,
  lookup-insert_self k true (found_by pid s),
)

-- A record that counts as found is not offered again.
pub not-In-candidates :
    (client data_type : ℕ) (found : Map Bool) (r : BalloonRecord) (rs : List BalloonRecord)
    → flag r.data_id found ≡ true
    → ¬ In r (candidates client data_type found rs)
unfolding candidates
not-In-candidates client data_type found r rs seen m =
    let (_, passed) =
      In-keep→ (is_candidate client data_type found) r rs (In-perm r (sort_slice-perm newer _) m) in
    ground arith
