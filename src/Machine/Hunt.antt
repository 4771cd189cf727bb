-- ===== src/Machine/Hunt.antt =====
-- The whole way of a balloon: it is posted, uploaded and completed, another player fetches it, and
-- it counts as found.
use super_mario_odyssey.Prelude.{ℕ, ◌+◌, ◌≤◌, ◌<◌, ◌≡◌, ◌≢◌, refl, sym, ap, ◌∙◌, true, false, some}
use super_mario_odyssey.Prelude.Map.{lookup, insert, values, lookup-insert_self}
use super_mario_odyssey.Prelude.Member.{In}
use super_mario_odyssey.Prelude.Text.{hex_encode}
use super_mario_odyssey.Search.{candidates}
use super_mario_odyssey.Nex.{Bytes, Nex, Connection, Request}
use super_mario_odyssey.Balloon.{BalloonRecord, Server, Config, Env}
use super_mario_odyssey.Ratings.{u64_mod}
use super_mario_odyssey.Objects.{
  object_token_ttl, found_by, flag, mark_balloon_found, new_object_token, HttpReply, HttpRequest,
  serve_object, content, token_for,
}
use super_mario_odyssey.Objects.Tokens.{issued, token_for-new_object_token}
use super_mario_odyssey.Posts.{
  PostParam, new_record, complete_post, prepare_post_object, prepare_get_object,
}
use super_mario_odyssey.Invariant.{IsValid}
use super_mario_odyssey.Invariant.Objects.{serve_object-IsValid}
use super_mario_odyssey.Invariant.Operations.{complete_post-IsValid}
use super_mario_odyssey.Machine.Lives.{Runs, Runs-Follows}
use super_mario_odyssey.Machine.Answers.{
  told_post, told_get, prepare_post_object-tells, prepare_get_object-tells,
  prepare_post_object-IsValid, prepare_get_object-IsValid,
}
use super_mario_odyssey.Machine.Steps.{
  UploadOf, DownloadOf, serve_object-upload, serve_object-download, complete_post-success,
  prepare_post_object-issues, prepare_get_object-issues, issue-same, flag-mark_balloon_found,
  not-In-candidates,
}

-- What the conditions of the way are: two players with ids, and clients that send what the server
-- told them, in time.
module _ (posting fetching : Env) (placer finder : Connection) (up down : HttpRequest)
    (now now' : ℕ) (b : Bytes) (s : Server) where
  pub record Hunts : Type 0 where
    pub room : s.next_id + 1 < u64_mod
    pub uploads : UploadOf s.next_id up b
    pub upload_token : up.token ≡ hex_encode posting.random
    pub upload_time : now ≤ posting.wall + object_token_ttl
    pub downloads : DownloadOf s.next_id down
    pub download_token : down.token ≡ hex_encode fetching.random
    pub download_time : now' ≤ fetching.wall + object_token_ttl
    pub two_players : placer.client ≢ finder.client
    pub known : finder.client ≢ 0

-- The states on the way.
module _ ⦃nex : Nex⦄ (config : Config) (posting fetching : Env) (placer finder : Connection)
    (req req' : Request) (p : PostParam) (up : HttpRequest) (now : ℕ) (s : Server) where
  abbrev pub prepared : Server
  prepared = (prepare_post_object config posting placer req p s).1

  abbrev pub completed : Server
  completed = complete_post s.next_id true (serve_object now up prepared).1

  abbrev pub granted : Server
  granted = (prepare_get_object config fetching finder req' s.next_id completed).1

module _ ⦃nex : Nex⦄ (config : Config) (posting fetching : Env) (placer finder : Connection)
    (req req' : Request) (p : PostParam) (up down : HttpRequest) (now now' : ℕ) (b : Bytes)
    (s : Server) (v : IsValid s)
    (h : Hunts posting fetching placer finder up down now now' b s) where
  abbrev k : ℕ
  k = s.next_id

  abbrev after_prepare : Server
  after_prepare = prepared config posting fetching placer finder req req' p up now s

  abbrev after_complete : Server
  after_complete = completed config posting fetching placer finder req req' p up now s

  abbrev after_grant : Server
  after_grant = granted config posting fetching placer finder req req' p up now s

  abbrev rec : BalloonRecord
  rec = new_record posting k placer.client p false

  uploaded_state :
      (lookup k (serve_object now up after_prepare).1.records ≡ some rec)
      × (lookup k (serve_object now up after_prepare).1.blobs ≡ some b)
  uploaded_state =
      let placed : Server = record s {
        next_id = k + 1;
        records = insert k rec s.records;
        dirty = true;
      } in
      let issue : after_prepare ≡ (new_object_token posting k 0 true placed).1 =
        prepare_post_object-issues config posting placer req p s h.room in
      let same = issue-same posting k 0 true placed in
      let opened : token_for now up k after_prepare ≡ some (issued posting k 0 true) =
        ap (token_for now up k) issue
        ∙ token_for-new_object_token posting k 0 now true up placed h.upload_time
            (h.upload_token ∙ sym same.2) in
      let served =
        serve_object-upload now k up b (issued posting k 0 true) after_prepare h.uploads opened
          refl in
      (
        ap (λ (x : HttpReply × Server). lookup k x.1.records) served
            ∙ (ap (λ (t : Server). lookup k t.records) issue
                ∙ (ap (lookup k) same.1 ∙ lookup-insert_self k rec s.records)),
        ap (λ (x : HttpReply × Server). lookup k x.1.blobs) served
            ∙ lookup-insert_self k b after_prepare.blobs,
      )

  completed_state :
      (lookup k after_complete.records ≡ some (record rec { complete = true }))
      × (lookup k after_complete.blobs ≡ some b)
  completed_state =
      let (stored, blob) = uploaded_state in
      let (stored', same) =
        complete_post-success k rec (serve_object now up after_prepare).1 stored in
      (stored', ap (lookup k) same ∙ blob)

  granted_state :
      (lookup k after_grant.records ≡ some (record rec { complete = true }))
      × (lookup k after_grant.blobs ≡ some b)
      × (token_for now' down k after_grant ≡ some (issued fetching k finder.client false))
  granted_state =
      let (stored, blob) = completed_state in
      let issue : after_grant ≡ (new_object_token fetching k finder.client false after_complete).1 =
        prepare_get_object-issues config fetching finder req' k (record rec { complete = true })
          after_complete stored refl in
      let same = issue-same fetching k finder.client false after_complete in
      (
        ap (λ (t : Server). lookup k t.records) issue ∙ (ap (lookup k) same.1 ∙ stored),
        ap (λ (t : Server). lookup k t.blobs) issue ∙ (ap (lookup k) same.0 ∙ blob),
        ap (token_for now' down k) issue
            ∙ token_for-new_object_token fetching k finder.client now' false down after_complete
                h.download_time (h.download_token ∙ sym same.2),
      )

  -- the answers to the two requests, with the tokens that the transfers carry
  answers :
      ((prepare_post_object config posting placer req p s).0 ≡ told_post config req k up.token)
      × ((prepare_get_object config fetching finder req' k after_complete).0
          ≡ told_get config req' k p.size down.token)
  unfolding new_record
  answers = (
    prepare_post_object-tells config posting placer req p s h.room
        ∙ ap (told_post config req k) (sym h.upload_token),
    prepare_get_object-tells config fetching finder req' k (record rec { complete = true })
          after_complete completed_state.0 refl
        ∙ ap (told_get config req' k p.size) (sym h.download_token),
  )

  after_grant-IsValid : IsValid after_grant
  after_grant-IsValid =
      prepare_get_object-IsValid config fetching finder req' k (record rec { complete = true })
        after_complete completed_state.0 refl
        (complete_post-IsValid k true _ (
          serve_object-IsValid now up after_prepare
            (prepare_post_object-IsValid config posting placer req p s h.room v)))

  abbrev after_download : Server
  after_download = (serve_object now' down after_grant).1

  downloaded :
      serve_object now' down after_grant
      ≡ (content b, mark_balloon_found finder.client k after_grant)
  unfolding new_record
  downloaded =
      let (stored, blob, opened) = granted_state in
      serve_object-download now' k down b (issued fetching k finder.client false)
        (record rec { complete = true }) after_grant h.downloads opened refl blob stored
        h.two_players h.known

  -- the balloon counts as found, then and for as long as the program runs
  still_found :
      (t : Server) → Runs config after_download t → flag k (found_by finder.client t) ≡ true
  still_found t run =
      let follows =
        Runs-Follows config (serve_object-IsValid now' down after_grant after_grant-IsValid) run in
      follows.found finder.client k (
        ap (λ (x : HttpReply × Server). flag k (found_by finder.client x.1)) downloaded
        ∙ flag-mark_balloon_found finder.client k after_grant)

  -- What comes of the way: the two answers, the content of the download, and that a search of the
  -- finder in the state t does not offer a record of this id.
  abbrev pub IsHunted : Server → Env → ℕ → BalloonRecord → Type 0
  IsHunted t env data_type r =
      ((prepare_post_object config posting placer req p s).0 ≡ told_post config req k up.token)
      × ((prepare_get_object config fetching finder req' k after_complete).0
          ≡ told_get config req' k p.size down.token)
      × ((serve_object now' down after_grant).0 ≡ content b)
      × ¬ (
          In r (
            candidates finder.client data_type (found_by finder.client t)
              (values (env.visit 0 t.records)))
          × (r.data_id ≡ k))

  -- On a valid server, a placer prepares a post, uploads bytes and completes the post; then
  -- another player, with an id other than 0, prepares a get and downloads. The upload and the
  -- download carry the tokens made from the random bytes of the two requests. If the counter has
  -- room for an id, both transfers come before the tokens expire and the upload arrives whole,
  -- then the answers to the two requests hold the id, the URL, and in the token header exactly
  -- those tokens, and the download's content is the placer's bytes. After the download and any
  -- further run of the program without a restart, in which the counter has room for an id before
  -- each event and each round of the flusher meets each record once, no search of the finder
  -- offers the balloon, whatever the kingdom and the order of its loop.
  pub hunt :
      (t : Server)
      → Runs config after_download t
      → (env : Env) (data_type : ℕ) (r : BalloonRecord) → IsHunted t env data_type r
  hunt t run env data_type r = (
    answers.0,
    answers.1,
    ap (λ (x : HttpReply × Server). x.0) downloaded,
    λ (m, e).
        not-In-candidates finder.client data_type (found_by finder.client t) r _
          (ap (λ j. flag j (found_by finder.client t)) e ∙ still_found t run) m,
  )
