-- ===== src/Invariant/Objects.antt =====
-- The object host keeps the invariant: only a download of another player's balloon marks a find.
use super_mario_odyssey.Prelude.{
  ℕ, ◌≡◌, refl, some, arith, ◌==◌, inl, inr, Option-cases, Bool-cases,
}
use super_mario_odyssey.Prelude.Map.{lookup}
use super_mario_odyssey.Balloon.{BalloonRecord, ObjectToken, Server}
use super_mario_odyssey.Objects.{
  HttpMethod, HttpRequest, upload_object, credit_find, download_object, dispatch_object, token_for,
  serve_object,
}
use super_mario_odyssey.Invariant.{IsValid}
use super_mario_odyssey.Invariant.Operations.{same-IsValid, mark_balloon_found-IsValid}

upload_object-IsValid :
    (req : HttpRequest) (info : ObjectToken) (k : ℕ) (s : Server)
    → IsValid s
    → IsValid (upload_object req info k s).1
unfolding upload_object
upload_object-IsValid req info k s v = elim (Bool-cases info.upload) [
  | inr e ↦ rw e v
  | inl e ↦ elim (Bool-cases req.can_create) [
    | inr c ↦ rw (e, c) v
    | inl c ↦ rw (e, c) (same-IsValid s _ v refl refl refl refl)
  ]
]

credit_found-IsValid :
    (info : ObjectToken) (k : ℕ) (r : BalloonRecord) (s : Server)
    → IsValid s
    → lookup k s.records ≡ some r
    → IsValid (credit_find info k s)
unfolding credit_find
credit_found-IsValid info k r s v e = elim (Bool-cases (info.requester_id == 0)) [
  | inl z ↦ rw z v
  | inr z ↦ elim (Bool-cases (r.owner_id == info.requester_id)) [
    | inl o ↦ rw (z, e, credit_find, o) v
    | inr o ↦
        rw (z, e, credit_find, o)
          (mark_balloon_found-IsValid info.requester_id k r s v e (ground arith))
  ]
]

credit_find-IsValid :
    (info : ObjectToken) (k : ℕ) (s : Server) → IsValid s → IsValid (credit_find info k s)
unfolding credit_find
credit_find-IsValid info k s v = elim (Option-cases (lookup k s.records)) [
  | inl e ↦ elim (Bool-cases (info.requester_id == 0)) [
    | inl z ↦ rw z v
    | inr z ↦ rw (z, e, credit_find) v
  ]
  | inr (r, e) ↦ credit_found-IsValid info k r s v e
]

download_object-IsValid :
    (info : ObjectToken) (k : ℕ) (s : Server) → IsValid s → IsValid (download_object info k s).1
unfolding download_object
download_object-IsValid info k s v = elim (Bool-cases info.upload) [
  | inl u ↦ rw u v
  | inr u ↦ elim (Option-cases (lookup k s.blobs)) [
    | inl e ↦ rw (u, e, download_object) v
    | inr (b, e) ↦ rw (u, e, download_object) (credit_find-IsValid info k s v)
  ]
]

dispatch_object-IsValid :
    (m : HttpMethod) (req : HttpRequest) (info : ObjectToken) (k : ℕ) (s : Server)
    → IsValid s
    → IsValid (dispatch_object m req info k s).1
unfolding dispatch_object
dispatch_object-IsValid HttpMethod.put req info k s v = upload_object-IsValid req info k s v
dispatch_object-IsValid HttpMethod.post req info k s v = upload_object-IsValid req info k s v
dispatch_object-IsValid HttpMethod.get req info k s v = download_object-IsValid info k s v
dispatch_object-IsValid HttpMethod.other req info k s v = v

-- Uploads and downloads keep the invariant.
pub serve_object-IsValid :
    (now : ℕ) (req : HttpRequest) (s : Server) → IsValid s → IsValid (serve_object now req s).1
unfolding serve_object
serve_object-IsValid now req s v = elim (Option-cases req.object_id) [
  | inl e ↦ rw (e, serve_object) v
  | inr (k, e) ↦ elim (Option-cases (token_for now req k s)) [
    | inl t ↦ rw (e, serve_object, t) v
    | inr (info, t) ↦ rw (e, serve_object, t) (dispatch_object-IsValid req.method req info k s v)
  ]
]
