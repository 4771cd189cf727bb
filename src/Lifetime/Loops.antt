-- ===== src/Lifetime/Loops.antt =====
-- The loops over the records of a request, and the object host, move ids on.
use super_mario_odyssey.Prelude.{ℕ, refl, List, [], ◌∷◌, ◌==◌, inl, inr, Option-cases, Bool-cases}
use super_mario_odyssey.Prelude.Map.{Map, lookup, insert, erase}
use super_mario_odyssey.Nex.{Bytes, Nex}
use super_mario_odyssey.Balloon.{BalloonRecord, ObjectToken, Server}
use super_mario_odyssey.Ratings.{add_rating}
use super_mario_odyssey.Rates.{RatingTarget, rate, rate_all, sign_extend}
use super_mario_odyssey.Buffers.{BufferQueueParam, add_buffers, clear_buffers, push_buffer, to_int8}
use super_mario_odyssey.Objects.{
  HttpMethod, HttpRequest, upload_object, credit_find, download_object, dispatch_object, token_for,
  serve_object,
}
use super_mario_odyssey.Invariant.Loops.{with_records}
use super_mario_odyssey.Lifetime.{Follows, Follows-refl, Follows-trans}
use super_mario_odyssey.Lifetime.Operations.{
  replace-Follows, same-Follows, mark_balloon_found-Follows,
}

module _ ⦃nex : Nex⦄ (s : Server) where
  pub rate_all-Follows :
      (ts : List (RatingTarget × ℕ)) (m : Map BalloonRecord)
      → Follows (with_records s m) (with_records s (rate_all ts m).1)
  unfolding rate_all rate add_rating
  rate_all-Follows [] m = Follows-refl (with_records s m)
  rate_all-Follows ((t, value) ∷ rest) m = elim (Option-cases (lookup t.data_id m)) [
    | inl e ↦ rw (e, rate_all) (rate_all-Follows rest m)
    | inr (r, e) ↦
        rw (e, rate_all)
          (Follows-trans (replace-Follows (with_records s m) t.data_id r _ e (refl, λ c. c))
            (rate_all-Follows rest (insert t.data_id (rate t.slot (sign_extend value) r) m)))
  ]

  pub add_buffers-Follows :
      (ps : List BufferQueueParam) (bufs : List Bytes) (m : Map BalloonRecord)
      → Follows (with_records s m) (with_records s (add_buffers ps bufs m).1)
  unfolding add_buffers push_buffer
  add_buffers-Follows [] bufs m = Follows-refl (with_records s m)
  add_buffers-Follows (p ∷ ps) [] m = add_buffers-Follows ps [] m
  add_buffers-Follows (p ∷ ps) (b ∷ bufs) m = elim (Option-cases (lookup p.data_id m)) [
    | inl e ↦ rw (e, add_buffers) (add_buffers-Follows ps bufs m)
    | inr (r, e) ↦
        rw (e, add_buffers)
          (Follows-trans (replace-Follows (with_records s m) p.data_id r _ e (refl, λ c. c))
            (add_buffers-Follows ps bufs (insert p.data_id (push_buffer (to_int8 p.slot) b r) m)))
  ]

  pub clear_buffers-Follows :
      (ps : List BufferQueueParam) (m : Map BalloonRecord)
      → Follows (with_records s m) (with_records s (clear_buffers ps m).1)
  unfolding clear_buffers
  clear_buffers-Follows [] m = Follows-refl (with_records s m)
  clear_buffers-Follows (p ∷ ps) m = elim (Option-cases (lookup p.data_id m)) [
    | inl e ↦ rw (e, clear_buffers) (clear_buffers-Follows ps m)
    | inr (r, e) ↦
        rw (e, clear_buffers)
          (Follows-trans (replace-Follows (with_records s m) p.data_id r _ e (refl, λ c. c)) (
            clear_buffers-Follows ps
              (insert p.data_id (record r { buffers = erase (to_int8 p.slot) r.buffers }) m)))
  ]

upload_object-Follows :
    (req : HttpRequest) (info : ObjectToken) (k : ℕ) (s : Server)
    → Follows s (upload_object req info k s).1
unfolding upload_object
upload_object-Follows req info k s = elim (Bool-cases info.upload) [
  | inr e ↦ rw e (Follows-refl s)
  | inl e ↦ elim (Bool-cases req.can_create) [
    | inr c ↦ rw (e, c) (Follows-refl s)
    | inl c ↦ rw (e, c) (same-Follows s _ refl refl refl)
  ]
]

credit_find-Follows : (info : ObjectToken) (k : ℕ) (s : Server) → Follows s (credit_find info k s)
unfolding credit_find
credit_find-Follows info k s = elim (Bool-cases (info.requester_id == 0)) [
  | inl z ↦ rw z (Follows-refl s)
  | inr z ↦ elim (Option-cases (lookup k s.records)) [
    | inl e ↦ rw (z, e, credit_find) (Follows-refl s)
    | inr (r, e) ↦ elim (Bool-cases (r.owner_id == info.requester_id)) [
      | inl o ↦ rw (z, e, credit_find, o) (Follows-refl s)
      | inr o ↦ rw (z, e, credit_find, o) (mark_balloon_found-Follows info.requester_id k s)
    ]
  ]
]

download_object-Follows :
    (info : ObjectToken) (k : ℕ) (s : Server) → Follows s (download_object info k s).1
unfolding download_object
download_object-Follows info k s = elim (Bool-cases info.upload) [
  | inl u ↦ rw u (Follows-refl s)
  | inr u ↦ elim (Option-cases (lookup k s.blobs)) [
    | inl e ↦ rw (u, e, download_object) (Follows-refl s)
    | inr (b, e) ↦ rw (u, e, download_object) (credit_find-Follows info k s)
  ]
]

dispatch_object-Follows :
    (m : HttpMethod) (req : HttpRequest) (info : ObjectToken) (k : ℕ) (s : Server)
    → Follows s (dispatch_object m req info k s).1
unfolding dispatch_object
dispatch_object-Follows HttpMethod.put req info k s = upload_object-Follows req info k s
dispatch_object-Follows HttpMethod.post req info k s = upload_object-Follows req info k s
dispatch_object-Follows HttpMethod.get req info k s = download_object-Follows info k s
dispatch_object-Follows HttpMethod.other req info k s = Follows-refl s

pub serve_object-Follows :
    (now : ℕ) (req : HttpRequest) (s : Server) → Follows s (serve_object now req s).1
unfolding serve_object
serve_object-Follows now req s = elim (Option-cases req.object_id) [
  | inl e ↦ rw (e, serve_object) (Follows-refl s)
  | inr (k, e) ↦ elim (Option-cases (token_for now req k s)) [
    | inl t ↦ rw (e, serve_object, t) (Follows-refl s)
    | inr (info, t) ↦ rw (e, serve_object, t) (dispatch_object-Follows req.method req info k s)
  ]
]
