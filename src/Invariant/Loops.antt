-- ===== src/Invariant/Loops.antt =====
-- The loops over the records of a request keep the invariant.
use super_mario_odyssey.Prelude.{ℕ, refl, List, [], ◌∷◌, inl, inr, Option-cases}
use super_mario_odyssey.Prelude.Map.{Map, lookup, insert, erase}
use super_mario_odyssey.Nex.{Bytes, Nex}
use super_mario_odyssey.Balloon.{BalloonRecord, Server}
use super_mario_odyssey.Ratings.{add_rating}
use super_mario_odyssey.Rates.{RatingTarget, rate, rate_all, sign_extend}
use super_mario_odyssey.Buffers.{BufferQueueParam, add_buffers, clear_buffers, push_buffer, to_int8}
use super_mario_odyssey.Invariant.{IsValid}
use super_mario_odyssey.Invariant.Operations.{replace-IsValid}

abbrev pub with_records : Server → Map BalloonRecord → Server
with_records s m = record s { records = m }

module _ ⦃nex : Nex⦄ (s : Server) where
  pub rate_all-IsValid :
      (ts : List (RatingTarget × ℕ)) (m : Map BalloonRecord)
      → IsValid (with_records s m)
      → IsValid (with_records s (rate_all ts m).1)
  unfolding rate_all rate add_rating
  rate_all-IsValid [] m v = v
  rate_all-IsValid ((t, value) ∷ rest) m v = elim (Option-cases (lookup t.data_id m)) [
    | inl e ↦ rw (e, rate_all) (rate_all-IsValid rest m v)
    | inr (r, e) ↦
        rw (e, rate_all)
          (rate_all-IsValid rest (insert t.data_id (rate t.slot (sign_extend value) r) m)
            (replace-IsValid (with_records s m) t.data_id r _ v e refl refl))
  ]

  pub add_buffers-IsValid :
      (ps : List BufferQueueParam) (bufs : List Bytes) (m : Map BalloonRecord)
      → IsValid (with_records s m)
      → IsValid (with_records s (add_buffers ps bufs m).1)
  unfolding add_buffers push_buffer
  add_buffers-IsValid [] bufs m v = v
  add_buffers-IsValid (p ∷ ps) [] m v = add_buffers-IsValid ps [] m v
  add_buffers-IsValid (p ∷ ps) (b ∷ bufs) m v = elim (Option-cases (lookup p.data_id m)) [
    | inl e ↦ rw (e, add_buffers) (add_buffers-IsValid ps bufs m v)
    | inr (r, e) ↦
        rw (e, add_buffers)
          (add_buffers-IsValid ps bufs (insert p.data_id (push_buffer (to_int8 p.slot) b r) m)
            (replace-IsValid (with_records s m) p.data_id r _ v e refl refl))
  ]

  pub clear_buffers-IsValid :
      (ps : List BufferQueueParam) (m : Map BalloonRecord)
      → IsValid (with_records s m)
      → IsValid (with_records s (clear_buffers ps m).1)
  unfolding clear_buffers
  clear_buffers-IsValid [] m v = v
  clear_buffers-IsValid (p ∷ ps) m v = elim (Option-cases (lookup p.data_id m)) [
    | inl e ↦ rw (e, clear_buffers) (clear_buffers-IsValid ps m v)
    | inr (r, e) ↦
        rw (e, clear_buffers)
          (clear_buffers-IsValid ps
            (insert p.data_id (record r { buffers = erase (to_int8 p.slot) r.buffers }) m)
            (replace-IsValid (with_records s m) p.data_id r _ v e refl refl))
  ]
