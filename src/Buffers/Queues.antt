-- ===== src/Buffers/Queues.antt =====
-- The buffers of a slot as a queue: what the requests on buffer queues add, remove and show.
use mathlib.Core.List.{append_assoc, append-nil}
use super_mario_odyssey.Prelude.{
  ℕ, ◌≡◌, ◌≢◌, refl, sym, ap, ◌∙◌, Bool, false, ◌&&◌, ◌||◌, none, some, List, [], ◌∷◌, ◌++◌, arith,
  ◌==◌, if◌then◌else◌, inl, inr, Option-cases, Bool-cases, ==_iff,
}
use super_mario_odyssey.Prelude.Map.{Map, lookup, insert, erase, lookup-insert, lookup-erase}
use super_mario_odyssey.Nex.{Bytes, Nex}
use super_mario_odyssey.Balloon.{BalloonRecord}
use super_mario_odyssey.Buffers.{
  to_int8, buffers_at, push_buffer, BufferQueueParam, add_buffers, clear_buffers, queue_of,
}

-- a param names the queue of the slot of the record
abbrev pub names : ℕ → ℕ → BufferQueueParam → Bool
names k slot p = p.data_id == k && to_int8 p.slot == slot

-- the buffers that a call of AddToBufferQueues sends to one queue, in order
abbrev pub sent_to : ℕ → ℕ → List BufferQueueParam → List Bytes → List Bytes
sent_to k slot [] bufs = []
sent_to k slot (p ∷ ps) [] = []
sent_to k slot (p ∷ ps) (b ∷ bufs) =
    (if names k slot p then b ∷ [] else []) ++ sent_to k slot ps bufs

abbrev pub any_names : ℕ → ℕ → List BufferQueueParam → Bool
any_names k slot [] = false
any_names k slot (p ∷ ps) = names k slot p || any_names k slot ps

buffers_at-insert :
    (i slot : ℕ) (bs : List Bytes) (r : BalloonRecord)
    → buffers_at slot (record r { buffers = insert i bs r.buffers })
      ≡ (if i == slot then bs else buffers_at slot r)
unfolding buffers_at
buffers_at-insert i slot bs r = ground (arith, lookup-insert i slot bs r.buffers)

buffers_at-erase :
    (i slot : ℕ) (r : BalloonRecord)
    → buffers_at slot (record r { buffers = erase i r.buffers })
      ≡ (if i == slot then [] else buffers_at slot r)
unfolding buffers_at
buffers_at-erase i slot r = ground (arith, lookup-erase i slot r.buffers)

queue_of-insert :
    (j k slot : ℕ) (r : BalloonRecord) (m : Map BalloonRecord)
    → queue_of k slot (insert j r m) ≡ (if j == k then buffers_at slot r else queue_of k slot m)
unfolding queue_of
queue_of-insert j k slot r m = ground (arith, lookup-insert j k r m)

queue_of-stored :
    (k slot : ℕ) (r : BalloonRecord) (m : Map BalloonRecord)
    → lookup k m ≡ some r
    → queue_of k slot m ≡ buffers_at slot r
unfolding queue_of
queue_of-stored k slot r m e = rw (e, queue_of) refl

buffers_at-push_buffer :
    (i slot : ℕ) (b : Bytes) (r : BalloonRecord)
    → buffers_at slot (push_buffer i b r) ≡ buffers_at slot r ++ (if i == slot then b ∷ [] else [])
unfolding push_buffer
buffers_at-push_buffer i slot b r =
    ground
      (arith, buffers_at-insert i slot (buffers_at i r ++ b ∷ []) r, append-nil (buffers_at slot r))

-- one round of AddToBufferQueues
queue_of-push :
    (k slot : ℕ) (p : BufferQueueParam) (b : Bytes) (r : BalloonRecord) (m : Map BalloonRecord)
    → lookup p.data_id m ≡ some r
    → queue_of k slot (insert p.data_id (push_buffer (to_int8 p.slot) b r) m)
      ≡ queue_of k slot m ++ (if names k slot p then b ∷ [] else [])
queue_of-push k slot p b r m e = elim (Bool-cases (p.data_id == k)) [
  | inl o ↦
      rw (queue_of-insert, o)
        (buffers_at-push_buffer (to_int8 p.slot) slot b r
          ∙ ap (λ (bs : List Bytes). bs ++ (if to_int8 p.slot == slot then b ∷ [] else []))
              (sym (queue_of-stored k slot r m (rw ((==_iff p.data_id k).0 o) at e))))
  | inr o ↦ rw (queue_of-insert, o) (sym (append-nil (queue_of k slot m)))
]

sent_to-nil : (k slot : ℕ) (ps : List BufferQueueParam) → sent_to k slot ps [] ≡ []
sent_to-nil k slot [] = refl
sent_to-nil k slot (p ∷ ps) = refl

-- one round of ClearBufferQueues
queue_of-erased :
    (k slot : ℕ) (p : BufferQueueParam) (r : BalloonRecord) (m : Map BalloonRecord)
    → lookup p.data_id m ≡ some r
    → queue_of k slot (insert p.data_id (record r { buffers = erase (to_int8 p.slot) r.buffers }) m)
      ≡ (if names k slot p then [] else queue_of k slot m)
queue_of-erased k slot p r m e = elim (Bool-cases (p.data_id == k)) [
  | inl o ↦
      let stored = queue_of-stored k slot r m (rw ((==_iff p.data_id k).0 o) at e) in
      rw (queue_of-insert, o, buffers_at-erase, stored) refl
  | inr o ↦ rw (queue_of-insert, o) refl
]

queue_of-missing : (k slot : ℕ) (m : Map BalloonRecord) → lookup k m ≡ none → queue_of k slot m ≡ []
unfolding queue_of
queue_of-missing k slot m e = rw (e, queue_of) refl

queue_of-skipped :
    (k slot : ℕ) (p : BufferQueueParam) (m : Map BalloonRecord)
    → lookup p.data_id m ≡ none
    → queue_of k slot m ≡ (if names k slot p then [] else queue_of k slot m)
queue_of-skipped k slot p m e = elim (Bool-cases (names k slot p)) [
  | inl o ↦
      let same : p.data_id ≡ k = ground arith in rw o (queue_of-missing k slot m (rw same at e))
  | inr o ↦ rw o refl
]

if_named :
    (k slot : ℕ) (p : BufferQueueParam) (m : Map BalloonRecord) (rest : Bool) (q : List Bytes)
    → q ≡ (if names k slot p then [] else queue_of k slot m)
    → (if rest then [] else q) ≡ (if names k slot p || rest then [] else queue_of k slot m)
if_named k slot p m rest q e = ground (arith, e)

module _ ⦃nex : Nex⦄ where
  -- AddToBufferQueues appends to a queue of a stored record exactly the buffers whose param, at the
  -- same position, names the record and, by its last eight bits, the slot, in the order of the call.
  pub queue_of-add_buffers :
      (k slot : ℕ) (ps : List BufferQueueParam) (bufs : List Bytes) (m : Map BalloonRecord)
      → lookup k m ≢ none
      → queue_of k slot (add_buffers ps bufs m).1 ≡ queue_of k slot m ++ sent_to k slot ps bufs
  unfolding add_buffers
  queue_of-add_buffers k slot [] bufs m h = sym (append-nil (queue_of k slot m))
  queue_of-add_buffers k slot (p ∷ ps) [] m h =
      queue_of-add_buffers k slot ps [] m h ∙ ap (◌++◌ (queue_of k slot m)) (sent_to-nil k slot ps)
  queue_of-add_buffers k slot (p ∷ ps) (b ∷ bufs) m h = elim (Option-cases (lookup p.data_id m)) [
    | inl e ↦
        let other : (p.data_id == k) ≡ false = ground (arith, e) in
        rw (e, add_buffers, other) (queue_of-add_buffers k slot ps bufs m h)
    | inr (r, e) ↦
        let m' = insert p.data_id (push_buffer (to_int8 p.slot) b r) m in
        rw (e, add_buffers)
          (queue_of-add_buffers k slot ps bufs m'
              (ground (arith, lookup-insert p.data_id k (push_buffer (to_int8 p.slot) b r) m))
            ∙ (ap (λ (bs : List Bytes). bs ++ sent_to k slot ps bufs)
                  (queue_of-push k slot p b r m e)
                ∙ append_assoc (queue_of k slot m) (if names k slot p then b ∷ [] else [])
                    (sent_to k slot ps bufs)))
  ]

  -- ClearBufferQueues empties the queues that one of its params names, by record and by the last
  -- eight bits of the slot, and leaves every other queue as it was.
  pub queue_of-clear_buffers :
      (k slot : ℕ) (ps : List BufferQueueParam) (m : Map BalloonRecord)
      → queue_of k slot (clear_buffers ps m).1
        ≡ (if any_names k slot ps then [] else queue_of k slot m)
  unfolding clear_buffers
  queue_of-clear_buffers k slot [] m = refl
  queue_of-clear_buffers k slot (p ∷ ps) m = elim (Option-cases (lookup p.data_id m)) [
    | inl e ↦
        rw (e, clear_buffers)
          (queue_of-clear_buffers k slot ps m
            ∙ if_named k slot p m (any_names k slot ps) (queue_of k slot m)
                (queue_of-skipped k slot p m e))
    | inr (r, e) ↦
        rw (e, clear_buffers)
          (queue_of-clear_buffers k slot ps
              (insert p.data_id (record r { buffers = erase (to_int8 p.slot) r.buffers }) m)
            ∙ if_named k slot p m (any_names k slot ps) _ (queue_of-erased k slot p r m e))
  ]
