-- ===== src/Invariant/Operations.antt =====
-- The operations on the global variables keep the invariant.
use super_mario_odyssey.Prelude.{
  ℕ, ◌+◌, ◌<◌, ◌≡◌, ◌≢◌, refl, Bool, true, false, Option, none, some, arith, ◌==◌, inl, inr,
  Option-cases, Bool-cases,
}
use super_mario_odyssey.Prelude.Map.{
  lookup, insert, erase, lookup-insert, lookup-erase, insert-Distinct, erase-Distinct,
}
use super_mario_odyssey.Nex.{Bytes}
use super_mario_odyssey.Balloon.{BalloonRecord, Server, Env}
use super_mario_odyssey.Ratings.{u64_mod, add_rating}
use super_mario_odyssey.Posts.{
  PostParam, take_data_id, new_record, post_record, find_previous, delete_found,
  ds_delete_previous_balloon, complete_post, delete_object,
}
use super_mario_odyssey.Rates.{rate, rate_record}
use super_mario_odyssey.Buffers.{push_buffer, add_buffer}
use super_mario_odyssey.Objects.{found_by, mark_balloon_found, object_delete}
use super_mario_odyssey.Invariant.{IsValid}

-- A record is replaced by one with the same id and owner.
pub replace-IsValid :
    (s : Server) (k : ℕ) (r r' : BalloonRecord)
    → IsValid s
    → lookup k s.records ≡ some r
    → r'.data_id ≡ r.data_id
    → r'.owner_id ≡ r.owner_id
    → IsValid (record s { records = insert k r' s.records })
replace-IsValid s k r r' v e same own = record {
  saved_fits = v.saved_fits;
  distinct = insert-Distinct k r' s.records v.distinct;
  keyed = λ j q h. ground (arith, lookup-insert k j r' s.records, v.keyed j q, v.keyed k r);
  below = λ j q h. ground (arith, lookup-insert k j r' s.records, v.below j q, v.below k r);
  found_below = v.found_below;
  foreign = λ pid j q f h.
      ground (arith, lookup-insert k j r' s.records, v.foreign pid j q, v.foreign pid k r);
}

pub erase-IsValid :
    (s : Server) (k : ℕ) → IsValid s → IsValid (record s { records = erase k s.records })
erase-IsValid s k v = record {
  saved_fits = v.saved_fits;
  distinct = erase-Distinct k s.records v.distinct;
  keyed = λ j q h. ground (arith, lookup-erase k j s.records, v.keyed j q);
  below = λ j q h. ground (arith, lookup-erase k j s.records, v.below j q);
  found_below = v.found_below;
  foreign = λ pid j q f h. ground (arith, lookup-erase k j s.records, v.foreign pid j q);
}

-- What the invariant does not look at may change.
pub same-IsValid :
    (s s' : Server)
    → IsValid s
    → s'.records ≡ s.records
    → s'.next_id ≡ s.next_id
    → s'.found ≡ s.found
    → s'.saved ≡ s.saved
    → IsValid s'
same-IsValid s s' v e f g h = record {
  saved_fits = rw h v.saved_fits;
  distinct = rw e v.distinct;
  keyed = rw e v.keyed;
  below = rw (e, f) v.below;
  found_below = rw (f, g) v.found_below;
  foreign = rw (e, g) v.foreign;
}

pub rate_record-IsValid :
    (s : Server) (k slot value : ℕ)
    → IsValid s
    → IsValid (record s { records = rate_record k slot value s.records })
unfolding rate_record rate add_rating
rate_record-IsValid s k slot value v = elim (Option-cases (lookup k s.records)) [
  | inl e ↦ rw (e, rate_record) v
  | inr (r, e) ↦ rw (e, rate_record) (replace-IsValid s k r _ v e refl refl)
]

pub add_buffer-IsValid :
    (s : Server) (k slot : ℕ) (buf : Bytes)
    → IsValid s
    → IsValid (record s { records = add_buffer k slot buf s.records })
unfolding add_buffer push_buffer
add_buffer-IsValid s k slot buf v = elim (Option-cases (lookup k s.records)) [
  | inl e ↦ rw (e, add_buffer) v
  | inr (r, e) ↦ rw (e, add_buffer) (replace-IsValid s k r _ v e refl refl)
]

pub complete_post-IsValid :
    (k : ℕ) (is_success : Bool) (s : Server) → IsValid s → IsValid (complete_post k is_success s)
unfolding complete_post
complete_post-IsValid k true s v = elim (Option-cases (lookup k s.records)) [
  | inl e ↦ rw (e, complete_post) (same-IsValid s _ v refl refl refl refl)
  | inr (r, e) ↦
      rw (e, complete_post)
        (same-IsValid _ _ (replace-IsValid s k r (record r { complete = true }) v e refl refl) refl
          refl refl refl)
]
complete_post-IsValid k false s v = elim (Option-cases (lookup k s.records)) [
  | inl e ↦ rw (e, complete_post) (same-IsValid s _ v refl refl refl refl)
  | inr (r, e) ↦ rw (e, complete_post) (same-IsValid _ _ (erase-IsValid s k v) refl refl refl refl)
]

pub delete_object-IsValid : (k : ℕ) (s : Server) → IsValid s → IsValid (delete_object k s)
unfolding delete_object object_delete
delete_object-IsValid k s v = same-IsValid _ _ (erase-IsValid s k v) refl refl refl refl

delete_found-IsValid : (o : Option ℕ) (s : Server) → IsValid s → IsValid (delete_found o s).1
unfolding delete_found object_delete
delete_found-IsValid none s v = v
delete_found-IsValid (some old) s v = elim (Bool-cases (old == 0)) [
  | inl e ↦ rw e (erase-IsValid s old v)
  | inr e ↦ rw e (same-IsValid _ _ (erase-IsValid s old v) refl refl refl refl)
]

pub ds_delete_previous_balloon-IsValid :
    (env : Env) (owner data_type keep_id : ℕ) (s : Server)
    → IsValid s
    → IsValid (ds_delete_previous_balloon env owner data_type keep_id s).1
unfolding ds_delete_previous_balloon
ds_delete_previous_balloon-IsValid env owner data_type keep_id s v =
    delete_found-IsValid (find_previous owner data_type keep_id (env.visit 0 s.records)) s v

pub take_data_id_lem :
    (s : Server)
    → s.next_id + 1 < u64_mod
    → take_data_id s ≡ (s.next_id, record s { next_id = s.next_id + 1 })
unfolding take_data_id
take_data_id_lem s room = ground arith

-- A new record takes an id that nothing has used.
add_record-IsValid :
    (s : Server) (r : BalloonRecord) (b : Bool)
    → IsValid s
    → r.data_id ≡ s.next_id
    → IsValid
        (record s { next_id = s.next_id + 1; records = insert s.next_id r s.records; dirty = b })
add_record-IsValid s r b v same = record {
  saved_fits = v.saved_fits;
  distinct = insert-Distinct _ r s.records v.distinct;
  keyed = λ j q h. ground (arith, lookup-insert s.next_id j r s.records, v.keyed j q);
  below = λ j q h. ground (arith, lookup-insert s.next_id j r s.records, v.below j q);
  found_below = λ pid j f. ground (arith, v.found_below pid j f);
  foreign = λ pid j q f h.
      ground (arith, lookup-insert s.next_id j r s.records, v.foreign pid j q, v.found_below pid j);
}

pub post_record_lem :
    (env : Env) (owner : ℕ) (p : PostParam) (complete : Bool) (s : Server)
    → s.next_id + 1 < u64_mod
    → post_record env owner p complete s ≡ (
      s.next_id,
      record s {
        next_id = s.next_id + 1;
        records = insert s.next_id (new_record env s.next_id owner p complete) s.records;
        dirty = true;
      },
    )
unfolding post_record
post_record_lem env owner p complete s room = rw (take_data_id_lem s room)

pub post_record-IsValid :
    (env : Env) (owner : ℕ) (p : PostParam) (complete : Bool) (s : Server)
    → s.next_id + 1 < u64_mod
    → IsValid s
    → IsValid (post_record env owner p complete s).1
post_record-IsValid env owner p complete s room v =
    rw (post_record_lem env owner p complete s room) (
      add_record-IsValid s (new_record env s.next_id owner p complete) true v
        (unfold new_record in refl))

pub mark_balloon_found-IsValid :
    (pid k : ℕ) (r : BalloonRecord) (s : Server)
    → IsValid s
    → lookup k s.records ≡ some r
    → r.owner_id ≢ pid
    → IsValid (mark_balloon_found pid k s)
unfolding mark_balloon_found
mark_balloon_found-IsValid pid k r s v e other = record {
  saved_fits = v.saved_fits;
  distinct = v.distinct;
  keyed = v.keyed;
  below = v.below;
  found_below = λ q j f. ground (
    arith,
    lookup-insert pid q (insert k true (found_by pid s)) s.found,
    lookup-insert k j true (found_by pid s),
    v.below k r,
    v.found_below q j,
    v.found_below pid j,
  );
  foreign = λ q j x f h. ground (
    arith,
    lookup-insert pid q (insert k true (found_by pid s)) s.found,
    lookup-insert k j true (found_by pid s),
    v.foreign q j x,
    v.foreign pid j x,
  );
}
