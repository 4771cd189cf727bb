-- ===== src/Lifetime/Operations.antt =====
-- The operations on the global variables move ids on.
use super_mario_odyssey.Prelude.{
  ℕ, ◌+◌, ◌<◌, ◌≡◌, refl, Bool, true, false, Option, none, some, arith, ltb, ◌==◌, inl, inr,
  Option-cases, Bool-cases, ==_iff,
}
use super_mario_odyssey.Prelude.Map.{lookup, insert, erase, lookup-insert, lookup-erase}
use super_mario_odyssey.Nex.{Bytes}
use super_mario_odyssey.Balloon.{BalloonRecord, Server, Env}
use super_mario_odyssey.Ratings.{u64_mod, add_rating}
use super_mario_odyssey.Posts.{
  PostParam, new_record, post_record, find_previous, delete_found, ds_delete_previous_balloon,
  complete_post, delete_object,
}
use super_mario_odyssey.Rates.{rate, rate_record}
use super_mario_odyssey.Buffers.{push_buffer, add_buffer}
use super_mario_odyssey.Objects.{found_by, mark_balloon_found, object_delete}
use super_mario_odyssey.Invariant.{IsValid}
use super_mario_odyssey.Invariant.Operations.{post_record_lem}
use super_mario_odyssey.Lifetime.{
  Card, card, Later, phase_at, phase_of_record, Follows, Follows-refl, Follows-trans,
}

-- what the view does not look at may change
pub same-Follows :
    (s s' : Server)
    → s'.records ≡ s.records
    → s'.next_id ≡ s.next_id
    → s'.found ≡ s.found
    → Follows s s'
same-Follows s s' e f g = record { later = λ k. rw (e, f) Later.stays; found = λ pid k h. rw g h }

Later-complete :
    (b c : Bool) (x : Card)
    → (b ≡ true → c ≡ true)
    → Later (phase_of_record b x) (phase_of_record c x)
Later-complete true true x h = Later.stays
Later-complete true false x h = absurd (ground (arith, h refl))
Later-complete false true x h = Later.appears
Later-complete false false x h = Later.stays

-- a record is replaced by one with the same card, which is complete if the first was
abbrev pub Keeps : BalloonRecord → BalloonRecord → Type 0
Keeps r r' = (card r' ≡ card r) × (r.complete ≡ true → r'.complete ≡ true)

Later-Keeps :
    (b : Bool) (r r' : BalloonRecord)
    → Keeps r r'
    → Later (phase_at b (some r)) (phase_at b (some r'))
Later-Keeps b r r' (same, grows) = rw same (Later-complete r.complete r'.complete (card r) grows)

pub replace-Follows :
    (s : Server) (k : ℕ) (r r' : BalloonRecord)
    → lookup k s.records ≡ some r
    → Keeps r r'
    → Follows s (record s { records = insert k r' s.records })
replace-Follows s k r r' e h = record {
  later = λ j. elim (Bool-cases (k == j)) [
    | inl q ↦
        let same : k ≡ j = (==_iff k j).0 q in
        let old : lookup j s.records ≡ some r = rw same at e in
        rw (lookup-insert k j r' s.records, q, old) (Later-Keeps (ltb j s.next_id) r r' h)
    | inr q ↦ rw (lookup-insert k j r' s.records, q) Later.stays
  ];
  found = λ pid j f. f;
}

-- a stored record goes, since its id is below the counter
Later-none :
    (k : ℕ) (s : Server)
    → IsValid s
    → Later (phase_at (ltb k s.next_id) (lookup k s.records)) (phase_at (ltb k s.next_id) none)
Later-none k s v = elim (Option-cases (lookup k s.records)) [
  | inl e ↦ rw e Later.stays
  | inr (r, e) ↦
      let given : ltb k s.next_id ≡ true = ground (arith, v.below k r e) in rw (e, given) Later.goes
]

pub erase-Follows :
    (s : Server) (k : ℕ) → IsValid s → Follows s (record s { records = erase k s.records })
erase-Follows s k v = record {
  later = λ j. elim (Bool-cases (k == j)) [
    | inl q ↦ rw (lookup-erase k j s.records, q) (Later-none j s v)
    | inr q ↦ rw (lookup-erase k j s.records, q) Later.stays
  ];
  found = λ pid j f. f;
}

add-Follows :
    (s : Server) (r : BalloonRecord) (b : Bool)
    → IsValid s
    → Follows s
        (record s { next_id = s.next_id + 1; records = insert s.next_id r s.records; dirty = b })
add-Follows s r b v = record {
  later = λ j. elim (Bool-cases (s.next_id == j)) [
    | inl q ↦ elim (Option-cases (lookup j s.records)) [
      | inl e ↦ let fresh : ltb j s.next_id ≡ false = ground (arith, q) in rw (e, fresh) Later.comes
      | inr (old, e) ↦ absurd (ground (arith, v.below j old e, q))
    ]
    | inr q ↦
        let other : ltb j (s.next_id + 1) ≡ ltb j s.next_id = ground (arith, q) in
        rw (lookup-insert s.next_id j r s.records, q, other) Later.stays
  ];
  found = λ pid j f. f;
}

pub rate_record-Follows :
    (s : Server) (k slot value : ℕ)
    → Follows s (record s { records = rate_record k slot value s.records })
unfolding rate_record rate add_rating
rate_record-Follows s k slot value = elim (Option-cases (lookup k s.records)) [
  | inl e ↦ rw (e, rate_record) (Follows-refl s)
  | inr (r, e) ↦ rw (e, rate_record) (replace-Follows s k r _ e (refl, λ c. c))
]

pub add_buffer-Follows :
    (s : Server) (k slot : ℕ) (buf : Bytes)
    → Follows s (record s { records = add_buffer k slot buf s.records })
unfolding add_buffer push_buffer
add_buffer-Follows s k slot buf = elim (Option-cases (lookup k s.records)) [
  | inl e ↦ rw (e, add_buffer) (Follows-refl s)
  | inr (r, e) ↦ rw (e, add_buffer) (replace-Follows s k r _ e (refl, λ c. c))
]

pub complete_post-Follows :
    (k : ℕ) (ok : Bool) (s : Server) → IsValid s → Follows s (complete_post k ok s)
unfolding complete_post
complete_post-Follows k true s v = elim (Option-cases (lookup k s.records)) [
  | inl e ↦ rw (e, complete_post) (same-Follows s _ refl refl refl)
  | inr (r, e) ↦
      rw (e, complete_post)
        (Follows-trans (replace-Follows s k r (record r { complete = true }) e (refl, λ c. refl))
          (same-Follows _ _ refl refl refl))
]
complete_post-Follows k false s v = elim (Option-cases (lookup k s.records)) [
  | inl e ↦ rw (e, complete_post) (same-Follows s _ refl refl refl)
  | inr (r, e) ↦
      rw (e, complete_post) (Follows-trans (erase-Follows s k v) (same-Follows _ _ refl refl refl))
]

pub delete_object-Follows : (k : ℕ) (s : Server) → IsValid s → Follows s (delete_object k s)
unfolding delete_object object_delete
delete_object-Follows k s v = Follows-trans (erase-Follows s k v) (same-Follows _ _ refl refl refl)

delete_found-Follows : (o : Option ℕ) (s : Server) → IsValid s → Follows s (delete_found o s).1
unfolding delete_found object_delete
delete_found-Follows none s v = Follows-refl s
delete_found-Follows (some old) s v = elim (Bool-cases (old == 0)) [
  | inl e ↦ rw e (erase-Follows s old v)
  | inr e ↦ rw e (Follows-trans (erase-Follows s old v) (same-Follows _ _ refl refl refl))
]

pub ds_delete_previous_balloon-Follows :
    (env : Env) (owner data_type keep_id : ℕ) (s : Server)
    → IsValid s
    → Follows s (ds_delete_previous_balloon env owner data_type keep_id s).1
unfolding ds_delete_previous_balloon
ds_delete_previous_balloon-Follows env owner data_type keep_id s v =
    delete_found-Follows (find_previous owner data_type keep_id (env.visit 0 s.records)) s v

pub post_record-Follows :
    (env : Env) (owner : ℕ) (p : PostParam) (complete : Bool) (s : Server)
    → s.next_id + 1 < u64_mod
    → IsValid s
    → Follows s (post_record env owner p complete s).1
post_record-Follows env owner p complete s room v =
    rw (post_record_lem env owner p complete s room)
      (add-Follows s (new_record env s.next_id owner p complete) true v)

pub mark_balloon_found-Follows : (pid k : ℕ) (s : Server) → Follows s (mark_balloon_found pid k s)
unfolding mark_balloon_found
mark_balloon_found-Follows pid k s = record {
  later = λ j. Later.stays;
  found = λ q j f. ground (
    arith,
    lookup-insert pid q (insert k true (found_by pid s)) s.found,
    lookup-insert k j true (found_by pid s),
  );
}
