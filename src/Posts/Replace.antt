-- ===== src/Posts/Replace.antt =====
-- PostMetaBinary: one completed record of a type for each player.
use mathlib.Core.List.Permᴰ
use super_mario_odyssey.Prelude.{
  ℕ, ◌+◌, ◌<◌, ◌≡◌, ◌≢◌, ◌↔◌, ◌⊎◌, refl, sym, ap, ◌∙◌, Bool, true, false, Option, none, some, [],
  ◌∷◌, arith, ◌==◌, if◌then◌else◌, inl, inr, Bool-cases, ==_iff,
}
use super_mario_odyssey.Prelude.Map.{
  Map, lookup, insert, erase, lookup-insert, lookup-erase, insert-Distinct,
}
use super_mario_odyssey.Prelude.Member.{In, In-perm, In_of_lookup, lookup_of_In}
use super_mario_odyssey.Nex.{Nex, Connection, Request}
use super_mario_odyssey.Balloon.{BalloonRecord, Server, Env, smo_achievement_data_type}
use super_mario_odyssey.Ratings.{u64_mod}
use super_mario_odyssey.Posts.{
  PostParam, is_previous, find_previous, delete_found, ds_delete_previous_balloon, new_record,
  post_meta_binary,
}
use super_mario_odyssey.Objects.{object_delete}
use super_mario_odyssey.Invariant.{IsValid, Visits}
use super_mario_odyssey.Invariant.Operations.{post_record_lem}

-- The id belongs to a completed record of the player and the type.
pub record Owns (s : Server) (owner data_type k : ℕ) : Type 0 where
  pub r : BalloonRecord
  pub stored : lookup k s.records ≡ some r
  pub own : r.owner_id ≡ owner
  pub kind : r.data_type ≡ data_type
  pub complete : r.complete ≡ true

module _ (owner data_type keep_id : ℕ) where
  abbrev previous : ℕ → BalloonRecord → Bool
  previous = is_previous owner data_type keep_id

  -- the search of the loop: nothing matches, or it stops at a match
  abbrev Searched : Map BalloonRecord → Type 0
  Searched m =
      ((find_previous owner data_type keep_id m ≡ none)
        × ((k : ℕ) (r : BalloonRecord)
            → In {A = ℕ × BalloonRecord} (k, r) m
            → previous k r ≡ false))
      ⊎ ((k : ℕ) × (r : BalloonRecord) × (find_previous owner data_type keep_id m ≡ some k)
          × In {A = ℕ × BalloonRecord} (k, r) m
          × (previous k r ≡ true))

  find_previous-Searched : (m : Map BalloonRecord) → Searched m
  unfolding find_previous
  find_previous-Searched [] = inl (refl, λ k r h. absurd h)
  find_previous-Searched ((k, r) ∷ m) = elim (Bool-cases (previous k r)) [
    | inl e ↦ inr (k, r, rw e, inl refl, e)
    | inr e ↦ elim (find_previous-Searched m) [
      | inl (f, none_left) ↦
          inl (rw e f, λ j q h. elim h [ inl p ↦ ground arith | inr i ↦ none_left j q i ])
      | inr (j, q, f, i, t) ↦ inr (j, q, rw e f, inr i, t)
    ]
  ]

records-delete_found :
    (o : Option ℕ) (s : Server)
    → (delete_found o s).1.records ≡ elim o [ none ↦ s.records | some k ↦ erase k s.records ]
unfolding delete_found object_delete
records-delete_found none s = refl
records-delete_found (some old) s = ground arith

module _ ⦃nex : Nex⦄ (env : Env) (conn : Connection) (req : Request) (p : PostParam) (s : Server)
    (v : IsValid s) (visits : Visits env) (room : s.next_id + 1 < u64_mod) where
  abbrev n : ℕ
  n = s.next_id

  abbrev posted : BalloonRecord
  posted = new_record env n conn.client p true

  abbrev with_posted : Map BalloonRecord
  with_posted = insert n posted s.records

  abbrev search : Option ℕ
  search = find_previous conn.client p.data_type n (env.visit 0 with_posted)

  abbrev after : Server
  after = (post_meta_binary env conn req p s).1

  records-after : after.records ≡ elim search [ none ↦ with_posted | some k ↦ erase k with_posted ]
  unfolding post_meta_binary ds_delete_previous_balloon
  records-after =
      ap
        (λ (x : ℕ × Server).
          (ds_delete_previous_balloon env conn.client p.data_type x.0 x.1).1.records)
        (post_record_lem env conn.client p true s room)
      ∙ records-delete_found search _

  lookup-after_none :
      (k : ℕ)
      → search ≡ none
      → lookup k after.records ≡ (if n == k then some posted else lookup k s.records)
  lookup-after_none k e = rw (records-after, e) (lookup-insert n k posted s.records)

  lookup-after_some :
      (k j : ℕ)
      → search ≡ some j
      → lookup k after.records
        ≡ (if j == k then none else (if n == k then some posted else lookup k s.records))
  lookup-after_some k j e = rw (records-after, e, lookup-erase, lookup-insert) refl

  -- a record that the loop takes was there before, and is the player's
  taken_is_owned :
      (k : ℕ) (r : BalloonRecord)
      → In {A = ℕ × BalloonRecord} (k, r) (env.visit 0 with_posted)
      → previous conn.client p.data_type n k r ≡ true
      → Owns s conn.client p.data_type k × (k ≢ n)
  taken_is_owned k r i t =
      let stored : lookup k with_posted ≡ some r =
        lookup_of_In k r with_posted (insert-Distinct n posted s.records v.distinct)
          (In-perm _ (visits.once 0 with_posted) i) in
      (
        record {
          r = r;
          stored = ground (arith, lookup-insert n k posted s.records);
          own = ground arith;
          kind = ground arith;
          complete = ground arith;
        },
        ground arith,
      )

  -- and what the player owned before is such a record
  owned_is_taken :
      (k : ℕ)
      → (o : Owns s conn.client p.data_type k)
      → In {A = ℕ × BalloonRecord} (k, o.r) (env.visit 0 with_posted)
        × (previous conn.client p.data_type n k o.r ≡ true)
  owned_is_taken k o = (
    In-perm _ (Permᴰ.symm (visits.once 0 with_posted)) (
        In_of_lookup k o.r with_posted
          (ground (arith, lookup-insert n k posted s.records, v.below k o.r o.stored))),
    ground (arith, v.below k o.r o.stored, o.own, o.kind, o.complete),
  )

  -- The new record is the only completed one of the player and the type.
  abbrev pub IsOnly : ℕ → Type 0
  IsOnly k = Owns after conn.client p.data_type k ↔ (k ≡ n)

  cases : Searched conn.client p.data_type n (env.visit 0 with_posted)
  cases = find_previous-Searched conn.client p.data_type n (env.visit 0 with_posted)

  lookup-after_new : lookup n after.records ≡ some posted
  lookup-after_new = elim cases [
    | inl (e, nothing) ↦ ground (arith, lookup-after_none n e)
    | inr (j, q, e, i, t) ↦
        let (owned, older) = taken_is_owned j q i t in
        ground (arith, lookup-after_some n j e, older)
  ]

  -- What becomes of an id: it is the new one, or its record is a completed one of the player and the
  -- type and is removed, or it holds what it held before.
  abbrev pub IsKept : ℕ → Type 0
  IsKept k =
      (k ≡ n)
      ⊎ (Owns s conn.client p.data_type k × (lookup k after.records ≡ none))
      ⊎ (lookup k after.records ≡ lookup k s.records)

  -- PostMetaBinary, on a valid server with room for an id, stores the new record under the new id,
  -- complete. Every other id either holds what it held before, or it held a completed record of the
  -- same player and type, which is removed.
  pub post_meta_binary-keeps : (k : ℕ) → (lookup n after.records ≡ some posted) × IsKept k
  post_meta_binary-keeps k = elim (Bool-cases (n == k)) [
    | inl same ↦ (lookup-after_new, inl (ground arith))
    | inr ne ↦ elim cases [
      | inl (e, nothing) ↦ (lookup-after_new, inr (inr (rw ne at (lookup-after_none k e))))
      | inr (j, q, e, i, t) ↦
          let (owned, older) = taken_is_owned j q i t in
          elim (Bool-cases (j == k)) [
            | inl gone ↦
                let removed : lookup k after.records ≡ none =
                  rw gone at (lookup-after_some k j e) in
                (lookup-after_new, inr (inl (rw (← (==_iff j k).0 gone) owned, removed)))
            | inr kept ↦ (lookup-after_new, inr (inr (rw (kept, ne) at (lookup-after_some k j e))))
          ]
    ]
  ]

  -- If a player has at most one completed balloon of a kingdom, a type other than 200, then after
  -- PostMetaBinary of that type, on a valid server with room for an id, a record is a completed one
  -- of the player and the type exactly if its id is the new one.
  pub post_meta_binary-IsOnly :
      p.data_type ≢ smo_achievement_data_type
      → ((i j : ℕ) → Owns s conn.client p.data_type i → Owns s conn.client p.data_type j → i ≡ j)
      → (k : ℕ) → IsOnly k
  unfolding new_record
  post_meta_binary-IsOnly kingdom unique k = (only, λ e. rw e new)
    where
      new : Owns after conn.client p.data_type n
      new = record {
        r = posted;
        stored = lookup-after_new;
        own = refl;
        kind = refl;
        complete = refl;
      }

      before :
          Owns after conn.client p.data_type k
          → lookup k after.records ≡ lookup k s.records
          → Owns s conn.client p.data_type k
      before o e = record {
        r = o.r;
        stored = sym e ∙ o.stored;
        own = o.own;
        kind = o.kind;
        complete = o.complete;
      }

      only : Owns after conn.client p.data_type k → k ≡ n
      only o = elim (Bool-cases (n == k)) [
        | inl same ↦ ground arith
        | inr ne ↦ elim cases [
          | inl (e, nothing) ↦
              let old = before o (rw ne at (lookup-after_none k e)) in
              let (i, t) = owned_is_taken k old in cc (nothing k o.r i, t)
          | inr (j, q, e, i, t) ↦ elim (Bool-cases (j == k)) [
            | inl gone ↦ absurd (ground (arith, lookup-after_some k j e, o.stored))
            | inr kept ↦
                let old = before o (rw (kept, ne) at (lookup-after_some k j e)) in
                let (owned, older) = taken_is_owned j q i t in
                absurd (ground (arith, unique k j old owned))
          ]
        ]
      ]
