-- ===== src/Persist/Restart.antt =====
-- A restart: what the flusher wrote is what the next run of the program begins with.
use mathlib.Core.List.Permᴰ
use super_mario_odyssey.Prelude.{
  ℕ, ◌+◌, ◌*◌, ◌/◌, ◌<◌, ◌≡◌, refl, ap, ◌∙◌, true, false, Option, none, some, List, [], ◌∷◌, map,
  arith, All, ◌==◌, if◌then◌else◌, inl, inr, Option-cases, Bool-cases,
}
use super_mario_odyssey.Prelude.Map.{Map, lookup, values, lookup-insert, insert-Distinct}
use super_mario_odyssey.Prelude.Member.{In, In-perm, In_of_lookup, lookup_of_In}
use super_mario_odyssey.Balloon.{BalloonRecord, PersistedRecord, Server, Env}
use super_mario_odyssey.Ratings.{u64_mod}
use super_mario_odyssey.Objects.{found_by, flag}
use super_mario_odyssey.Persist.{
  second, to_persisted, from_persisted, load_record, load_records, ds_load, FileWrite, file_after,
  ds_flush, boot,
}
use super_mario_odyssey.Invariant.{IsValid, Visits, Fits, saved_records}
use super_mario_odyssey.Invariant.Operations.{same-IsValid}

-- A record after a restart at the time `now`: without its buffers, and with the time of its post in
-- whole seconds, or `now` for a post in the first second of 1970.
abbrev pub restarted : ℕ → BalloonRecord → BalloonRecord
restarted now r = record r {
  buffers = [];
  created_wall = if r.created_wall / second == 0 then now else r.created_wall / second * second;
}

abbrev pub restarted_if : ℕ → Option BalloonRecord → Option BalloonRecord
restarted_if now none = none
restarted_if now (some r) = some (restarted now r)

-- the state after a round of the flusher, a stop and a start
abbrev pub flush_and_restart : Env → Env → Server → Server
flush_and_restart env env' s = ds_load env' (boot (ds_flush env FileWrite.whole s))

abbrev written : Map BalloonRecord → List PersistedRecord
written m = map to_persisted (values m)

module _ (now : ℕ) (stored : Map BalloonRecord)
    (keyed : (k : ℕ) (r : BalloonRecord) → lookup k stored ≡ some r → r.data_id ≡ k) where
  abbrev Agrees : Map BalloonRecord → Type 0
  Agrees m =
      (k : ℕ) (r : BalloonRecord) → In {A = ℕ × BalloonRecord} (k, r) m → lookup k stored ≡ some r

  lookup-load_record :
      (j k : ℕ) (q : BalloonRecord) (s : Server)
      → lookup j stored ≡ some q
      → lookup k (load_record now (to_persisted q) s).records
        ≡ (if j == k then some (restarted now q) else lookup k s.records)
  unfolding load_record to_persisted from_persisted
  lookup-load_record j k q s e = rw (keyed j q e, lookup-insert) refl

  load_keeps :
      (k : ℕ) (r : BalloonRecord) (m : Map BalloonRecord) (s : Server)
      → Agrees m
      → lookup k stored ≡ some r
      → lookup k s.records ≡ some (restarted now r)
      → lookup k (load_records now (written m) s).records ≡ some (restarted now r)
  unfolding load_records
  load_keeps k r [] s a e h = h
  load_keeps k r ((j, q) ∷ m) s a e h =
      load_keeps k r m (load_record now (to_persisted q) s) (λ i x n. a i x (inr n)) e
        (ground (arith, lookup-load_record j k q s (a j q (inl refl)), a j q (inl refl)))

  load_has :
      (k : ℕ) (r : BalloonRecord) (m : Map BalloonRecord) (s : Server)
      → Agrees m
      → In {A = ℕ × BalloonRecord} (k, r) m
      → lookup k (load_records now (written m) s).records ≡ some (restarted now r)
  unfolding load_records
  load_has k r [] s a i = absurd i
  load_has k r ((j, q) ∷ m) s a (inl same) =
      load_keeps k r m (load_record now (to_persisted q) s) (λ i x n. a i x (inr n))
        (a k r (inl same)) (ground (arith, lookup-load_record j k q s (a j q (inl refl)), same))
  load_has k r ((j, q) ∷ m) s a (inr i) =
      load_has k r m (load_record now (to_persisted q) s) (λ i x n. a i x (inr n)) i

  load_none :
      (k : ℕ) (m : Map BalloonRecord) (s : Server)
      → Agrees m
      → lookup k stored ≡ none
      → lookup k s.records ≡ none
      → lookup k (load_records now (written m) s).records ≡ none
  unfolding load_records
  load_none k [] s a e h = h
  load_none k ((j, q) ∷ m) s a e h =
      load_none k m (load_record now (to_persisted q) s) (λ i x n. a i x (inr n)) e
        (ground (arith, lookup-load_record j k q s (a j q (inl refl)), a j q (inl refl)))

-- What the load of a record needs: nobody has found anything yet.
abbrev Fresh : Server → Type 0
Fresh s = (pid k : ℕ) → flag k (found_by pid s) ≡ false

load_record-IsValid :
    (now : ℕ) (p : PersistedRecord) (s : Server)
    → p.data_id + 1 < u64_mod
    → Fresh s
    → IsValid s
    → IsValid (load_record now p s)
unfolding load_record from_persisted
load_record-IsValid now p s fits fresh v = record {
  saved_fits = v.saved_fits;
  distinct = insert-Distinct p.data_id _ s.records v.distinct;
  keyed = λ k r h.
      ground (arith, lookup-insert p.data_id k (from_persisted now p) s.records, v.keyed k r);
  below = λ k r h.
      ground (arith, lookup-insert p.data_id k (from_persisted now p) s.records, v.below k r);
  found_below = λ pid k f. absurd (ground (arith, fresh pid k));
  foreign = λ pid k r f h. absurd (ground (arith, fresh pid k));
}

load_records-IsValid :
    (now : ℕ) (ps : List PersistedRecord) (s : Server)
    → All Fits ps
    → Fresh s
    → IsValid s
    → IsValid (load_records now ps s)
unfolding load_records load_record
load_records-IsValid now [] s fits fresh v = v
load_records-IsValid now (p ∷ ps) s fits fresh v =
    load_records-IsValid now ps (load_record now p s) fits.1 fresh
      (load_record-IsValid now p s fits.0 fresh v)

boot-IsValid : (s : Server) → All Fits (saved_records s) → IsValid (boot s)
unfolding boot lookup
boot-IsValid s fits = record {
  saved_fits = fits;
  distinct = tt;
  keyed = λ k r h. cc;
  below = λ k r h. cc;
  found_below = λ pid k f. cc;
  foreign = λ pid k r f h. cc;
}

ds_load-IsValid : (env : Env) (s : Server) → Fresh s → IsValid s → IsValid (ds_load env s)
unfolding ds_load
ds_load-IsValid env s fresh v = elim (Option-cases s.saved) [
  | inl e ↦ simp (e, ds_load) v
  | inr (recs, e) ↦
      simp (e, ds_load) (load_records-IsValid env.wall recs s (rw e at v.saved_fits) fresh v)
]

-- A restart of a valid server, whatever its last state, its file and the changes that were not
-- written, leads to a valid server.
pub restart-IsValid : (env : Env) (s : Server) → IsValid s → IsValid (ds_load env (boot s))
unfolding boot lookup
restart-IsValid env s v = ds_load-IsValid env (boot s) (λ pid k. refl) (boot-IsValid s v.saved_fits)

written-Fits :
    (m : Map BalloonRecord)
    → ((k : ℕ) (r : BalloonRecord) → In {A = ℕ × BalloonRecord} (k, r) m → r.data_id + 1 < u64_mod)
    → All Fits (written m)
unfolding to_persisted
written-Fits [] fits = tt
written-Fits ((j, q) ∷ m) fits = (fits j q (inl refl), written-Fits m (λ k r i. fits k r (inr i)))

pub ds_flush-IsValid :
    (env : Env) (result : FileWrite) (s : Server)
    → s.next_id < u64_mod
    → Visits env
    → IsValid s
    → IsValid (ds_flush env result s)
unfolding ds_flush
ds_flush-IsValid env result s room visits v = elim (Bool-cases s.dirty) [
  | inr d ↦ simp d v
  | inl d ↦ simp d (flushed result)
]
  where
    fits : All Fits (written (env.visit 0 s.records))
    fits = written-Fits _ λ k r i.
        let e = lookup_of_In k r s.records v.distinct (In-perm _ (visits.once 0 s.records) i) in
        ground (arith, v.keyed k r e, v.below k r e)

    flushed :
        (w : FileWrite)
        → IsValid (record s {
          dirty = false;
          saved = file_after w (written (env.visit 0 s.records)) s.saved;
        })
    flushed FileWrite.whole = record {
      saved_fits = fits;
      distinct = v.distinct;
      keyed = v.keyed;
      below = v.below;
      found_below = v.found_below;
      foreign = v.foreign;
    }
    flushed FileWrite.untouched = same-IsValid s _ v refl refl refl refl
    flushed FileWrite.cut_off = record {
      saved_fits = tt;
      distinct = v.distinct;
      keyed = v.keyed;
      below = v.below;
      found_below = v.found_below;
      foreign = v.foreign;
    }

module _ (env env' : Env) (s : Server) (v : IsValid s) (visits : Visits env)
    (changed : s.dirty ≡ true) where
  abbrev start : Server
  start = boot (ds_flush env FileWrite.whole s)

  restart_lem :
      flush_and_restart env env' s ≡ load_records env'.wall (written (env.visit 0 s.records)) start
  unfolding ds_load ds_flush boot
  restart_lem = rw (changed, ds_flush) refl

  visited_is_stored : Agrees env'.wall s.records v.keyed (env.visit 0 s.records)
  visited_is_stored k r i =
      lookup_of_In k r s.records v.distinct (In-perm _ (visits.once 0 s.records) i)

  -- After a change of the store, a round of the flusher that writes the file and a restart, the
  -- store holds, under each id, the record that a valid server held, without its buffers and with
  -- the time of its post in whole seconds; it holds nothing under any other id.
  pub lookup-flush_and_restart :
      (k : ℕ)
      → lookup k (flush_and_restart env env' s).records
        ≡ restarted_if env'.wall (lookup k s.records)
  unfolding boot lookup
  lookup-flush_and_restart k =
      ap (λ (t : Server). lookup k t.records) restart_lem
      ∙ elim (Option-cases (lookup k s.records)) [
        | inl e ↦ rw e (
            load_none env'.wall s.records v.keyed k (env.visit 0 s.records) start visited_is_stored
              e refl)
        | inr (r, e) ↦ rw e (
            load_has env'.wall s.records v.keyed k r (env.visit 0 s.records) start visited_is_stored
              (In-perm _ (Permᴰ.symm (visits.once 0 s.records)) (In_of_lookup k r s.records e)))
      ]
