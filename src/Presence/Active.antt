-- ===== src/Presence/Active.antt =====
-- Which players activePIDs reports, and which entries it keeps.
use mathlib.Core.List.{Permᴰ}
use mathlib.Core.List.Permᴰ
use super_mario_odyssey.Prelude.{
  ℕ, ◌-◌, ◌<◌, ◌≡◌, ◌↔◌, refl, true, false, Option, none, some, List, [], ◌∷◌, arith, ◌==◌,
  if◌then◌else◌, inl, inr, Option-cases, Bool-cases, ap,
}
use super_mario_odyssey.Prelude.Map.{lookup, erase, Distinct, lookup-erase}
use super_mario_odyssey.Prelude.Member.{In, In-perm, In_of_lookup, lookup_of_In}
use super_mario_odyssey.Presence.{
  presence_ttl, Seen, is_active, active_loop, active_pids, PresenceBatch, batch_of, report_presence,
}

abbrev Entry : ℕ → ℕ → Seen → Type 0
Entry k t m = In {A = ℕ × ℕ} (k, t) m

-- an entry after the call
abbrev pub still : ℕ → Option ℕ → Option ℕ
still now none = none
still now (some t) = if is_active now t then some t else none

module _ (now : ℕ) where
  loop_none :
      (k : ℕ) (m seen : Seen) → lookup k seen ≡ none → lookup k (active_loop now m seen).1 ≡ none
  unfolding active_loop
  loop_none k [] seen e = e
  loop_none k ((pid, t) ∷ m) seen e = elim (Bool-cases (is_active now t)) [
    | inl a ↦ rw (a, active_loop) (loop_none k m seen e)
    | inr a ↦
        rw (a, active_loop)
          (loop_none k m (erase pid seen) (ground (arith, lookup-erase pid k seen)))
  ]

  loop_stale :
      (k t : ℕ) (m seen : Seen)
      → Entry k t m
      → is_active now t ≡ false
      → lookup k (active_loop now m seen).1 ≡ none
  unfolding active_loop
  loop_stale k t [] seen i stale = absurd i
  loop_stale k t ((pid, u) ∷ m) seen (inl same) stale =
      let old : is_active now u ≡ false = ground (arith, same) in
      rw (old, active_loop)
        (loop_none k m (erase pid seen) (ground (arith, same, lookup-erase pid k seen)))
  loop_stale k t ((pid, u) ∷ m) seen (inr i) stale = elim (Bool-cases (is_active now u)) [
    | inl a ↦ rw (a, active_loop) (loop_stale k t m seen i stale)
    | inr a ↦ rw (a, active_loop) (loop_stale k t m (erase pid seen) i stale)
  ]

  loop_fresh :
      (k : ℕ) (m seen : Seen)
      → ((t : ℕ) → Entry k t m → is_active now t ≡ true)
      → lookup k (active_loop now m seen).1 ≡ lookup k seen
  unfolding active_loop
  loop_fresh k [] seen f = refl
  loop_fresh k ((pid, u) ∷ m) seen f = elim (Bool-cases (is_active now u)) [
    | inl a ↦ rw (a, active_loop) (loop_fresh k m seen (λ t i. f t (inr i)))
    | inr a ↦ elim (Bool-cases (pid == k)) [
      | inl o ↦ absurd (ground (arith, f u (inl (ground arith)), a))
      | inr o ↦
          rw (a, active_loop)
            (ground (
              arith,
              loop_fresh k m (erase pid seen) (λ t i. f t (inr i)),
              lookup-erase pid k seen,
            ))
    ]
  ]

  loop_reports :
      (k : ℕ) (m seen : Seen)
      → In k (active_loop now m seen).0
      → (t : ℕ) × Entry k t m × (is_active now t ≡ true)
  unfolding active_loop
  loop_reports k [] seen i = absurd i
  loop_reports k ((pid, u) ∷ m) seen i = elim (Bool-cases (is_active now u)) [
    | inl a ↦ elim (rw (a, active_loop) at i) [
      | inl same ↦ (u, inl (ap (λ j. (j, u)) same), a)
      | inr j ↦ let (t, e, f) = loop_reports k m seen j in (t, inr e, f)
    ]
    | inr a ↦
        let (t, e, f) = loop_reports k m (erase pid seen) (rw (a, active_loop) at i) in
        (t, inr e, f)
  ]

  loop_reported :
      (k t : ℕ) (m seen : Seen)
      → Entry k t m
      → is_active now t ≡ true
      → In k (active_loop now m seen).0
  unfolding active_loop
  loop_reported k t [] seen i a = absurd i
  loop_reported k t ((pid, u) ∷ m) seen (inl same) a =
      let young : is_active now u ≡ true = ground (arith, same) in
      rw (young, active_loop) (inl (ground (arith, same)))
  loop_reported k t ((pid, u) ∷ m) seen (inr i) a = elim (Bool-cases (is_active now u)) [
    | inl y ↦ rw (y, active_loop) (inr (loop_reported k t m seen i a))
    | inr o ↦ rw (o, active_loop) (loop_reported k t m (erase pid seen) i a)
  ]

  module _ (visit : Seen → Seen) (seen : Seen) (d : Distinct seen)
      (once : Permᴰ (visit seen) seen) where
    -- If the loop of activePIDs meets each entry once, then the call keeps exactly the entries of
    -- the last minute, as they were.
    pub lookup-active_pids :
        (k : ℕ) → lookup k (active_pids now visit seen).1 ≡ still now (lookup k seen)
    unfolding active_pids
    lookup-active_pids k = elim (Option-cases (lookup k seen)) [
      | inl e ↦ rw e (loop_none k (visit seen) seen e)
      | inr (t, e) ↦ elim (Bool-cases (is_active now t)) [
        | inr a ↦
            rw (e, a)
              (loop_stale k t (visit seen) seen
                (In-perm _ (Permᴰ.symm once) (In_of_lookup k t seen e)) a)
        | inl a ↦
            rw (e, a)
              (ground (
                arith,
                loop_fresh k (visit seen) seen
                    λ u i. ground (arith, lookup_of_In k u seen d (In-perm _ once i), e, a),
                e,
              ))
      ]
    ]

    -- If the loop of activePIDs meets each entry once, then it reports exactly the players that were
    -- seen in the last minute.
    pub In-active_pids :
        (k : ℕ)
        → In k (active_pids now visit seen).0
          ↔ ((t : ℕ) × (lookup k seen ≡ some t) × (now - t < presence_ttl))
    unfolding active_pids
    In-active_pids k = (to, from)
      where
        to :
            In k (active_loop now (visit seen) seen).0
            → (t : ℕ) × (lookup k seen ≡ some t) × (now - t < presence_ttl)
        to i =
            let (t, e, a) = loop_reports k (visit seen) seen i in
            (t, lookup_of_In k t seen d (In-perm _ once e), ground arith)

        from :
            (t : ℕ) × (lookup k seen ≡ some t) × (now - t < presence_ttl)
            → In k (active_loop now (visit seen) seen).0
        from (t, e, a) =
            loop_reported k t (visit seen) seen
              (In-perm _ (Permᴰ.symm once) (In_of_lookup k t seen e)) (ground arith)

-- A round of the reporter: the entries of the last minute are kept; a batch holds exactly the
-- players of those, for this title and with the status "playing"; no batch means that there are none.
pub record IsReport (now : ℕ) (seen after : Seen) (batch : Option PresenceBatch) : Type 0 where
  pub kept : (k : ℕ) → lookup k after ≡ still now (lookup k seen)
  pub posted :
      (b : PresenceBatch)
      → batch ≡ some b
      → (k : ℕ) → In k b.pids ↔ ((t : ℕ) × (lookup k seen ≡ some t) × (now - t < presence_ttl))
  pub silent : batch ≡ none → (k t : ℕ) → lookup k seen ≡ some t → ¬ (now - t < presence_ttl)

batch_of-posted : (active : List ℕ) (b : PresenceBatch) → batch_of active ≡ some b → b.pids ≡ active
batch_of-posted [] b h = cc
batch_of-posted (pid ∷ active) b h = ground (arith, h)

batch_of-none : (active : List ℕ) → batch_of active ≡ none → (k : ℕ) → ¬ In k active
batch_of-none [] h k i = i
batch_of-none (pid ∷ active) h k i = cc

-- If the loop of activePIDs meets each entry once, a round of the reporter keeps the entries of the
-- last minute as they were and drops the others, posts a batch of exactly the players of those entries, and posts
-- nothing only if there are none.
pub report_presence-IsReport :
    (now : ℕ) (visit : Seen → Seen) (seen : Seen)
    → Distinct seen
    → Permᴰ (visit seen) seen
    → IsReport now seen (report_presence now visit seen).1 (report_presence now visit seen).0
unfolding report_presence
report_presence-IsReport now visit seen d once =
    let active = (active_pids now visit seen).0 in
    let exact = In-active_pids now visit seen d once in
    record {
      kept = lookup-active_pids now visit seen d once;
      posted = λ b h k. rw (batch_of-posted active b h) (exact k);
      silent = λ h k t e a. batch_of-none active h k ((exact k).1 (t, e, a));
    }
