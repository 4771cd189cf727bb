-- ===== src/Dashboard/Log.antt =====
-- dashboard.go, noteRMC: the counters are those of the log of the requests.
use mathlib.Core.List.{reverse, reverse-append}
use text.Mathlib.TextEquality.{eq_iff}
use super_mario_odyssey.Prelude.{
  ℕ, suc, ◌+◌, ◌-◌, ◌%◌, ◌≤◌, ◌≡◌, refl, sym, ap, ◌∙◌, Bool, true, false, not, String, Option, none,
  some, List, [], ◌∷◌, ◌++◌, map, arith, ltb, ◌==◌, if◌then◌else◌, inl, inr, Bool-cases,
  Option-cases, ==_iff, length, take, keep, length-append, length-reverse, reverse-drop, take-all,
  take-take,
}
use super_mario_odyssey.Prelude.Map.{Map, lookup, insert, lookup-insert, Distinct, insert-Distinct}
use super_mario_odyssey.Prelude.Text.{TextMap, lookup_text, lookup_text-insert_text, text_eq}
use super_mario_odyssey.Ratings.{u64_mod}
use super_mario_odyssey.Dashboard.{
  Call, Dash, no_dash, PlayerInfo, RmcEvent, rmc_name, event_of, add_event, count_at, count_method,
  count_session, info_of, touched, note_rmc,
}

-- The log has the newest call first.
abbrev pub note_all : List Call → Dash
note_all [] = no_dash
note_all (c ∷ log) = note_rmc c (note_all log)

-- calls of the player 0 are not counted
abbrev pub is_counted : Call → Bool
is_counted c = not (c.pid == 0)

abbrev pub tally : (Call → Bool) → List Call → ℕ
tally test [] = 0
tally test (c ∷ log) = (if test c then 1 else 0) + tally test log

abbrev pub is_named : String → Call → Bool
is_named name c = text_eq (rmc_name c.protocol c.method) name

abbrev pub is_by : ℕ → Call → Bool
is_by pid c = c.pid == pid

abbrev pub calls_of : Option PlayerInfo → ℕ
calls_of none = 0
calls_of (some pi) = pi.calls

abbrev pub calls_at : ℕ → Map PlayerInfo → ℕ
calls_at pid m = calls_of (lookup pid m)

-- The counters are those of the log, up to wrap-around: the total is its length, the events are its
-- hundred newest, each method and each player counts its calls, and the sessions are the players.
pub record HasNoted (log : List Call) (d : Dash) : Type 0 where
  pub total : d.rmc_total ≡ length log % u64_mod
  pub kept : reverse d.events ≡ take 100 (map event_of log)
  pub methods : (name : String) → count_at name d.method_count ≡ tally (is_named name) log % u64_mod
  pub calls : (pid : ℕ) → calls_at pid d.player_meta ≡ tally (is_by pid) log % u64_mod
  pub sessions : d.sessions_seen ≡ length d.player_meta % u64_mod
  pub distinct : Distinct d.player_meta

ltb-false : (a b : ℕ) → ltb a b ≡ false → b ≤ a
ltb-false a b h = ground arith

add_event-reverse :
    (c : Call) (log : List Call) (events : List RmcEvent)
    → reverse events ≡ take 100 (map event_of log)
    → reverse (add_event c events) ≡ take 100 (map event_of (c ∷ log))
unfolding add_event
add_event-reverse c log events h =
    let all = events ++ event_of c ∷ [] in
    let back : reverse all ≡ event_of c ∷ take 100 (map event_of log) =
      reverse-append events (event_of c ∷ []) ∙ ap (λ l. event_of c ∷ l) h in
    elim (Bool-cases (ltb 100 (length all))) [
      | inl e ↦
          let n : length all - (length all - 100) ≡ 100 = ground (arith, e) in
          rw e (
            reverse-drop (length all - 100) all
            ∙ ap (λ k. take k (reverse all)) n
            ∙ ap (take 100) back
            ∙ ap (λ l. event_of c ∷ l) (take-take 99 100 (map event_of log) (omega arith)))
      | inr e ↦
          let short : length (take 100 (map event_of log)) ≤ 99 = omega (
            arith,
            ltb-false 100 (length all) e,
            ap length h,
            length-reverse events,
            length-append events (event_of c ∷ []),
          ) in
          rw e (
            back
            ∙ ap (λ l. event_of c ∷ l)
                (sym (take-all 99 (take 100 (map event_of log)) short)
                  ∙ take-take 99 100 (map event_of log) (omega arith)))
    ]

count_at-count_method :
    (c : Call) (name : String) (m : TextMap ℕ)
    → count_at name (count_method c m)
      ≡ (if is_named name c then (count_at name m + 1) % u64_mod else count_at name m)
unfolding count_method
count_at-count_method c name m =
    let own = rmc_name c.protocol c.method in
    let n = (count_at own m + 1) % u64_mod in
    elim (Bool-cases (text_eq own name)) [
      | inl e ↦
          let same : own ≡ name = (eq_iff own name).0 e in
          rw (lookup_text-insert_text own name n m, e, same) refl
      | inr e ↦ rw (lookup_text-insert_text own name n m, e) refl
    ]

calls_at-touched :
    (c : Call) (pid : ℕ) (m : Map PlayerInfo)
    → calls_at pid (insert c.pid (touched c (info_of c (lookup c.pid m))) m)
      ≡ (if is_by pid c then (calls_at pid m + 1) % u64_mod else calls_at pid m)
calls_at-touched c pid m =
    let set = lookup-insert c.pid pid (touched c (info_of c (lookup c.pid m))) m in
    elim (Bool-cases (c.pid == pid)) [
      | inr e ↦ rw (set, e) refl
      | inl e ↦
          let same : c.pid ≡ pid = (==_iff c.pid pid).0 e in
          elim (Option-cases (lookup pid m)) [
            | inl f ↦ rw (set, e, same, f) refl
            | inr (pi, f) ↦ rw (set, e, same, f) refl
          ]
    ]

length-insert :
    (k : ℕ) (v : PlayerInfo) (m : Map PlayerInfo)
    → length (insert k v m) ≡ elim (lookup k m) [ none ↦ suc (length m) | some w ↦ length m ]
unfolding insert lookup
length-insert k v [] = refl
length-insert k v ((j, w) ∷ m) = ground (arith, length-insert k v m)

sessions_after :
    (c : Call) (d : Dash)
    → d.sessions_seen ≡ length d.player_meta % u64_mod
    → count_session (lookup c.pid d.player_meta) d.sessions_seen
      ≡ length (insert c.pid (touched c (info_of c (lookup c.pid d.player_meta))) d.player_meta)
        % u64_mod
sessions_after c d h =
    let size =
      length-insert c.pid (touched c (info_of c (lookup c.pid d.player_meta))) d.player_meta in
    elim (Option-cases (lookup c.pid d.player_meta)) [
      | inl e ↦ rw (size, e) (omega (arith, h))
      | inr (pi, e) ↦ rw (size, e) h
    ]

note_rmc-HasNoted :
    (c : Call) (log : List Call) (d : Dash)
    → (c.pid == 0) ≡ false
    → HasNoted log d
    → HasNoted (c ∷ log) (note_rmc c d)
unfolding note_rmc
note_rmc-HasNoted c log d e h = rw e (record {
  total = omega (arith, h.total);
  kept = add_event-reverse c log d.events h.kept;
  methods = λ name. ground (arith, count_at-count_method c name d.method_count, h.methods name);
  calls = λ pid. ground (arith, calls_at-touched c pid d.player_meta, h.calls pid);
  sessions = sessions_after c d h.sessions;
  distinct = insert-Distinct c.pid _ d.player_meta h.distinct;
})

note_rmc_of_0 : (c : Call) (d : Dash) → (c.pid == 0) ≡ true → note_rmc c d ≡ d
unfolding note_rmc
note_rmc_of_0 c d e = rw e refl

-- After any calls, the counters are those of the log of the calls whose player is not 0, up to wrap-around
-- at 64 bits: the total is its length, the events are its hundred newest in their order, each name of a method
-- and each player has the number of its calls, and the number of sessions is that of the players.
pub note_all-HasNoted : (log : List Call) → HasNoted (keep is_counted log) (note_all log)
unfolding keep
note_all-HasNoted [] = record {
  total = refl;
  kept = refl;
  methods = λ name. unfold lookup_text in refl;
  calls = λ pid. unfold lookup in refl;
  sessions = refl;
  distinct = tt;
}
note_all-HasNoted (c ∷ log) = elim (Bool-cases (c.pid == 0)) [
  | inl e ↦
      let shown : keep is_counted (c ∷ log) ≡ keep is_counted log = rw e refl in
      let same : note_rmc c (note_all log) ≡ note_all log = note_rmc_of_0 c (note_all log) e in
      rw (shown, same) (note_all-HasNoted log)
  | inr e ↦
      let shown : keep is_counted (c ∷ log) ≡ c ∷ keep is_counted log = rw e refl in
      rw shown (note_rmc-HasNoted c (keep is_counted log) (note_all log) e (note_all-HasNoted log))
]
