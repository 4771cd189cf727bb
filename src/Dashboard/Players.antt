-- ===== src/Dashboard/Players.antt =====
-- dashboard.go: the players and the events in the statistics.
use mathlib.Core.List.{Permᴰ}
use super_mario_odyssey.Prelude.{
  ℕ, ◌+◌, ◌≤◌, ◌≡◌, inl, inr, refl, sym, ap, ◌∙◌, Bool, true, false, ◌||◌, String, Option, none,
  some, List, [], ◌∷◌, map, arith, ◌==◌, if◌then◌else◌, length, take, keep, Bool-cases, ==_iff,
  take-take,
}
use super_mario_odyssey.Prelude.Map.{Map, lookup, insert, lookup-insert}
use super_mario_odyssey.Prelude.Sort.{sort_slice-perm}
use super_mario_odyssey.Balloon.{NameCacheEntry, Server, Env}
use super_mario_odyssey.Names.{disp_name}
use super_mario_odyssey.Dashboard.{Dash, PlayerInfo, Call, event_of}
use super_mario_odyssey.Dashboard.Log.{note_all, is_counted, note_all-HasNoted}
use super_mario_odyssey.Dashboard.Stats.{
  ApiPlayer, DashEnv, api_player, api_event, api_events, is_seen, players_loop, longer_online,
  peak_of, build_stats,
}

-- how many rows a player has
abbrev pub rows : ℕ → List ApiPlayer → ℕ
rows pid [] = 0
rows pid (p ∷ ps) = (if p.pid == pid then 1 else 0) + rows pid ps

abbrev pub is_among : ℕ → List ℕ → Bool
is_among pid [] = false
is_among pid (c ∷ conns) = c == pid || is_among pid conns

rows-perm : (pid : ℕ) {ps qs : List ApiPlayer} → Permᴰ ps qs → rows pid ps ≡ rows pid qs
rows-perm pid Permᴰ.nil = refl
rows-perm pid (Permᴰ.cons e p) = rw (e, rows-perm pid p) refl
rows-perm pid (Permᴰ.swap e f) = rw (e, f) (omega arith)
rows-perm pid (Permᴰ.trans p q) = rows-perm pid p ∙ rows-perm pid q

length-perm : {ps qs : List ApiPlayer} → Permᴰ ps qs → length ps ≡ length qs
length-perm Permᴰ.nil = refl
length-perm (Permᴰ.cons e p) = omega (arith, length-perm p)
length-perm (Permᴰ.swap e f) = refl
length-perm (Permᴰ.trans p q) = length-perm p ∙ length-perm q

pid-api_player :
    (now pid : ℕ) (name : String) (m : Option PlayerInfo) → (api_player now pid name m).pid ≡ pid
pid-api_player now pid name none = refl
pid-api_player now pid name (some m) = refl

is_seen-insert :
    (c pid : ℕ) (seen : Map Bool)
    → is_seen pid (insert c true seen) ≡ (c == pid || is_seen pid seen)
is_seen-insert c pid seen = elim (Bool-cases (c == pid)) [
  | inl e ↦ rw (lookup-insert c pid true seen, e) refl
  | inr e ↦ rw (lookup-insert c pid true seen, e) refl
]

-- the rows of a player who is connected once or more, unless the loop passes the player over
abbrev pub due : Bool → Bool → ℕ
due passed connected = if passed then 0 else if connected then 1 else 0

due_if_met :
    (pid c : ℕ) (seen : Map Bool) (a : Bool)
    → (c == 0 || is_seen c seen) ≡ true
    → due (pid == 0 || is_seen pid seen) a ≡ due (pid == 0 || is_seen pid seen) (c == pid || a)
due_if_met pid c seen a h = elim (Bool-cases (c == pid)) [
  | inr e ↦ rw e refl
  | inl e ↦
      let same : c ≡ pid = (==_iff c pid).0 e in
      let passed : (pid == 0 || is_seen pid seen) ≡ true = rw same at h in rw passed refl
]

due_if_new :
    (pid c : ℕ) (seen : Map Bool) (a : Bool)
    → (c == 0 || is_seen c seen) ≡ false
    → (if c == pid then 1 else 0) + due (pid == 0 || is_seen pid (insert c true seen)) a
      ≡ due (pid == 0 || is_seen pid seen) (c == pid || a)
due_if_new pid c seen a h = elim (Bool-cases (c == pid)) [
  | inr e ↦ rw (is_seen-insert c pid seen, e) (omega arith)
  | inl e ↦
      let same : c ≡ pid = (==_iff c pid).0 e in
      let passed : (pid == 0 || is_seen pid seen) ≡ false = rw same at h in
      let now : (pid == 0 || is_seen pid (insert c true seen)) ≡ true =
        rw (is_seen-insert c pid seen, e) (ground arith) in
      rw (e, passed, now) refl
]

module _ (env : Env) (snap : Map PlayerInfo) where
  -- a row for each id that is connected, is not 0 and was not met before
  rows-players_loop :
      (pid : ℕ) (conns : List ℕ) (seen : Map Bool) (cache : Map NameCacheEntry)
      → rows pid (players_loop env snap conns seen cache).0
        ≡ due (pid == 0 || is_seen pid seen) (is_among pid conns)
  unfolding players_loop
  rows-players_loop pid [] seen cache = elim (Bool-cases (pid == 0 || is_seen pid seen)) [
    | inl e ↦ rw e refl
    | inr e ↦ rw e refl
  ]
  rows-players_loop pid (c ∷ conns) seen cache = elim (Bool-cases (c == 0 || is_seen c seen)) [
    | inl e ↦
        rw (e, players_loop)
          (rows-players_loop pid conns seen cache ∙ due_if_met pid c seen (is_among pid conns) e)
    | inr e ↦
        let name = disp_name env c cache in
        rw
          (
            e,
            players_loop,
            pid-api_player env.wall c name.0 (lookup c snap),
            rows-players_loop pid conns (insert c true seen) name.1,
          )
          (due_if_new pid c seen (is_among pid conns) e)
  ]

  length-players_loop :
      (conns : List ℕ) (seen : Map Bool) (cache : Map NameCacheEntry)
      → length (players_loop env snap conns seen cache).0 ≤ length conns
  unfolding players_loop
  length-players_loop [] seen cache = omega arith
  length-players_loop (c ∷ conns) seen cache = elim (Bool-cases (c == 0 || is_seen c seen)) [
    | inl e ↦ rw (e, players_loop) (omega (arith, length-players_loop conns seen cache))
    | inr e ↦
        let name = disp_name env c cache in
        rw (e, players_loop) (omega (arith, length-players_loop conns (insert c true seen) name.1))
  ]

peak_of-le :
    (peak : ℕ) (conns : List ℕ) → (length conns ≤ peak_of peak conns) × (peak ≤ peak_of peak conns)
peak_of-le peak conns = ground arith

module _ (env : Env) (own : DashEnv) (conns : List ℕ) (d : Dash) (s : Server) where
  -- The statistics have one row for each player who has a connection, however many, and none for
  -- the player 0 or for one without a connection.
  pub build_stats-rows :
      (pid : ℕ)
      → rows pid (build_stats env own conns d s).0.0.players
        ≡ (if pid == 0 then 0 else if is_among pid conns then 1 else 0)
  unfolding build_stats
  build_stats-rows pid =
      let players = (players_loop env d.player_meta conns [] s.name_cache).0 in
      let clear : (pid == 0 || is_seen pid []) ≡ (pid == 0) = unfold lookup in ground arith in
      rows-perm pid (sort_slice-perm longer_online players)
      ∙ rows-players_loop env d.player_meta pid conns [] s.name_cache
      ∙ ap (λ b. due b (is_among pid conns)) clear

  -- The number of connected players is that of the rows, and at most the peak, which never falls;
  -- the peak that is shown is the one that is kept.
  pub build_stats-peak :
      ((build_stats env own conns d s).0.0.connected
        ≡ length (build_stats env own conns d s).0.0.players)
      × ((build_stats env own conns d s).0.0.connected
          ≤ (build_stats env own conns d s).0.0.peak_connected)
      × (d.peak_connected ≤ (build_stats env own conns d s).0.0.peak_connected)
      × ((build_stats env own conns d s).0.1.peak_connected
          ≡ (build_stats env own conns d s).0.0.peak_connected)
  unfolding build_stats
  build_stats-peak =
      let players = (players_loop env d.player_meta conns [] s.name_cache).0 in
      let fewer = length-players_loop env d.player_meta conns [] s.name_cache in
      (
        sym (length-perm (sort_slice-perm longer_online players)),
        omega (arith, fewer, peak_of-le d.peak_connected conns),
        (peak_of-le d.peak_connected conns).1,
        refl,
      )

-- After any calls, the events of the statistics are the forty newest calls of a player other than
-- 0, newest first.
pub build_stats-events :
    (env : Env) (own : DashEnv) (conns : List ℕ) (log : List Call) (s : Server)
    → (build_stats env own conns (note_all log) s).0.0.events
      ≡ map (api_event env.wall) (take 40 (map event_of (keep is_counted log)))
unfolding build_stats api_events
build_stats-events env own conns log s =
    let kept = (note_all-HasNoted log).kept in
    ap (λ l. map (api_event env.wall) (take 40 l)) kept
    ∙ ap (map (api_event env.wall))
        (take-take 40 100 (map event_of (keep is_counted log)) (omega arith))
