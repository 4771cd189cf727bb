-- ===== src/Names.antt =====
-- dispName of dashboard.go: the display name of a player, with its cache.
pub mod Cache
use super_mario_odyssey.Prelude.{ℕ, ◌-◌, ◌%◌, String, none, some, [], ◌∷◌, ltb, if◌then◌else◌}
use super_mario_odyssey.Prelude.Map.{Map, lookup, insert}
use super_mario_odyssey.Prelude.State.{State}
use super_mario_odyssey.Prelude.Text.{join, decimal, text_eq}
use super_mario_odyssey.Balloon.{NameCacheEntry, Env}

-- one minute, in nanoseconds
abbrev pub name_cache_ttl : ℕ
name_cache_ttl = 60_000_000_000

unfoldable pub placeholder_name : ℕ → String
placeholder_name pid = join ("Player-" ∷ decimal (pid % 100000) ∷ [])

-- the account server's name, if it gives one that is not empty
unfoldable pub resolved_name : Env → ℕ → String
resolved_name env pid = elim (env.account_name pid) [
  | none ↦ placeholder_name pid
  | some name ↦ if text_eq name "" then placeholder_name pid else name
]

unfoldable pub refresh_name : Env → ℕ → State (Map NameCacheEntry) String
unfolding resolved_name
refresh_name env pid cache =
    let name = resolved_name env pid in
    (name, insert pid (record { name = name; at = env.wall }) cache)

unfoldable pub disp_name : Env → ℕ → State (Map NameCacheEntry) String
unfolding refresh_name
disp_name env pid cache = elim (lookup pid cache) [
  | none ↦ refresh_name env pid cache
  | some e ↦
      if ltb (env.wall - e.at) name_cache_ttl then (e.name, cache) else refresh_name env pid cache
]
