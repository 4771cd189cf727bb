-- ===== src/Names/Cache.antt =====
-- What the cache of display names promises.
use super_mario_odyssey.Prelude.{
  ℕ, ◌-◌, ◌<◌, ◌≡◌, ◌≢◌, refl, String, some, arith, ltb, inl, inr, Option-cases, Bool-cases,
}
use super_mario_odyssey.Prelude.Map.{Map, lookup, lookup-insert, lookup-insert_self}
use super_mario_odyssey.Balloon.{NameCacheEntry, Env}
use super_mario_odyssey.Names.{name_cache_ttl, refresh_name, disp_name}

-- The name is in the cache after the call, in an entry that is less than a minute old, and the
-- entries of other players are as before.
pub record IsCached (env : Env) (pid : ℕ) (cache after : Map NameCacheEntry) (name : String)
    : Type 0 where
  pub entry : NameCacheEntry
  pub stored : lookup pid after ≡ some entry
  pub named : entry.name ≡ name
  pub young : env.wall - entry.at < name_cache_ttl
  pub others : (k : ℕ) → k ≢ pid → lookup k after ≡ lookup k cache

refresh_name-IsCached :
    (env : Env) (pid : ℕ) (cache : Map NameCacheEntry)
    → IsCached env pid cache (refresh_name env pid cache).1 (refresh_name env pid cache).0
unfolding refresh_name
refresh_name-IsCached env pid cache = record {
  entry = record { name = (refresh_name env pid cache).0; at = env.wall };
  stored = lookup-insert_self pid _ cache;
  named = refl;
  young = omega arith;
  others = λ k ne. ground (
    arith,
    lookup-insert pid k (record { name = (refresh_name env pid cache).0; at = env.wall }) cache,
  );
}

-- Asked for a name, the server gives the name of the player's entry after the call, which is less
-- than a minute old, and leaves the entries of other players as they were.
pub disp_name-IsCached :
    (env : Env) (pid : ℕ) (cache : Map NameCacheEntry)
    → IsCached env pid cache (disp_name env pid cache).1 (disp_name env pid cache).0
unfolding disp_name
disp_name-IsCached env pid cache = elim (Option-cases (lookup pid cache)) [
  | inl e ↦ rw (e, disp_name) (refresh_name-IsCached env pid cache)
  | inr (x, e) ↦ elim (Bool-cases (ltb (env.wall - x.at) name_cache_ttl)) [
    | inr old ↦ rw (e, disp_name, old) (refresh_name-IsCached env pid cache)
    | inl young ↦
        rw (e, disp_name, young)
          (record {
            entry = x;
            stored = e;
            named = refl;
            young = ground arith;
            others = λ k ne. refl;
          })
  ]
]

-- While the entry of a player is less than a minute old, the name is the entry's, whatever the
-- account server says, and the cache stays as it is.
pub disp_name_of_young :
    (env : Env) (pid : ℕ) (cache : Map NameCacheEntry) (x : NameCacheEntry)
    → lookup pid cache ≡ some x
    → env.wall - x.at < name_cache_ttl
    → disp_name env pid cache ≡ (x.name, cache)
unfolding disp_name
disp_name_of_young env pid cache x e young = rw (e, disp_name) (ground arith)

-- the answer, its entry and the use of a young entry
pub record IsAnswered (env : Env) (pid : ℕ) (cache : Map NameCacheEntry) : Type 0 where
  pub cached : IsCached env pid cache (disp_name env pid cache).1 (disp_name env pid cache).0
  pub reused :
      (x : NameCacheEntry)
      → lookup pid cache ≡ some x
      → env.wall - x.at < name_cache_ttl
      → disp_name env pid cache ≡ (x.name, cache)

-- Asked for a name, the server gives the name of the player's entry after the call, which is less
-- than a minute old, and leaves the entries of other players as they were; while an entry is less
-- than a minute old, it is used and stays, whatever the account server says.
pub disp_name-IsAnswered :
    (env : Env) (pid : ℕ) (cache : Map NameCacheEntry) → IsAnswered env pid cache
disp_name-IsAnswered env pid cache = record {
  cached = disp_name-IsCached env pid cache;
  reused = λ x e young. disp_name_of_young env pid cache x e young;
}
