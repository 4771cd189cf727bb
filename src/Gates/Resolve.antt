-- ===== src/Gates/Resolve.antt =====
-- What a resolution of an id of a console promises.
use super_mario_odyssey.Prelude.{
  ℕ, ◌≡◌, ◌≢◌, ◌⊎◌, refl, Option, none, some, arith, ◌==◌, inl, inr, Option-cases, Bool-cases,
  ==_iff,
}
use super_mario_odyssey.Prelude.Map.{lookup, insert, lookup-insert, lookup-insert_self}
use super_mario_odyssey.Gates.{
  NsaStatus, NsaResponse, NsaCache, read_nsa_response, fetch_nsa, resolve_nsa_to_pid,
}

-- The account server has said that the console is linked to the account `pid`.
pub record Links (ask : ℕ → Option NsaResponse) (nsa pid : ℕ) : Type 0 where
  pub resp : NsaResponse
  pub said : ask nsa ≡ some resp
  pub status : resp.status_code ≡ 200
  pub linked : resp.pid ≡ some pid
  pub is_pid : pid ≢ 0

fetch_nsa-Links :
    (ask : ℕ → Option NsaResponse) (nsa pid : ℕ) (o : Option NsaResponse) (cache : NsaCache)
    → ask nsa ≡ o
    → (fetch_nsa o nsa cache).0 ≡ (pid, NsaStatus.nsa_ok)
    → Links ask nsa pid × ((fetch_nsa o nsa cache).1 ≡ insert nsa pid cache)
unfolding fetch_nsa read_nsa_response
fetch_nsa-Links ask nsa pid none cache a h = cc
fetch_nsa-Links ask nsa pid (some resp) cache a h = elim (Bool-cases (resp.status_code == 404)) [
  | inl e ↦ absurd (ground (arith, e, h))
  | inr e ↦ elim (Bool-cases (resp.status_code == 200)) [
    | inr f ↦ absurd (ground (arith, e, f, h))
    | inl f ↦ elim (Option-cases resp.pid) [
      | inl n ↦ absurd (ground (arith, e, f, n, h))
      | inr (q, n) ↦ elim (Bool-cases (q == 0)) [
        | inl z ↦ absurd (ground (arith, e, f, n, z, h))
        | inr z ↦
            let same : q ≡ pid = ground (arith, e, f, n, z, h) in
            (
              record {
                resp = resp;
                said = a;
                status = (==_iff resp.status_code 200).0 f;
                linked = rw (← same) n;
                is_pid = ground arith;
              },
              ground (arith, e, f, n, z, same),
            )
      ]
    ]
  ]
]

-- A resolution that ends well gives an id that the cache held for the console, or one that the
-- account server has just linked to it, in an answer with the status 200 and an id other than 0;
-- the cache then holds that id for the console, and for other consoles what it held before.
pub record IsResolved (ask : ℕ → Option NsaResponse) (nsa pid : ℕ) (cache after : NsaCache)
    : Type 0 where
  pub known : (lookup nsa cache ≡ some pid) ⊎ Links ask nsa pid
  pub stored : lookup nsa after ≡ some pid
  pub others : (k : ℕ) → k ≢ nsa → lookup k after ≡ lookup k cache

-- Fail closed: if the resolution of a console ends with an account, then the cache held that
-- account for the console, or the account server answered with the status 200 and that account,
-- which is not 0; the cache holds it from then on, and its other entries are as before.
pub resolve_nsa_to_pid-IsResolved :
    (ask : ℕ → Option NsaResponse) (nsa pid : ℕ) (cache : NsaCache)
    → (resolve_nsa_to_pid ask nsa cache).0 ≡ (pid, NsaStatus.nsa_ok)
    → IsResolved ask nsa pid cache (resolve_nsa_to_pid ask nsa cache).1
unfolding resolve_nsa_to_pid
resolve_nsa_to_pid-IsResolved ask nsa pid cache h = elim (Option-cases (lookup nsa cache)) [
  | inr (q, e) ↦
      let same : q ≡ pid = ground (arith, e, h) in
      rw (e, resolve_nsa_to_pid)
        (record { known = inl (rw (← same) e); stored = rw (← same) e; others = λ k ne. refl })
  | inl e ↦
      let (links, changed) =
        fetch_nsa-Links ask nsa pid (ask nsa) cache refl (rw (e, resolve_nsa_to_pid) at h) in
      rw (e, resolve_nsa_to_pid, changed)
        (record {
          known = inr links;
          stored = lookup-insert_self nsa pid cache;
          others = λ k ne. ground (arith, lookup-insert nsa k pid cache);
        })
]
