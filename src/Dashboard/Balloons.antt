-- ===== src/Dashboard/Balloons.antt =====
-- dashboard.go: the panel of balloons in the statistics.
use super_mario_odyssey.Prelude.{
  ℕ, zero, suc, ◌≤◌, ◌≡◌, ◌⊎◌, inl, inr, refl, ap, Bool, true, false, some, List, [], ◌∷◌, map, All,
  ltb, length, take,
}
use super_mario_odyssey.Prelude.Map.{lookup}
use super_mario_odyssey.Prelude.Member.{In}
use super_mario_odyssey.Prelude.Sort.{IsSorted}
use mathlib.Core.List.Permᴰ
use super_mario_odyssey.Balloon.{BalloonRecord, Server}
use super_mario_odyssey.Dashboard.Stats.{ApiBalloon, api_balloon}

-- membership in an image
pub In-map→ :
    {A B : Type 0} (f : A → B) (y : B) (xs : List A)
    → In y (map f xs)
    → (x : A) × In x xs × (y ≡ f x)
In-map→ f y [] h = absurd h
In-map→ f y (x ∷ xs) (inl e) = (x, inl refl, e)
In-map→ f y (x ∷ xs) (inr m) = let (z, i, e) = In-map→ f y xs m in (z, inr i, e)

pub In-map← : {A B : Type 0} (f : A → B) (x : A) (xs : List A) → In x xs → In (f x) (map f xs)
In-map← f x (y ∷ ys) (inl e) = inl (ap f e)
In-map← f x (y ∷ ys) (inr m) = inr (In-map← f x ys m)
In-map← f x [] m = absurd m

module _ {A : Type 0} where
  pub In-take : (n : ℕ) (x : A) (xs : List A) → In x (take n xs) → In x xs
  In-take zero x xs h = absurd h
  In-take (suc n) x [] h = absurd h
  In-take (suc n) x (y ∷ ys) (inl e) = inl e
  In-take (suc n) x (y ∷ ys) (inr m) = inr (In-take n x ys m)

  -- An element of a sorted list is among the first n, or there are n, none of which it precedes.
  pub In_or_behind :
      (less : A → A → Bool) (n : ℕ) (x : A) (xs : List A)
      → IsSorted less xs
      → In x xs
      → In x (take n xs) ⊎ ((length (take n xs) ≡ n) × All (λ y. less x y ≡ false) (take n xs))
  In_or_behind less zero x xs s m = inr (refl, tt)
  In_or_behind less (suc n) x [] s m = absurd m
  In_or_behind less (suc n) x (y ∷ ys) s (inl e) = inl (inl e)
  In_or_behind less (suc n) x (y ∷ ys) s (inr m) = elim (In_or_behind less n x ys s.1 m) [
    | inl i ↦ inl (inr i)
    | inr (e, h) ↦ inr (ap suc e, (All_In x y ys s.0 m, h))
  ]
    where
      All_In : (x y : A) (zs : List A) → All (λ z. less z y ≡ false) zs → In x zs → less x y ≡ false
      All_In x y [] a i = absurd i
      All_In x y (z ∷ zs) a (inl e) = rw e (a.0)
      All_In x y (z ∷ zs) a (inr i) = All_In x y zs a.1 i

-- The panel holds at most 40 rows, all of completed records of the store. A completed record is
-- among them, or there are 40 rows and none has a smaller id.
pub record IsPanel (now : ℕ) (s : Server) (shown : List ApiBalloon) : Type 0 where
  pub few : length shown ≤ 40
  pub stored :
      (b : ApiBalloon)
      → In b shown
      → (r : BalloonRecord) × (lookup r.data_id s.records ≡ some r)
        × (r.complete ≡ true)
        × (b ≡ api_balloon now r)
  pub newest :
      (r : BalloonRecord)
      → lookup r.data_id s.records ≡ some r
      → r.complete ≡ true
      → In (api_balloon now r) shown
        ⊎ ((length shown ≡ 40) × All (λ b. ltb b.data_id r.data_id ≡ false) shown)
