-- ===== src/Search/Matches.antt =====
-- The list that SearchObject answers with.
use super_mario_odyssey.Prelude.{
  ℕ, zero, suc, ◌≤◌, ◌≡◌, ◌⊎◌, ◌↔◌, some, arith, refl, ap, true, false, List, [], ◌∷◌, All, length,
  take, keep, length-take-le, inl, inr,
}
use super_mario_odyssey.Prelude.Member.{In, In-perm, In-keep→, In-keep←, All-In, All-of_In}
use super_mario_odyssey.Prelude.Sort.{sort_slice, sort_slice-perm, sort_slice-IsSorted, IsSorted}
use mathlib.Core.List.Permᴰ
use super_mario_odyssey.Prelude.Map.{lookup, values}
use super_mario_odyssey.Balloon.{BalloonRecord, Server, Env}
use super_mario_odyssey.Invariant.{IsValid, Visits}
use super_mario_odyssey.Search.{newer, is_match, matches}
use super_mario_odyssey.Search.Pool.{In-visit, newer_asym, newer_trans}

In-take : (n : ℕ) (r : BalloonRecord) (xs : List BalloonRecord) → In r (take n xs) → In r xs
In-take zero r xs m = absurd m
In-take (suc n) r [] m = m
In-take (suc n) r (x ∷ xs) (inl e) = inl e
In-take (suc n) r (x ∷ xs) (inr m) = inr (In-take n r xs m)

All-take :
    (P : BalloonRecord → Type 0) (n : ℕ) (xs : List BalloonRecord) → All P xs → All P (take n xs)
All-take P zero xs h = tt
All-take P (suc n) [] h = tt
All-take P (suc n) (x ∷ xs) h = (h.0, All-take P n xs h.1)

take-IsSorted : (n : ℕ) (xs : List BalloonRecord) → IsSorted newer xs → IsSorted newer (take n xs)
take-IsSorted zero xs h = tt
take-IsSorted (suc n) [] h = tt
take-IsSorted (suc n) (x ∷ xs) h =
    (All-take (λ y. newer y x ≡ false) n xs h.0, take-IsSorted n xs h.1)

-- what a limit leaves out is not less than what it keeps, and it keeps as many as it may
left_out :
    (n : ℕ) (r : BalloonRecord) (xs : List BalloonRecord)
    → IsSorted newer xs
    → In r xs
    → ¬ In r (take n xs)
    → (length (take n xs) ≡ n) × ((x : BalloonRecord) → In x (take n xs) → newer r x ≡ false)
left_out zero r xs sorted m out = (refl, λ x i. absurd i)
left_out (suc n) r (y ∷ ys) sorted (inl e) out = absurd (out (inl e))
left_out (suc n) r (y ∷ ys) sorted (inr m) out =
    let (full, rest) = left_out n r ys sorted.1 m (λ i. out (inr i)) in (ap suc full, later rest)
  where
    later :
        ((x : BalloonRecord) → In x (take n ys) → newer r x ≡ false)
        → (x : BalloonRecord) → In x (y ∷ take n ys)
        → newer r x ≡ false
    later rest x (inl e) = rw e (All-In (λ z. newer z y ≡ false) r ys sorted.0 m)
    later rest x (inr i) = rest x i
left_out (suc n) r [] sorted m out = absurd m

-- The list puts newer records first: no record comes before one that was created later.
abbrev pub NewestFirst : List BalloonRecord → Type 0
NewestFirst [] = Unit
NewestFirst (x ∷ xs) = All (λ y. y.created_at ≤ x.created_at) xs × NewestFirst xs

le_of_newer : (a b : BalloonRecord) → newer b a ≡ false → b.created_at ≤ a.created_at
le_of_newer a b h = ground arith

pub NewestFirst-of_IsSorted : (xs : List BalloonRecord) → IsSorted newer xs → NewestFirst xs
NewestFirst-of_IsSorted [] h = tt
NewestFirst-of_IsSorted (x ∷ xs) (h, rest) = (
  All-of_In (λ y. y.created_at ≤ x.created_at) xs
      λ y m. le_of_newer x y (All-In (λ z. newer z x ≡ false) y xs h m),
  NewestFirst-of_IsSorted xs rest,
)

-- What a search by type asks for: a complete record of the type, or of any type if it asks for 0.
pub record IsMatch (data_type : ℕ) (r : BalloonRecord) : Type 0 where
  pub complete : r.complete ≡ true
  pub kind : (data_type ≡ 0) ⊎ (r.data_type ≡ data_type)

is_match_iff :
    (data_type : ℕ) (r : BalloonRecord) → (is_match data_type r ≡ true) ↔ IsMatch data_type r
is_match_iff data_type r = (
  λ h. record { complete = ground arith; kind = ground arith },
  λ m. ground (arith, m.complete, m.kind),
)

-- The newest of the stored records that match, newest first, at most a hundred; a match is left out
-- only if there are a hundred that are as new.
pub record IsTop (data_type : ℕ) (s : Server) (out : List BalloonRecord) : Type 0 where
  pub few : length out ≤ 100
  pub sorted : NewestFirst out
  pub match :
      (r : BalloonRecord) → In r out → (lookup r.data_id s.records ≡ some r) × IsMatch data_type r
  pub rest :
      (r : BalloonRecord)
      → lookup r.data_id s.records ≡ some r
      → IsMatch data_type r
      → ¬ In r out
      → (length out ≡ 100) × ((x : BalloonRecord) → In x out → r.created_at ≤ x.created_at)

-- On a valid server, SearchObject lists stored complete records of the type asked for (of all types
-- for the type 0), newest first, at most 100; if it leaves such a record out, then it lists 100 that
-- are as new or newer.
pub matches-IsTop :
    (env : Env) (s : Server) (data_type : ℕ)
    → IsValid s
    → Visits env
    → IsTop data_type s (matches data_type (values (env.visit 0 s.records)))
unfolding matches
matches-IsTop env s data_type v visits =
    let met = values (env.visit 0 s.records) in
    let kept = keep (is_match data_type) met in
    let perm = sort_slice-perm newer kept in
    let sorted = sort_slice-IsSorted newer newer_asym newer_trans kept in
    record {
      few = length-take-le 100 (sort_slice newer kept);
      sorted =
          NewestFirst-of_IsSorted (take 100 (sort_slice newer kept))
            (take-IsSorted 100 (sort_slice newer kept) sorted);
      match = λ r i.
          let (m, passed) =
            In-keep→ (is_match data_type) r met
              (In-perm r perm (In-take 100 r (sort_slice newer kept) i)) in
          ((In-visit env s 0 r v visits).0 m, (is_match_iff data_type r).0 passed);
      rest = λ r stored m out.
          let (full, least) =
            left_out 100 r (sort_slice newer kept) sorted
              (In-perm r (Permᴰ.symm perm) (
                In-keep← (is_match data_type) r met ((In-visit env s 0 r v visits).1 stored)
                  ((is_match_iff data_type r).1 m)))
              out in
          (full, λ x i. le_of_newer x r (least x i));
    }
