-- ===== src/Rates/Sums.antt =====
-- What a call of RateObjects adds to each record, and what it answers.
use super_mario_odyssey.Prelude.{
  ℕ, ◌+◌, ◌%◌, ◌<◌, ◌≡◌, refl, ap, ◌∙◌, Bool, true, false, ◌&&◌, Option, none, some, List, [], ◌∷◌,
  arith, ◌==◌, if◌then◌else◌, inl, inr, Option-cases, Bool-cases, ==_iff,
}
use super_mario_odyssey.Prelude.Map.{Map, lookup, insert, lookup-insert}
use super_mario_odyssey.Nex.{Nex}
use super_mario_odyssey.Balloon.{BalloonRecord, RatingInfo, result_data_store_not_found}
use super_mario_odyssey.Ratings.{u64_mod, u32_mod, rating_at, add_rating}
use super_mario_odyssey.Rates.{RatingTarget, sign_extend, rate, rate_all}

-- the sum of the values, and the number, of the ratings whose target passes a test
abbrev pub sum_of : (RatingTarget → Bool) → List (RatingTarget × ℕ) → ℕ
sum_of test [] = 0
sum_of test ((t, v) ∷ rest) = (if test t then sign_extend v else 0) + sum_of test rest

abbrev pub number_of : (RatingTarget → Bool) → List (RatingTarget × ℕ) → ℕ
number_of test [] = 0
number_of test ((t, v) ∷ rest) = (if test t then 1 else 0) + number_of test rest

abbrev pub targets : ℕ → RatingTarget → Bool
targets k t = t.data_id == k

abbrev pub targets_slot : ℕ → ℕ → RatingTarget → Bool
targets_slot k slot t = t.data_id == k && t.slot == slot

-- the ratings of one record, one after the other
abbrev rate_if : ℕ → RatingTarget → ℕ → BalloonRecord → BalloonRecord
rate_if k t v r = if t.data_id == k then rate t.slot (sign_extend v) r else r

abbrev rated : ℕ → List (RatingTarget × ℕ) → BalloonRecord → BalloonRecord
rated k [] r = r
rated k ((t, v) ∷ rest) r = rated k rest (rate_if k t v r)

-- The record after has, up to wrap-around, the sums and the numbers before and those of the call.
pub record IsRated (k : ℕ) (ps : List (RatingTarget × ℕ)) (r r' : BalloonRecord) : Type 0 where
  pub sum : r'.rating_sum ≡ (r.rating_sum + sum_of (targets k) ps) % u64_mod
  pub number : r'.rating_n ≡ (r.rating_n + number_of (targets k) ps) % u32_mod
  pub slot_sum :
      (slot : ℕ)
      → (rating_at slot r'.ratings).total % u64_mod
        ≡ ((rating_at slot r.ratings).total + sum_of (targets_slot k slot) ps) % u64_mod
  pub slot_number :
      (slot : ℕ)
      → (rating_at slot r'.ratings).count % u32_mod
        ≡ ((rating_at slot r.ratings).count + number_of (targets_slot k slot) ps) % u32_mod
  pub same_data : (r'.data_id ≡ r.data_id) × (r'.owner_id ≡ r.owner_id) × (r'.complete ≡ r.complete)

rating_at-insert :
    (j slot : ℕ) (x : RatingInfo) (m : Map RatingInfo)
    → rating_at slot (insert j x m) ≡ (if j == slot then x else rating_at slot m)
unfolding rating_at
rating_at-insert j slot x m = ground (arith, lookup-insert j slot x m)

rating_at-rate :
    (j slot v : ℕ) (r : BalloonRecord)
    → rating_at slot (rate j v r).ratings ≡ (
        if j == slot
        then record (rating_at slot r.ratings) {
          total = ((rating_at slot r.ratings).total + v) % u64_mod;
          count = ((rating_at slot r.ratings).count + 1) % u32_mod;
        }
        else rating_at slot r.ratings)
unfolding rate add_rating
rating_at-rate j slot v r = elim (Bool-cases (j == slot)) [
  | inl e ↦ let same : j ≡ slot = (==_iff j slot).0 e in rw (rating_at-insert, e, same) refl
  | inr e ↦ rw (rating_at-insert, e) refl
]

IsRated-other :
    (k v : ℕ) (t : RatingTarget) (ps : List (RatingTarget × ℕ)) (r r' : BalloonRecord)
    → (t.data_id == k) ≡ false
    → IsRated k ps r r'
    → IsRated k ((t, v) ∷ ps) r r'
IsRated-other k v t ps r r' e q = record {
  sum = rw e (omega (arith, q.sum));
  number = rw e (omega (arith, q.number));
  slot_sum = λ slot. rw e (omega (arith, q.slot_sum slot));
  slot_number = λ slot. rw e (omega (arith, q.slot_number slot));
  same_data = q.same_data;
}

IsRated-target :
    (k v : ℕ) (t : RatingTarget) (ps : List (RatingTarget × ℕ)) (r r' : BalloonRecord)
    → (t.data_id == k) ≡ true
    → IsRated k ps (rate t.slot (sign_extend v) r) r'
    → IsRated k ((t, v) ∷ ps) r r'
unfolding rate add_rating
IsRated-target k v t ps r r' e q = record {
  sum = rw e (omega (arith, q.sum));
  number = rw e (omega (arith, q.number));
  slot_sum =
      λ slot. ground (arith, e, q.slot_sum slot, rating_at-rate t.slot slot (sign_extend v) r);
  slot_number =
      λ slot. ground (arith, e, q.slot_number slot, rating_at-rate t.slot slot (sign_extend v) r);
  same_data = q.same_data;
}

rate-small :
    (slot v : ℕ) (r : BalloonRecord)
    → ((rate slot v r).rating_sum < u64_mod) × ((rate slot v r).rating_n < u32_mod)
unfolding rate add_rating
rate-small slot v r = (omega arith, omega arith)

rated-IsRated :
    (k : ℕ) (ps : List (RatingTarget × ℕ)) (r : BalloonRecord)
    → r.rating_sum < u64_mod
    → r.rating_n < u32_mod
    → IsRated k ps r (rated k ps r)
rated-IsRated k [] r small few = record {
  sum = omega arith;
  number = omega arith;
  slot_sum = λ slot. omega arith;
  slot_number = λ slot. omega arith;
  same_data = (refl, refl, refl);
}
rated-IsRated k ((t, v) ∷ rest) r small few = elim (Bool-cases (t.data_id == k)) [
  | inr e ↦ IsRated-other k v t rest r _ e (rw e (rated-IsRated k rest r small few))
  | inl e ↦
      let (small', few') = rate-small t.slot (sign_extend v) r in
      IsRated-target k v t rest r _ e
        (rw e (rated-IsRated k rest (rate t.slot (sign_extend v) r) small' few'))
]

abbrev rated_if : ℕ → List (RatingTarget × ℕ) → Option BalloonRecord → Option BalloonRecord
rated_if k ps none = none
rated_if k ps (some r) = some (rated k ps r)

rated_if-other :
    (k v : ℕ) (t : RatingTarget) (rest : List (RatingTarget × ℕ)) (o : Option BalloonRecord)
    → (t.data_id == k) ≡ false
    → rated_if k rest o ≡ rated_if k ((t, v) ∷ rest) o
rated_if-other k v t rest none e = refl
rated_if-other k v t rest (some r) e = rw e refl

module _ ⦃nex : Nex⦄ where
  lookup-rate_all :
      (k : ℕ) (ps : List (RatingTarget × ℕ)) (m : Map BalloonRecord)
      → lookup k (rate_all ps m).1 ≡ rated_if k ps (lookup k m)
  unfolding rate_all
  lookup-rate_all k [] m = elim (Option-cases (lookup k m)) [
    | inl e ↦ rw e refl
    | inr (r, e) ↦ rw e refl
  ]
  lookup-rate_all k ((t, v) ∷ rest) m = elim (Option-cases (lookup t.data_id m)) [
    | inl e ↦
        rw (e, rate_all)
          (lookup-rate_all k rest m ∙ elim (Bool-cases (t.data_id == k)) [
            | inl o ↦
                let missing : lookup k m ≡ none = rw ((==_iff t.data_id k).0 o) at e in
                rw missing refl
            | inr o ↦ rated_if-other k v t rest (lookup k m) o
          ])
    | inr (r, e) ↦
        rw (e, rate_all)
          (lookup-rate_all k rest (insert t.data_id (rate t.slot (sign_extend v) r) m)
            ∙ elim (Bool-cases (t.data_id == k)) [
              | inl o ↦
                  let stored : lookup k m ≡ some r = rw ((==_iff t.data_id k).0 o) at e in
                  rw (lookup-insert, o, stored, o) refl
              | inr o ↦ rw (lookup-insert, o) (rated_if-other k v t rest (lookup k m) o)
            ])
  ]

  -- A call of RateObjects adds to a stored record exactly the ratings whose target it is: the sum,
  -- the number, and for each slot the total and the count, at the width of each number. It keeps
  -- the id, the owner and the visibility of the record, whose sum and number fit their widths.
  pub rate_all-IsRated :
      (k : ℕ) (ps : List (RatingTarget × ℕ)) (m : Map BalloonRecord) (r : BalloonRecord)
      → lookup k m ≡ some r
      → r.rating_sum < u64_mod
      → r.rating_n < u32_mod
      → (r' : BalloonRecord) × (lookup k (rate_all ps m).1 ≡ some r') × IsRated k ps r r'
  rate_all-IsRated k ps m r e small few =
      (rated k ps r, lookup-rate_all k ps m ∙ rw e refl, rated-IsRated k ps r small few)

  -- the code for a target, by its record before the call, if there is one
  abbrev pub code_of : Option BalloonRecord → ℕ
  code_of none = nex.error_result result_data_store_not_found
  code_of (some r) = nex.success_result 0

  abbrev pub codes : Map BalloonRecord → List (RatingTarget × ℕ) → List ℕ
  codes m [] = []
  codes m ((t, v) ∷ rest) = code_of (lookup t.data_id m) ∷ codes m rest

  code_of-insert :
      (k j : ℕ) (q r : BalloonRecord) (m : Map BalloonRecord)
      → lookup k m ≡ some q
      → code_of (lookup j (insert k r m)) ≡ code_of (lookup j m)
  code_of-insert k j q r m e = elim (Bool-cases (k == j)) [
    | inl o ↦
        let stored : lookup j m ≡ some q = rw ((==_iff k j).0 o) at e in
        rw (lookup-insert, o, stored) refl
    | inr o ↦ rw (lookup-insert, o) refl
  ]

  codes-insert :
      (k : ℕ) (q r : BalloonRecord) (m : Map BalloonRecord) (ps : List (RatingTarget × ℕ))
      → lookup k m ≡ some q
      → codes (insert k r m) ps ≡ codes m ps
  codes-insert k q r m [] e = refl
  codes-insert k q r m ((t, v) ∷ rest) e =
      cc (code_of-insert k t.data_id q r m e, codes-insert k q r m rest e)

  -- RateObjects answers a pair of a target and a value with success if the record of the target is
  -- stored before the call, and with "not found" otherwise, whatever the other pairs are.
  pub results-rate_all :
      (ps : List (RatingTarget × ℕ)) (m : Map BalloonRecord) → (rate_all ps m).0.1 ≡ codes m ps
  unfolding rate_all
  results-rate_all [] m = refl
  results-rate_all ((t, v) ∷ rest) m = elim (Option-cases (lookup t.data_id m)) [
    | inl e ↦
        rw (e, rate_all)
          (ap (◌∷◌ (nex.error_result result_data_store_not_found)) (results-rate_all rest m))
    | inr (r, e) ↦
        rw (e, rate_all)
          (ap (◌∷◌ (nex.success_result 0)) (
            results-rate_all rest (insert t.data_id (rate t.slot (sign_extend v) r) m)
            ∙ codes-insert t.data_id r _ m rest e))
  ]
