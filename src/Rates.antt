-- ===== src/Rates.antt =====
-- RateObject, GetRating and RateObjects of datastore.go.
pub mod Sums
use super_mario_odyssey.Prelude.{
  ℕ, ◌+◌, ◌-◌, ◌%◌, ◌^◌, Bool, Option, none, some, List, [], ◌∷◌, ltb, if◌then◌else◌,
}
use super_mario_odyssey.Prelude.Map.{Map, lookup, insert}
use super_mario_odyssey.Prelude.State.{State, pure, ◌>>=◌, ◌>>◌}
use super_mario_odyssey.Nex.{Nex, Connection, Request}
use super_mario_odyssey.Balloon.{BalloonRecord, Server, result_data_store_not_found}
use super_mario_odyssey.Wire.{
  Reader, Writer, writes, list_of, put_list, read_struct_header, write_struct_header, checked,
  parse, on_params, body_of, refuse, answer,
}
use super_mario_odyssey.Ratings.{u64_mod, u32_mod, add_rating}
use super_mario_odyssey.Posts.{mark_dirty}

-- int64(v) of an int32, on bit patterns
unfoldable pub sign_extend : ℕ → ℕ
sign_extend v = if ltb v (2 ^ 31) then v else v + (u64_mod - u32_mod)

-- one rating: the record's sum and number, then the slot
unfoldable pub rate : ℕ → ℕ → BalloonRecord → BalloonRecord
rate slot value r =
    add_rating
      (record r {
        rating_sum = (r.rating_sum + value) % u64_mod;
        rating_n = (r.rating_n + 1) % u32_mod;
      })
      slot value

unfoldable pub rate_record : ℕ → ℕ → ℕ → Map BalloonRecord → Map BalloonRecord
rate_record data_id slot value m = elim (lookup data_id m) [
  | none ↦ m
  | some r ↦ insert data_id (rate slot value r) m
]

pub record RatingTarget : Type 0 where
  pub data_id : ℕ
  pub slot : ℕ

-- the number of rounds is the shorter of the two lengths
unfoldable pub paired : List RatingTarget → List ℕ → List (RatingTarget × ℕ)
paired [] vs = []
paired (t ∷ ts) [] = []
paired (t ∷ ts) (v ∷ vs) = (t, v) ∷ paired ts vs

-- The loop of RateObjects. A pointer to a rated record is its key in the map, from which no round
-- removes anything.
unfoldable pub rate_all :
    ⦃nex : Nex⦄ → List (RatingTarget × ℕ) → State (Map BalloonRecord) (List (Option ℕ) × List ℕ)
rate_all [] m = (([], []), m)
rate_all ⦃nex⦄ ((t, v) ∷ rest) m = elim (lookup t.data_id m) [
  | none ↦
      let ((pointers, results), m') = rate_all rest m in
      ((none ∷ pointers, nex.error_result result_data_store_not_found ∷ results), m')
  | some r ↦
      let ((pointers, results), m') =
        rate_all rest (insert t.data_id (rate t.slot (sign_extend v) r) m) in
      ((some t.data_id ∷ pointers, nex.success_result 0 ∷ results), m')
]

-- what a pointer shows when the answer is written, after all rounds
unfoldable pub rating_shown : Map BalloonRecord → Bool → Option ℕ → ℕ × ℕ
rating_shown m fetch none = (0, 0)
rating_shown m fetch (some data_id) = elim (lookup data_id m) [
  | none ↦ (0, 0)
  | some r ↦ if fetch then (r.rating_sum, r.rating_n) else (0, 0)
]

module _ ⦃nex : Nex⦄ where
  open nex use {StreamIn, u64, s8, s32, s64, bool, put_u32, put_s64, Message}

  read_rate_object : StreamIn → Reader (Option (ℕ × ℕ × ℕ))
  read_rate_object input = do
    data_id ← u64 input
    slot ← s8 input
    value ← s64 input
    checked input (data_id, slot, value)

  unfoldable pub ds_rate_object : Connection → Request → State Server Message
  unfolding read_rate_object
  ds_rate_object conn req s =
      on_params req (parse read_rate_object req.body) s λ (data_id, slot, value). (
        answer req (body_of (writes (put_s64 value ∷ put_u32 1 ∷ []))),
        mark_dirty (record s { records = rate_record data_id slot value s.records }),
      )

  read_get_rating : StreamIn → Reader (Option ℕ)
  read_get_rating input = do data_id ← u64 input; s8 input; checked input data_id

  -- GetRating after its parse
  unfoldable pub get_rating : Request → ℕ → State Server Message
  get_rating req data_id s = elim (lookup data_id s.records) [
    | none ↦ (refuse req result_data_store_not_found, s)
    | some r ↦ (
      answer req (body_of (writes (put_s64 r.rating_sum ∷ put_u32 r.rating_n ∷ put_s64 0 ∷ []))),
      s,
    )
  ]

  unfoldable pub ds_get_rating : Connection → Request → State Server Message
  unfolding read_get_rating
  ds_get_rating conn req s =
      on_params req (parse read_get_rating req.body) s λ data_id. get_rating req data_id s

  read_target : StreamIn → Reader RatingTarget
  read_target input = do
    p ← read_struct_header input
    data_id ← u64 p
    slot ← s8 p
    pure (record { data_id = data_id; slot = slot })

  -- the access password is read and not kept
  read_value : StreamIn → Reader ℕ
  read_value input = do p ← read_struct_header input; value ← s32 p; u64 p; pure value

  read_rate_objects : StreamIn → Reader (Option (List RatingTarget × List ℕ × Bool))
  unfolding read_target read_value
  read_rate_objects input = do
    targets ← list_of RatingTarget input read_target
    params ← list_of ℕ input read_value
    bool input
    fetch_ratings ← bool input
    checked input (targets, params, fetch_ratings)

  unfoldable pub put_rating_shown : ℕ × ℕ → Writer
  put_rating_shown v = write_struct_header (writes (put_s64 v.0 ∷ put_u32 v.1 ∷ put_s64 0 ∷ []))

  unfoldable pub ds_rate_objects : Connection → Request → State Server Message
  unfolding read_rate_objects
  ds_rate_objects conn req s =
      on_params req (parse read_rate_objects req.body) s λ (targets, params, fetch).
        let ((pointers, results), m) = rate_all (paired targets params) s.records in
        (
          answer req (
              body_of (
                writes (
                  put_list pointers (λ p. put_rating_shown (rating_shown m fetch p))
                  ∷ put_list results put_u32
                  ∷ []))),
          mark_dirty (record s { records = m }),
        )
