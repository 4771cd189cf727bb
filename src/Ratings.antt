-- ===== src/Ratings.antt =====
-- The ratings of datastore.go: ratingInfo, readRatingInitParams, readPersistenceSlot, ratingsOf,
-- addRating and writeRatings.
use super_mario_odyssey.Prelude.{
  ℕ, ◌+◌, ◌%◌, ◌^◌, ◌||◌, Option, none, some, [], ◌∷◌, ◌==◌, if◌then◌else◌,
}
use super_mario_odyssey.Prelude.Map.{Map, lookup, insert}
use super_mario_odyssey.Prelude.State.{pure, ◌>>=◌, ◌>>◌}
use super_mario_odyssey.Nex.{Nex}
use super_mario_odyssey.Balloon.{RatingInfo, zero_rating, BalloonRecord}
use super_mario_odyssey.Wire.{Reader, Writer, writes, read_struct_header, write_struct_header}

abbrev pub u64_mod : ℕ
u64_mod = 2 ^ 64

abbrev pub u32_mod : ℕ
u32_mod = 2 ^ 32

-- A missing slot reads as the zero value.
unfoldable pub rating_at : ℕ → Map RatingInfo → RatingInfo
rating_at slot m = elim (lookup slot m) [ none ↦ zero_rating | some info ↦ info ]

-- ratingsOf copies the map; `none` is the nil record.
unfoldable pub ratings_of : Option BalloonRecord → Map RatingInfo
ratings_of none = []
ratings_of (some r) = r.ratings

unfoldable pub add_rating : BalloonRecord → ℕ → ℕ → BalloonRecord
add_rating r slot value =
    let info = rating_at slot r.ratings in
    record r {
      ratings =
          insert slot
            (record info {
              total = (info.total + value) % u64_mod;
              count = (info.count + 1) % u32_mod;
            })
            r.ratings;
    }

module _ ⦃nex : Nex⦄ where
  open nex use {
    Heap, StreamIn, u8, u16, s8, s16, s32, s64, bool, failed, read_list, put_s8, put_s64, put_u32,
    write_map,
  }

  -- the reads of the callback; `none` where it leaves the map alone
  rating_init_param : StreamIn → Reader (Option (ℕ × RatingInfo))
  rating_init_param input = do
    ws ← read_struct_header input
    slot ← s8 ws
    p ← read_struct_header ws
    u8 p
    u8 p
    u8 p
    initial ← s64 p
    s32 p
    s32 p
    s8 p
    s16 p
    bad_ws ← failed ws
    bad_p ← failed p
    pure (
        if bad_ws || bad_p
        then none
        else some (slot, record { total = initial; count = 0; initial = initial }))

  keep_rating : Option (ℕ × RatingInfo) → Map RatingInfo → Map RatingInfo
  keep_rating none out = out
  keep_rating (some (slot, info)) out = insert slot info out

  -- the callback, which fills the map `out`
  read_rating_init_param : StreamIn → Heap × Map RatingInfo → Unit {0} × (Heap × Map RatingInfo)
  read_rating_init_param input (h, out) =
      let (param, h') = rating_init_param input h in (tt, (h', keep_rating param out))

  unfoldable pub read_rating_init_params : StreamIn → Reader (Map RatingInfo)
  unfolding read_rating_init_param rating_init_param keep_rating
  read_rating_init_params input h =
      let (_, end) = read_list (Unit {0}) (Map RatingInfo) input read_rating_init_param (h, []) in
      (end.1, end.0)

  unfoldable pub read_persistence_slot : StreamIn → Reader (Option ℕ)
  read_persistence_slot input = do
    p ← read_struct_header input
    slot ← u16 p
    bool p
    bad_p ← failed p
    bad_in ← failed input
    pure (if bad_p || bad_in || slot == 0xFFFF then none else some slot)

  unfoldable pub write_ratings : Map RatingInfo → Writer
  write_ratings m =
      write_map RatingInfo m put_s8 λ v.
        write_struct_header (writes (put_s64 v.total ∷ put_u32 v.count ∷ put_s64 v.initial ∷ []))
