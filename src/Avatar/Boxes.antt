-- ===== src/Avatar/Boxes.antt =====
-- avatar.go, scaleInto: the boxes lie in the source and cover it.
use native.Mathlib.Nat.{
  div-lt_iff_lt-mul, le-div_iff_mul-le, div-le_of_le-mul, div-mul-le_self, mul-lt-mul_of_pos_right,
  mul-le-mul_right, mul_comm, mul-div_cancel_left,
}
use super_mario_odyssey.Prelude.{ℕ, ◌+◌, ◌-◌, ◌*◌, ◌/◌, ◌≤◌, ◌<◌, ◌≡◌, ap, ◌∙◌, arith}
use super_mario_odyssey.Avatar.{box_start, box_end, at_least_one}

at_least_one-lt : (s e : ℕ) → s < at_least_one s e
at_least_one-lt s e = ground arith

at_least_one-le : (s e t : ℕ) → s < t → e ≤ t → at_least_one s e ≤ t
at_least_one-le s e t h k = ground arith

at_least_one_id : (s e : ℕ) → s < e → at_least_one s e ≡ e
at_least_one_id s e h = ground arith

-- The box of i begins in the source, is not empty and ends in the source.
pub record IsBox (min size count i : ℕ) : Type 0 where
  pub starts : min ≤ box_start min size count i
  pub full : box_start min size count i < box_end min size count i
  pub ends : box_end min size count i ≤ min + size

-- how far a box reaches
span :
    (min size a b : ℕ)
    → min ≤ a
    → a < b
    → b ≤ min + size
    → (a + (b - a) ≤ min + size) × (b - a ≤ size) × (1 ≤ b - a)
span min size a b h k l = (omega arith, omega arith, omega arith)

pub IsBox-span :
    (min size count i : ℕ)
    → IsBox min size count i
    → (box_start min size count i + (box_end min size count i - box_start min size count i)
        ≤ min + size)
      × (box_end min size count i - box_start min size count i ≤ size)
      × (1 ≤ box_end min size count i - box_start min size count i)
IsBox-span min size count i b =
    span min size (box_start min size count i) (box_end min size count i) b.starts b.full b.ends

pub IsBox-of_lt : (min size count i : ℕ) → i < count → 0 < size → IsBox min size count i
IsBox-of_lt min size count i h p =
    let start : i * size / count < size =
      (div-lt_iff_lt-mul {k = count} (omega arith)).1
        (omega (arith, mul-lt-mul_of_pos_right h p, mul_comm size count)) in
    let end : (i + 1) * size / count ≤ size =
      div-le_of_le-mul count (mul-le-mul_right size (omega arith)) in
    record {
      starts = omega arith;
      full = at_least_one-lt (min + i * size / count) (min + (i + 1) * size / count);
      ends =
          at_least_one-le (min + i * size / count) (min + (i + 1) * size / count) (min + size)
            (omega (arith, start)) (omega (arith, end));
    }

-- Where the source is at least as large as the destination, a box ends where the next one begins.
pub box-next :
    (min size count i : ℕ)
    → i < count
    → count ≤ size
    → box_end min size count i ≡ box_start min size count (i + 1)
box-next min size count i h k =
    let q = i * size / count in
    let grows : q + 1 ≤ (i + 1) * size / count =
      (le-div_iff_mul-le {k = count} (omega arith)).1
        (omega (arith, div-mul-le_self (i * size) count)) in
    at_least_one_id (min + q) (min + (i + 1) * size / count) (omega (arith, grows))

-- The boxes of a side cover it, one after the other: the first begins with the source, each begins
-- where the one before it ends, and the last ends with the source.
pub record IsCover (min size count : ℕ) : Type 0 where
  pub first : box_start min size count 0 ≡ min
  pub next : (i : ℕ) → i < count → box_end min size count i ≡ box_start min size count (i + 1)
  pub last : (i : ℕ) → i + 1 ≡ count → box_end min size count i ≡ min + size

-- If the side of the source has at least as many pixels as that of the destination, and that has one, the
-- boxes cover it: no pixel is left out and none is counted twice.
pub boxes-IsCover : (min size count : ℕ) → 0 < count → count ≤ size → IsCover min size count
boxes-IsCover min size count p h = record {
  first = omega arith;
  next = λ i k. box-next min size count i k h;
  last = λ i e.
      box-next min size count i (omega arith) h
      ∙ ap (λ n. min + n * size / count) e
      ∙ ap (λ n. min + n) (mul-div_cancel_left size p);
}
