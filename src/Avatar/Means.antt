-- ===== src/Avatar/Means.antt =====
-- avatar.go, scaleInto: what a pixel of the destination is.
use native.Mathlib.Nat.{div-le_of_le-mul, le-div_iff_mul-le, mul-le-mul_right, mul-le-mul, mul_comm}
use super_mario_odyssey.Prelude.{
  ℕ, zero, suc, ◌+◌, ◌-◌, ◌*◌, ◌/◌, ◌%◌, ◌≤◌, ◌<◌, ◌≡◌, refl, ap, ◌∙◌, List, [], ◌∷◌, ◌++◌, arith,
  All, length, length-append,
}
use super_mario_odyssey.Ratings.{u64_mod}
use super_mario_odyssey.Avatar.{
  Image, Colour, Rgba, Sums, no_sums, add_colour, box_start, box_end, sum_row, sum_box, box_sums,
  channel, average, scale_row, scale_rows, scale_into,
}
use super_mario_odyssey.Avatar.Boxes.{IsBox-of_lt, IsBox-span}

-- a colour from `lo` to `hi`, channel by channel
pub record IsBetween (lo hi c : Colour) : Type 0 where
  pub red : (lo.red ≤ c.red) × (c.red ≤ hi.red)
  pub green : (lo.green ≤ c.green) × (c.green ≤ hi.green)
  pub blue : (lo.blue ≤ c.blue) × (c.blue ≤ hi.blue)

-- The pixels of the image are from `lo` to `hi`, of 16 bits. Nothing is said of points outside.
pub record HasColours (lo hi : Colour) (src : Image) : Type 0 where
  pub inside :
      (x y : ℕ)
      → src.min_x ≤ x
      → x < src.min_x + src.dx
      → src.min_y ≤ y
      → y < src.min_y + src.dy
      → IsBetween lo hi (src.at x y)
  pub bits : (hi.red ≤ 65535) × (hi.green ≤ 65535) × (hi.blue ≤ 65535)

-- n colours from `lo` to `hi` have been added up, without a wrap-around
pub record HasAdded (lo hi : Colour) (n : ℕ) (s : Sums) : Type 0 where
  pub count : s.n ≡ n
  pub red : (lo.red * n ≤ s.r) × (s.r ≤ hi.red * n)
  pub green : (lo.green * n ≤ s.g) × (s.g ≤ hi.green * n)
  pub blue : (lo.blue * n ≤ s.b) × (s.b ≤ hi.blue * n)

add-mod :
    (lo hi c n s : ℕ)
    → (lo ≤ c) × (c ≤ hi)
    → hi ≤ 65535
    → (n + 1) * 65535 < u64_mod
    → (lo * n ≤ s) × (s ≤ hi * n)
    → (lo * (n + 1) ≤ (s + c) % u64_mod) × ((s + c) % u64_mod ≤ hi * (n + 1))
add-mod lo hi c n s h b room k =
    let top : hi * (n + 1) ≤ 65535 * (n + 1) = mul-le-mul_right (n + 1) b in
    let kept : (s + c) % u64_mod ≡ s + c = omega (arith, h.1, k.1, top, room) in
    rw kept (omega (arith, h, k), omega (arith, h, k))

add_colour-HasAdded :
    (lo hi c : Colour) (n : ℕ) (s : Sums)
    → IsBetween lo hi c
    → (hi.red ≤ 65535) × (hi.green ≤ 65535) × (hi.blue ≤ 65535)
    → (n + 1) * 65535 < u64_mod
    → HasAdded lo hi n s
    → HasAdded lo hi (n + 1) (add_colour c s)
add_colour-HasAdded lo hi c n s h b room k = record {
  count = omega (arith, k.count, room);
  red = add-mod lo.red hi.red c.red n s.r h.red b.0 room k.red;
  green = add-mod lo.green hi.green c.green n s.g h.green b.1 room k.green;
  blue = add-mod lo.blue hi.blue c.blue n s.b h.blue b.2 room k.blue;
}

module _ (lo hi : Colour) (src : Image) (colours : HasColours lo hi src) where
  sum_row-HasAdded :
      (sy sx width n : ℕ) (s : Sums)
      → src.min_y ≤ sy
      → sy < src.min_y + src.dy
      → src.min_x ≤ sx
      → sx + width ≤ src.min_x + src.dx
      → (n + width) * 65535 < u64_mod
      → HasAdded lo hi n s
      → HasAdded lo hi (n + width) (sum_row src sy sx width s)
  unfolding sum_row
  sum_row-HasAdded sy sx zero n s y0 y1 x0 x1 room h =
      let same : n ≡ n + 0 = omega arith in rw (← same) h
  sum_row-HasAdded sy sx (suc width) n s y0 y1 x0 x1 room h =
      let same : n + 1 + width ≡ n + suc width = omega arith in
      let one =
        add_colour-HasAdded lo hi (src.at sx sy) n s (colours.inside sx sy x0 (omega arith) y0 y1)
          colours.bits (omega (arith, room)) h in
      rw (← same) (
        sum_row-HasAdded sy (sx + 1) width (n + 1) (add_colour (src.at sx sy) s) y0 y1 (omega arith)
          (omega (arith, x1)) (omega (arith, room)) one)

  sum_box-HasAdded :
      (sx width sy height n : ℕ) (s : Sums)
      → src.min_x ≤ sx
      → sx + width ≤ src.min_x + src.dx
      → src.min_y ≤ sy
      → sy + height ≤ src.min_y + src.dy
      → (n + height * width) * 65535 < u64_mod
      → HasAdded lo hi n s
      → HasAdded lo hi (n + height * width) (sum_box src sx width sy height s)
  unfolding sum_box
  sum_box-HasAdded sx width sy zero n s x0 x1 y0 y1 room h =
      let same : n ≡ n + 0 * width = omega arith in rw (← same) h
  sum_box-HasAdded sx width sy (suc height) n s x0 x1 y0 y1 room h =
      let same : n + width + height * width ≡ n + suc height * width = omega arith in
      let row =
        sum_row-HasAdded sy sx width n s y0 (omega (arith, y1)) x0 x1 (omega (arith, room)) h in
      rw (← same) (
        sum_box-HasAdded sx width (sy + 1) height (n + width) (sum_row src sy sx width s) x0 x1
          (omega arith) (omega (arith, y1)) (omega (arith, room)) row)

-- a pixel whose channels lie between the upper bytes of those of `lo` and `hi`
pub record IsMean (lo hi : Colour) (p : Rgba) : Type 0 where
  pub red : (lo.red / 256 ≤ p.r) × (p.r ≤ hi.red / 256)
  pub green : (lo.green / 256 ≤ p.g) × (p.g ≤ hi.green / 256)
  pub blue : (lo.blue / 256 ≤ p.b) × (p.b ≤ hi.blue / 256)
  pub opaque : p.a ≡ 0xff

channel-mean :
    (lo hi n sum : ℕ)
    → 0 < n
    → hi ≤ 65535
    → (lo * n ≤ sum) × (sum ≤ hi * n)
    → (lo / 256 ≤ channel sum n) × (channel sum n ≤ hi / 256)
channel-mean lo hi n sum p b h =
    let low : lo ≤ sum / n = (le-div_iff_mul-le {k = n} p).1 h.0 in
    let high : sum / n ≤ hi = div-le_of_le-mul n (omega (arith, h.1, mul_comm hi n)) in
    (omega (arith, low, high, b), omega (arith, low, high, b))

average-IsMean :
    (lo hi : Colour) (n : ℕ) (s : Sums)
    → 0 < n
    → (hi.red ≤ 65535) × (hi.green ≤ 65535) × (hi.blue ≤ 65535)
    → HasAdded lo hi n s
    → IsMean lo hi (average s)
average-IsMean lo hi n s p b h = rw h.count (record {
  red = channel-mean lo.red hi.red n s.r p b.0 h.red;
  green = channel-mean lo.green hi.green n s.g p b.1 h.green;
  blue = channel-mean lo.blue hi.blue n s.b p b.2 h.blue;
  opaque = refl;
})

module _ (lo hi : Colour) (src : Image) (colours : HasColours lo hi src) (dw dh : ℕ)
    (room : src.dy * src.dx * 65535 < u64_mod) (wide : 0 < src.dx) (high : 0 < src.dy) where
  box_sums-HasAdded :
      (x y : ℕ) → x < dw → y < dh → (n : ℕ) × (0 < n) × HasAdded lo hi n (box_sums src dw dh x y)
  unfolding box_sums
  box_sums-HasAdded x y hx hy =
      let bx = IsBox-of_lt src.min_x src.dx dw x hx wide in
      let by = IsBox-of_lt src.min_y src.dy dh y hy high in
      let (rx, sx, nx) = IsBox-span src.min_x src.dx dw x bx in
      let (ry, sy, ny) = IsBox-span src.min_y src.dy dh y by in
      let x0 = box_start src.min_x src.dx dw x in
      let y0 = box_start src.min_y src.dy dh y in
      let width = box_end src.min_x src.dx dw x - x0 in
      let height = box_end src.min_y src.dy dh y - y0 in
      let small : height * width ≤ src.dy * src.dx = mul-le-mul sy sx in
      let some_pixels : 1 * 1 ≤ height * width = mul-le-mul {n₁ = 1} {m₁ = 1} ny nx in
      (
        0 + height * width,
        omega (arith, some_pixels),
        sum_box-HasAdded lo hi src colours x0 width y0 height 0 no_sums bx.starts rx by.starts ry
            (omega (arith, small, room))
            (record {
              count = refl;
              red = (omega arith, omega arith);
              green = (omega arith, omega arith);
              blue = (omega arith, omega arith);
            }),
      )

  scale_row-IsMean :
      (y x n : ℕ) → y < dh → x + n ≤ dw → All (IsMean lo hi) (scale_row src dw dh y x n)
  unfolding scale_row
  scale_row-IsMean y x zero hy hx = tt
  scale_row-IsMean y x (suc n) hy hx =
      let (m, p, h) = box_sums-HasAdded x y (omega arith) hy in
      (
        average-IsMean lo hi m (box_sums src dw dh x y) p colours.bits h,
        scale_row-IsMean y (x + 1) n hy (omega arith),
      )

  scale_rows-IsMean : (y n : ℕ) → y + n ≤ dh → All (IsMean lo hi) (scale_rows src dw dh y n)
  unfolding scale_rows
  scale_rows-IsMean y zero h = tt
  scale_rows-IsMean y (suc n) h =
      All-append (scale_row src dw dh y 0 dw) (scale_rows src dw dh (y + 1) n)
        (scale_row-IsMean y 0 dw (omega arith) (omega arith))
        (scale_rows-IsMean (y + 1) n (omega arith))
    where
      All-append :
          (ps qs : List Rgba)
          → All (IsMean lo hi) ps
          → All (IsMean lo hi) qs
          → All (IsMean lo hi) (ps ++ qs)
      All-append [] qs a b = b
      All-append (p ∷ ps) qs a b = (a.0, All-append ps qs a.1 b)

  -- An image that is not empty and has few enough pixels for sums of 64 bits is scaled without a
  -- division by 0 and without a look outside its bounds: if the channels of its pixels lie between those of
  -- `lo` and of `hi`, of 16 bits, then the channels of the result lie between their upper bytes, and it is opaque.
  pub scale_into-IsMean : All (IsMean lo hi) (scale_into dw dh src)
  unfolding scale_into
  scale_into-IsMean = scale_rows-IsMean 0 dh (omega arith)

module _ (src : Image) (dw dh : ℕ) where
  length-scale_row : (y x n : ℕ) → length (scale_row src dw dh y x n) ≡ n
  unfolding scale_row
  length-scale_row y x zero = refl
  length-scale_row y x (suc n) = ap suc (length-scale_row y (x + 1) n)

  length-scale_rows : (y n : ℕ) → length (scale_rows src dw dh y n) ≡ n * dw
  unfolding scale_rows
  length-scale_rows y zero = omega arith
  length-scale_rows y (suc n) =
      length-append (scale_row src dw dh y 0 dw) (scale_rows src dw dh (y + 1) n)
      ∙ omega (arith, length-scale_row y 0 dw, length-scale_rows (y + 1) n)

  -- The result has a pixel for each place of the destination.
  pub length-scale_into : length (scale_into dw dh src) ≡ dh * dw
  unfolding scale_into
  length-scale_into = length-scale_rows 0 dh
