-- ===== src/Avatar.antt =====
-- avatar.go: the pictures of players. Images are rectangles of colours; the answer of the picture
-- server with its decoded image, and the JPEG encoder, are parameters. Corners are not negative.
pub mod Boxes
pub mod Means
pub mod Cache
use super_mario_odyssey.Prelude.{
  ℕ, zero, suc, ◌+◌, ◌-◌, ◌*◌, ◌/◌, ◌%◌, ◌^◌, Bool, true, false, not, ◌&&◌, ◌||◌, Option, none,
  some, List, [], ◌∷◌, ◌++◌, ltb, leb, ◌==◌, if◌then◌else◌, replicate, String, length,
}
use super_mario_odyssey.Prelude.State.{State}
use super_mario_odyssey.Prelude.Text.{TextMap, lookup_text, insert_text, join, decimal}
use super_mario_odyssey.Nex.{Bytes}
use super_mario_odyssey.Strings.{Signed, after_prefix, parse_uint, parse_int, split, is_digit}
use super_mario_odyssey.Ratings.{u64_mod}

-- a colour's red, green and blue on 16 bits
pub record Colour : Type 0 where
  pub red : ℕ
  pub green : ℕ
  pub blue : ℕ

pub record Image : Type 0 where
  pub min_x : ℕ
  pub min_y : ℕ
  pub dx : ℕ
  pub dy : ℕ
  pub at : ℕ → ℕ → Colour

-- color.RGBA
pub record Rgba : Type 0 where
  pub r : ℕ
  pub g : ℕ
  pub b : ℕ
  pub a : ℕ

-- r, g, b, n
pub record Sums : Type 0 where
  pub r : ℕ
  pub g : ℕ
  pub b : ℕ
  pub n : ℕ

abbrev pub no_sums : Sums
no_sums = record { r = 0; g = 0; b = 0; n = 0 }

abbrev pub add_colour : Colour → Sums → Sums
add_colour c s = record {
  r = (s.r + c.red) % u64_mod;
  g = (s.g + c.green) % u64_mod;
  b = (s.b + c.blue) % u64_mod;
  n = (s.n + 1) % u64_mod;
}

-- the first and the last coordinate of a box: y0, y1 or x0, x1
abbrev pub box_start : ℕ → ℕ → ℕ → ℕ → ℕ
box_start min size count i = min + i * size / count

-- `if y1 <= y0 { y1 = y0 + 1 }`
abbrev pub at_least_one : ℕ → ℕ → ℕ
at_least_one start end = if leb end start then start + 1 else end

abbrev pub box_end : ℕ → ℕ → ℕ → ℕ → ℕ
box_end min size count i = at_least_one (box_start min size count i) (min + (i + 1) * size / count)

-- the loop over sx, for as many pixels as the box is wide
unfoldable pub sum_row : Image → ℕ → ℕ → ℕ → Sums → Sums
sum_row src sy sx zero s = s
sum_row src sy sx (suc width) s = sum_row src sy (sx + 1) width (add_colour (src.at sx sy) s)

-- the loop over sy
unfoldable pub sum_box : Image → ℕ → ℕ → ℕ → ℕ → Sums → Sums
unfolding sum_row
sum_box src sx width sy zero s = s
sum_box src sx width sy (suc height) s =
    sum_box src sx width (sy + 1) height (sum_row src sy sx width s)

-- uint8(r / n >> 8)
abbrev pub channel : ℕ → ℕ → ℕ
channel sum n = sum / n / 256 % 256

abbrev pub average : Sums → Rgba
average s = record { r = channel s.r s.n; g = channel s.g s.n; b = channel s.b s.n; a = 0xff }

unfoldable pub box_sums : Image → ℕ → ℕ → ℕ → ℕ → Sums
unfolding sum_box
box_sums src dw dh x y =
    let x0 = box_start src.min_x src.dx dw x in
    let y0 = box_start src.min_y src.dy dh y in
    sum_box src x0 (box_end src.min_x src.dx dw x - x0) y0 (box_end src.min_y src.dy dh y - y0)
      no_sums

unfoldable pub scale_row : Image → ℕ → ℕ → ℕ → ℕ → ℕ → List Rgba
unfolding box_sums
scale_row src dw dh y x zero = []
scale_row src dw dh y x (suc n) = average (box_sums src dw dh x y) ∷ scale_row src dw dh y (x + 1) n

unfoldable pub scale_rows : Image → ℕ → ℕ → ℕ → ℕ → List Rgba
unfolding scale_row
scale_rows src dw dh y zero = []
scale_rows src dw dh y (suc n) = scale_row src dw dh y 0 dw ++ scale_rows src dw dh (y + 1) n

-- scaleInto: the pixels of the destination, row after row
unfoldable pub scale_into : ℕ → ℕ → Image → List Rgba
unfolding scale_rows
scale_into dw dh src = scale_rows src dw dh 0 dh

-- five minutes, in nanoseconds
abbrev pub avatar_cache_ttl : ℕ
avatar_cache_ttl = 300_000_000_000

pub record AvatarEntry : Type 0 where
  pub jpeg : Bytes
  pub at : ℕ

-- an answer of the picture server: the status code, and the image, if the body decodes
pub record AvatarResponse : Type 0 where
  pub status_code : ℕ
  pub image : Option Image

pub record AvatarEnv : Type 0 where
  pub now : ℕ
  pub ask_avatar : ℕ → Option AvatarResponse
  -- jpeg.Encode of a square of this side
  pub encode_jpeg : ℕ → List Rgba → Option Bytes

unfoldable pub image_of : Option AvatarResponse → Option Image
image_of none = none
image_of (some resp) = if resp.status_code == 200 then resp.image else none

unfoldable pub fetch_avatar : AvatarEnv → ℕ → Option Image
unfolding image_of
fetch_avatar env pid = image_of (env.ask_avatar pid)

abbrev pub blank : Rgba
blank = record { r = 0xb4; g = 0xb4; b = 0xb4; a = 0xb4 }

unfoldable pub draw : ℕ → Option Image → List Rgba
unfolding scale_into
draw size none = replicate (size * size) blank
draw size (some src) = scale_into size size src

unfoldable pub avatar_key : ℕ → ℕ → String
avatar_key pid size = join (decimal pid ∷ "/" ∷ decimal size ∷ [])

-- `src`, which stays nil for the id 0
unfoldable pub source_of : AvatarEnv → ℕ → Option Image
source_of env pid = if pid == 0 then none else fetch_avatar env pid

-- the empty text for an image that cannot be encoded
unfoldable pub make_avatar : AvatarEnv → ℕ → ℕ → State (TextMap AvatarEntry) Bytes
unfolding source_of
make_avatar env pid size cache = elim (env.encode_jpeg size (draw size (source_of env pid))) [
  | none ↦ ([], cache)
  | some jpeg ↦
      (jpeg, insert_text (avatar_key pid size) (record { jpeg = jpeg; at = env.now }) cache)
]

unfoldable pub avatar_jpeg : AvatarEnv → ℕ → ℕ → State (TextMap AvatarEntry) Bytes
unfolding make_avatar
avatar_jpeg env pid size cache = elim (lookup_text (avatar_key pid size) cache) [
  | none ↦ make_avatar env pid size cache
  | some e ↦
      if ltb (env.now - e.at) avatar_cache_ttl
      then (e.jpeg, cache)
      else make_avatar env pid size cache
]

-- strconv.Atoi of the query's size, from 32 to 512, or 128
abbrev pub size_or : Option Signed → ℕ
size_or none = 128
size_or (some n) = if not n.negative && leb 32 n.size && leb n.size 512 then n.size else 128

unfoldable pub avatar_size : Bytes → ℕ
avatar_size s = size_or (parse_int s)

-- the part of a path behind its last '/'
abbrev pub last_of : List Bytes → Bytes
last_of [] = []
last_of (p ∷ []) = p
last_of (p ∷ q ∷ ps) = last_of (q ∷ ps)

unfoldable pub thumb_of : Bytes → Bytes
thumb_of path = last_of (split b'/' path)

abbrev pub trim_prefix : Bytes → Bytes → Bytes
trim_prefix p s = elim (after_prefix p s) [ none ↦ s | some rest ↦ rest ]

-- the value that strconv.ParseUint gives, beside an error or not: 0 for an error of syntax, and the
-- greatest number for a number that is too large
unfoldable pub value_of_digits : ℕ → Bytes → ℕ
value_of_digits n [] = n
value_of_digits n (c ∷ s) =
    let m = n * 10 + (c - b'0') in
    let rest = value_of_digits m s in
    if not (is_digit c) then 0 else if ltb m (2 ^ 64) then rest else 2 ^ 64 - 1

abbrev pub pid_prefix : Bytes
pid_prefix = b'p' ∷ b'i' ∷ b'd' ∷ b'_' ∷ []

-- the id of the query, or else of the path
abbrev pub pid_or : Option ℕ → Bytes → ℕ
pid_or (some pid) path = pid
pid_or none path = value_of_digits 0 (trim_prefix pid_prefix (thumb_of path))

-- the body and its length, in the header Content-Length
pub record AvatarReply : Type 0 where
  pub content_length : ℕ
  pub body : Bytes

-- `serve`, with the path of the URL and the values of its query
unfoldable pub serve_avatar :
    AvatarEnv → Bytes → Bytes → Bytes → State (TextMap AvatarEntry) AvatarReply
unfolding thumb_of value_of_digits avatar_jpeg
serve_avatar env path size pid cache =
    let (body, cache') = avatar_jpeg env (pid_or (parse_uint pid) path) (avatar_size size) cache in
    (record { content_length = length body; body = body }, cache')
