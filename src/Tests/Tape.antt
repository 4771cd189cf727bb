-- ===== src/Tests/Tape.antt =====
-- A small concrete instance of the interface `Nex`, for the witnesses: a stream is a list of cells,
-- every integer takes one cell, and a buffer or a list begins with its length. A text is written as
-- its code points and read back as the empty text.
use Prim.Native.Char.{code}
use Prim.Native.String.{String}
use super_mario_odyssey.Prelude.{
  ℕ, zero, suc, Bool, true, false, not, List, [], ◌∷◌, ◌++◌, length, take, ◌==◌, if◌then◌else◌,
}
use super_mario_odyssey.Prelude.Map.{Map}
use super_mario_odyssey.Prelude.State.{State}
use super_mario_odyssey.Nex.{Bytes, Nex}

-- the cells that are left, and whether a read went wrong
abbrev pub Tape : Type 0
Tape = Bytes × Bool

abbrev pub Tapes : Type 0
Tapes = List Tape

abbrev pub tape_at : Tapes → ℕ → Tape
tape_at [] i = ([], true)
tape_at (t ∷ ts) zero = t
tape_at (t ∷ ts) (suc i) = tape_at ts i

abbrev pub set_tape : Tapes → ℕ → Tape → Tapes
set_tape [] i t = []
set_tape (x ∷ xs) zero t = t ∷ xs
set_tape (x ∷ xs) (suc i) t = x ∷ set_tape xs i t

abbrev pub drop_cells : ℕ → Bytes → Bytes
drop_cells zero b = b
drop_cells (suc n) [] = []
drop_cells (suc n) (x ∷ xs) = drop_cells n xs

abbrev pub open_tape : Bytes → State Tapes ℕ
open_tape b ts = (length ts, ts ++ (b, false) ∷ [])

abbrev pub next_cell : Tape → ℕ × Tape
next_cell ([], bad) = (0, ([], true))
next_cell (x ∷ xs, bad) = (x, (xs, bad))

abbrev pub read_cell : ℕ → State Tapes ℕ
read_cell i ts = let (x, t) = next_cell (tape_at ts i) in (x, set_tape ts i t)

abbrev pub read_cells : ℕ → State Tapes Bytes
read_cells i ts =
    let (n, ts') = read_cell i ts in
    let t = tape_at ts' i in (take n t.0, set_tape ts' i (drop_cells n t.0, t.1))

abbrev pub repeat_read :
    {A S : Type 0} → ℕ → ℕ → (ℕ → State (Tapes × S) A) → State (Tapes × S) (List A)
repeat_read zero i f s = ([], s)
repeat_read (suc n) i f s =
    let (a, s') = f i s in let (as_, s'') = repeat_read n i f s' in (a ∷ as_, s'')

abbrev pub put_cell : ℕ → Bytes → Bytes
put_cell n out = out ++ n ∷ []

abbrev pub put_cells : Bytes → Bytes → Bytes
put_cells b out = out ++ length b ∷ b

abbrev pub codes : String → Bytes
codes String.[] = []
codes (String.◌∷◌ c s) = code c ∷ codes s

abbrev pub write_each :
    {A S : Type 0} → List A → (A → Bytes × S → Bytes × S) → Bytes × S → Bytes × S
write_each [] f s = s
write_each (a ∷ rest) f s = write_each rest f (f a s)

abbrev pub write_entries :
    {V : Type 0} → Map V → (ℕ → Bytes → Bytes) → (V → Bytes → Bytes) → Bytes → Bytes
write_entries [] f g out = out
write_entries ((k, v) ∷ m) f g out = write_entries m f g (g v (f k out))

abbrev pub apply_all : List (Bytes → Bytes) → Bytes → Bytes
apply_all [] out = out
apply_all (w ∷ ws) out = apply_all ws (w out)

instance abbrev pub tape_nex : Nex
tape_nex = record {
  has_struct_header = true;
  Heap = Tapes;
  StreamIn = ℕ;
  no_streams = [];
  new_stream_in = open_tape;
  u8 = read_cell;
  u16 = read_cell;
  u32 = read_cell;
  u64 = read_cell;
  s8 = read_cell;
  s16 = read_cell;
  s32 = read_cell;
  s64 = read_cell;
  pid = read_cell;
  bool = λ i ts. let (n, ts') = read_cell i ts in (not (n == 0), ts');
  string = λ i ts. let (b, ts') = read_cells i ts in ("", ts');
  qbuffer = read_cells;
  substream = λ i ts. let (b, ts') = read_cells i ts in open_tape b ts';
  failed = λ i ts. ((tape_at ts i).1, ts);
  read_list = λ A S i f s. let (n, ts) = read_cell i s.0 in repeat_read n i f (ts, s.1);
  StreamOut = Bytes;
  new_stream_out = [];
  bytes = λ out. out;
  put_u8 = put_cell;
  put_u16 = put_cell;
  put_u32 = put_cell;
  put_u64 = put_cell;
  put_s8 = put_cell;
  put_s32 = put_cell;
  put_s64 = put_cell;
  put_pid = put_cell;
  put_bool = λ b. put_cell (if b then 1 else 0);
  put_string = λ t. put_cells (codes t);
  put_buffer = put_cells;
  put_qbuffer = put_cells;
  put_date_time = put_cell;
  write_list = λ A S xs f s. write_each xs f (put_cell (length xs) s.0, s.1);
  write_map = λ V m f g out. write_entries m f g (put_cell (length m) out);
  add = λ ws out. put_cells (apply_all ws []) (put_cell 0 out);
  Message = Bytes;
  rmc_error = λ protocol call code. protocol ∷ call ∷ code ∷ [];
  rmc_success = λ protocol method call body. protocol ∷ method ∷ call ∷ body;
  result_invalid_argument = 0x8001000a;
  result_not_implemented = 0x80010002;
  success_result = λ c. 0x10001;
  error_result = λ c. c;
}
