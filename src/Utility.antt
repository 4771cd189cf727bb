-- ===== src/Utility.antt =====
-- utility.go: the settings of Balloon World, which the utility protocol answers with. The handler of
-- nextendo-nex, which answers the other methods, and that package's numbers are parameters.
use super_mario_odyssey.Prelude.{ℕ, [], ◌∷◌, ◌==◌, if◌then◌else◌}
use super_mario_odyssey.Prelude.Map.{Map}
use super_mario_odyssey.Prelude.State.{State}
use super_mario_odyssey.Nex.{Nex, Connection, Request}

abbrev pub smo_integer_settings : Map ℕ
smo_integer_settings =
    (0x0a, 10)
    ∷ (0x0b, 5)
    ∷ (0x0c, 5)
    ∷ (0x0d, 30)
    ∷ (0x0e, 100)
    ∷ (0x0f, 30)
    ∷ (0x10, 40)
    ∷ (0x11, 50)
    ∷ (0x12, 60)
    ∷ (0x13, 80)
    ∷ (0x14, 1)
    ∷ (0x15, 5)
    ∷ (0x16, 20)
    ∷ (0x17, 50)
    ∷ (0x18, 1)
    ∷ (0x19, 10)
    ∷ (0x1a, 100)
    ∷ (0x1c, 32)
    ∷ (0x32, 30)
    ∷ (0x5a, 10)
    ∷ (0x5b, 2)
    ∷ []

module _ ⦃nex : Nex⦄ where
  open nex use {
    Heap, Message, new_stream_in, u32, new_stream_out, bytes, put_u16, put_s32, write_map,
    rmc_success,
  }

  -- The index of the request is read and printed, and nothing else depends on it.
  unfoldable pub smo_utility_handler :
      (Connection → Request → State Heap Message)
      → ℕ
      → ℕ
      → Connection
      → Request
      → State Heap Message
  smo_utility_handler base method_get_integer_settings protocol_utility conn req heap =
      let (input, opened) = new_stream_in req.body heap in
      let (index, left) = u32 input opened in
      let body = bytes (write_map ℕ smo_integer_settings put_u16 put_s32 new_stream_out) in
      if req.method == method_get_integer_settings
      then (rmc_success protocol_utility req.method req.call_id body, left)
      else base conn req heap
