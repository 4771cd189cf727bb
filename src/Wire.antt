-- ===== src/Wire.antt =====
-- Structure headers and permissions of datastore.go, and the shape of an answer.
use super_mario_odyssey.Prelude.{ℕ, Option, none, some, List, [], ◌∷◌, if◌then◌else◌}
use super_mario_odyssey.Prelude.State.{State, pure, ◌>>=◌, ◌>>◌}
use super_mario_odyssey.Nex.{Bytes, Nex, Request}
use super_mario_odyssey.Balloon.{Server, protocol_data_store}

module _ ⦃nex : Nex⦄ where
  open nex use {
    has_struct_header, Heap, StreamIn, no_streams, new_stream_in, u8, pid, substream, failed,
    read_list, StreamOut, new_stream_out, bytes, put_u8, put_pid, put_buffer, write_list, Message,
    rmc_error, rmc_success, result_invalid_argument,
  }

  abbrev pub Reader : Type 0 → Type 0
  Reader A = State Heap A

  abbrev pub Writer : Type 0
  Writer = StreamOut → StreamOut

  -- One write after the other.
  abbrev pub writes : List Writer → Writer
  writes [] out = out
  writes (w ∷ ws) out = writes ws (w out)

  -- nex.ReadList and nex.WriteList with a callback that changes nothing of its caller.
  abbrev pub list_of : (A : Type 0) → StreamIn → (StreamIn → Reader A) → Reader (List A)
  list_of A input read h =
      let (xs, end) =
        read_list A (Unit {0}) input (λ element s. let (a, h') = read element s.0 in (a, (h', s.1)))
          (h, tt) in
      (xs, end.0)

  abbrev pub put_list : {A : Type 0} → List A → (A → Writer) → Writer
  put_list {A} xs write out = (write_list A (Unit {0}) xs (λ x s. (write x s.0, s.1)) (out, tt)).0

  -- Without headers the stream itself is returned, so that both names read from one stream.
  unfoldable pub read_struct_header : StreamIn → Reader StreamIn
  read_struct_header input =
      if has_struct_header then (do u8 input; substream input) else pure input

  -- The body may change variables of its caller, the state of type `S`.
  unfoldable pub struct_header_with :
      {S : Type 0} → (StreamOut × S → StreamOut × S) → StreamOut × S → StreamOut × S
  struct_header_with body (out, s) =
      if has_struct_header
      then (let (sub, s') = body (new_stream_out, s) in (put_buffer (bytes sub) (put_u8 0 out), s'))
      else body (out, s)

  unfoldable pub write_struct_header : Writer → Writer
  unfolding struct_header_with
  write_struct_header body out =
      (struct_header_with {S = Unit {0}} (λ s. (body s.0, s.1)) (out, tt)).0

  unfoldable pub read_permission : StreamIn → Reader (Unit {0})
  read_permission input = do p ← read_struct_header input; u8 p; list_of ℕ p pid; pure tt

  unfoldable pub write_permission : Writer
  write_permission = write_struct_header (writes (put_u8 0 ∷ put_list [] put_pid ∷ []))

  -- `in.Err() != nil` after the reads: the request is refused.
  abbrev pub checked : {A : Type 0} → StreamIn → A → Reader (Option A)
  checked input a = do bad ← failed input; pure (if bad then none else some a)

  -- A parse of a whole body, on fresh streams.
  abbrev pub parse : {A : Type 0} → (StreamIn → Reader A) → Bytes → A
  parse read body = let (input, h) = new_stream_in body no_streams in (read input h).0

  abbrev pub body_of : Writer → Bytes
  body_of w = bytes (w new_stream_out)

  abbrev pub refuse : Request → ℕ → Message
  refuse req code = rmc_error protocol_data_store req.call_id code

  abbrev pub answer : Request → Bytes → Message
  answer req body = rmc_success protocol_data_store req.method req.call_id body

  -- The frame of the handlers: a body that does not parse is refused and changes nothing.
  unfoldable pub on_params :
      {A : Type 0} → Request → Option A → Server → (A → Message × Server) → Message × Server
  on_params req none s f = (refuse req result_invalid_argument, s)
  on_params req (some a) s f = f a

  -- What holds of the state before, and of the state that the code after the parse leaves, holds
  -- after the handler.
  pub on_params_keeps :
      {A : Type 0} (P : Server → Type 0) (req : Request) (o : Option A) (s : Server)
      (f : A → Message × Server)
      → P s
      → ((a : A) → P (f a).1)
      → P (on_params req o s f).1
  unfolding on_params
  on_params_keeps P req none s f h k = h
  on_params_keeps P req (some a) s f h k = k a
