-- ===== src/Nex.antt =====
-- What the server uses of the package github.com/NextendoNetwork/nextendo-nex, which is not part of
-- this repository: its streams, its list and map codecs, its messages and its result codes. They are
-- a parameter of the model. Integers travel as bit patterns: `s8` returns a number below 2 ^ 8 and
-- `s64` one below 2 ^ 64.
use super_mario_odyssey.Prelude.{ℕ, Bool, String, List}
use super_mario_odyssey.Prelude.Map.{Map}
use super_mario_odyssey.Prelude.State.{State}

-- []byte
abbrev pub Bytes : Type 0
Bytes = List ℕ

pub record Nex : Type 1 where
  -- Settings.StructHeader
  pub has_struct_header : Bool
  -- Streams are objects that reads change: `Heap` holds the state of all of them, and a `StreamIn`
  -- is a reference into it.
  pub Heap : Type 0
  pub StreamIn : Type 0
  pub no_streams : Heap
  pub new_stream_in : Bytes → State Heap StreamIn
  pub u8 : StreamIn → State Heap ℕ
  pub u16 : StreamIn → State Heap ℕ
  pub u32 : StreamIn → State Heap ℕ
  pub u64 : StreamIn → State Heap ℕ
  pub s8 : StreamIn → State Heap ℕ
  pub s16 : StreamIn → State Heap ℕ
  pub s32 : StreamIn → State Heap ℕ
  pub s64 : StreamIn → State Heap ℕ
  pub pid : StreamIn → State Heap ℕ
  pub bool : StreamIn → State Heap Bool
  pub string : StreamIn → State Heap String
  pub qbuffer : StreamIn → State Heap Bytes
  pub substream : StreamIn → State Heap StreamIn
  -- in.Err() != nil
  pub failed : StreamIn → State Heap Bool
  -- A callback may change variables of its caller, the state of type `S`.
  pub read_list :
      (A S : Type 0) → StreamIn → (StreamIn → State (Heap × S) A) → State (Heap × S) (List A)
  -- An output stream is written by one owner; a write returns the stream after it.
  pub StreamOut : Type 0
  pub new_stream_out : StreamOut
  pub bytes : StreamOut → Bytes
  pub put_u8 : ℕ → StreamOut → StreamOut
  pub put_u16 : ℕ → StreamOut → StreamOut
  pub put_u32 : ℕ → StreamOut → StreamOut
  pub put_u64 : ℕ → StreamOut → StreamOut
  pub put_s8 : ℕ → StreamOut → StreamOut
  pub put_s32 : ℕ → StreamOut → StreamOut
  pub put_s64 : ℕ → StreamOut → StreamOut
  pub put_pid : ℕ → StreamOut → StreamOut
  pub put_bool : Bool → StreamOut → StreamOut
  pub put_string : String → StreamOut → StreamOut
  pub put_buffer : Bytes → StreamOut → StreamOut
  pub put_qbuffer : Bytes → StreamOut → StreamOut
  pub put_date_time : ℕ → StreamOut → StreamOut
  pub write_list :
      (A S : Type 0) → List A → (A → StreamOut × S → StreamOut × S) → StreamOut × S → StreamOut × S
  pub write_map :
      (V : Type 0)
      → Map V
      → (ℕ → StreamOut → StreamOut)
      → (V → StreamOut → StreamOut)
      → StreamOut
      → StreamOut
  -- out.Add of a structure whose Levels are these writers
  pub add : List (StreamOut → StreamOut) → StreamOut → StreamOut
  -- messages: protocol, call id, result code; protocol, method, call id, body
  pub Message : Type 0
  pub rmc_error : ℕ → ℕ → ℕ → Message
  pub rmc_success : ℕ → ℕ → ℕ → Bytes → Message
  -- ResultCoreInvalidArgument, ResultCoreNotImplemented, SuccessResult(c).Code, ErrorResult(c).Code
  pub result_invalid_argument : ℕ
  pub result_not_implemented : ℕ
  pub success_result : ℕ → ℕ
  pub error_result : ℕ → ℕ

-- The fields of a Connection and of an RMCMessage that the handlers read.
pub record Connection : Type 0 where
  pub client : ℕ
  pub remote_addr : String

pub record Request : Type 0 where
  pub protocol : ℕ
  pub method : ℕ
  pub call_id : ℕ
  pub body : Bytes
