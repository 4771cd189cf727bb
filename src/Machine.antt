-- ===== src/Machine.antt =====
-- The running server as a sequence of events: requests of the protocol, requests to the object host,
-- rounds of the flusher and restarts, planned or not. A request runs as one step: what it does between two of its locked
-- sections is not interleaved with other requests.
pub mod Runs
pub mod Steps
pub mod Answers
pub mod Hunt
pub mod Lives
use super_mario_odyssey.Prelude.{ℕ, ◌+◌, ◌<◌, Bool}
use super_mario_odyssey.Nex.{Nex, Connection, Request}
use super_mario_odyssey.Balloon.{Server, Config, Env}
use super_mario_odyssey.Ratings.{u64_mod}
use super_mario_odyssey.Objects.{HttpRequest, serve_object}
use super_mario_odyssey.Persist.{FileWrite, ds_flush, ds_load, boot}
use super_mario_odyssey.Invariant.{Visits}
use super_mario_odyssey.DataStore.{data_store_handler}

pub data Event : Type 0 where
  rmc : Env → Connection → Request → Event
  http : ℕ → HttpRequest → Event
  flush : Env → FileWrite → Event
  restart : Env → Event

-- The loop of a round of the flusher meets each record once.
abbrev pub IsFair : Event → Type 0
IsFair (rmc env conn req) = Unit
IsFair (http now req) = Unit
IsFair (flush env result) = Visits env
IsFair (restart env) = Unit

module _ ⦃nex : Nex⦄ (config : Config) where
  unfoldable pub step : Event → Server → Server
  step (rmc env conn req) s = (data_store_handler config env conn req s).1
  step (http now req) s = (serve_object now req s).1
  step (flush env result) s = ds_flush env result s
  step (restart env) s = ds_load env (boot s)

  -- The states that events lead to, before the counter of ids comes to its last value.
  pub data Reach (s : Server) : Server → Type 0 where
    here : Reach s s
    next :
        (e : Event) (t : Server)
        → Reach s t
        → IsFair e
        → t.next_id + 1 < u64_mod
        → Reach s (step e t)
