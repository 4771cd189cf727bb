-- ===== src/Machine/Lives.antt =====
-- The server implements the life of an id, between two starts.
use super_mario_odyssey.Prelude.{◌+◌, ◌<◌, arith}
use super_mario_odyssey.Nex.{Nex}
use super_mario_odyssey.Balloon.{Server, Config, Env}
use super_mario_odyssey.Ratings.{u64_mod}
use super_mario_odyssey.Persist.{FileWrite, ds_flush}
use super_mario_odyssey.Invariant.{IsValid, Visits}
use super_mario_odyssey.Machine.Runs.{step-IsValid}
use super_mario_odyssey.Machine.{IsFair, Event, rmc, http, flush, restart, step}
use super_mario_odyssey.Lifetime.{Follows, Follows-refl, Follows-trans}
use super_mario_odyssey.Lifetime.Operations.{same-Follows}
use super_mario_odyssey.Lifetime.Loops.{serve_object-Follows}
use super_mario_odyssey.Lifetime.Handlers.{data_store_handler-Follows}

-- An event while the program runs; the loop of a round of the flusher meets each record once.
abbrev pub IsWhileRunning : Event → Type 0
IsWhileRunning (rmc env conn req) = Unit
IsWhileRunning (http now req) = Unit
IsWhileRunning (flush env result) = Visits env
IsWhileRunning (restart env) = ⊥

ds_flush-Follows : (env : Env) (result : FileWrite) (s : Server) → Follows s (ds_flush env result s)
unfolding ds_flush
ds_flush-Follows env result s =
    same-Follows s (ds_flush env result s) (ground arith) (ground arith) (ground arith)

module _ ⦃nex : Nex⦄ (config : Config) where
  -- The states that events lead to while the program runs, before the counter of ids comes to its
  -- last value.
  pub data Runs (s : Server) : Server → Type 0 where
    starts : Runs s s
    goes_on :
        (e : Event) (t : Server)
        → Runs s t
        → IsWhileRunning e
        → t.next_id + 1 < u64_mod
        → Runs s (step config e t)

  step-Follows :
      (e : Event) (s : Server)
      → IsWhileRunning e
      → s.next_id + 1 < u64_mod
      → IsValid s
      → Follows s (step config e s)
  unfolding step
  step-Follows (rmc env conn req) s running room v =
      data_store_handler-Follows config env conn req s v room
  step-Follows (http now req) s running room v = serve_object-Follows now req s
  step-Follows (flush env result) s running room v = ds_flush-Follows env result s
  step-Follows (restart env) s running room v = absurd running

  fair : (e : Event) → IsWhileRunning e → IsFair e
  fair (rmc env conn req) running = tt
  fair (http now req) running = tt
  fair (flush env result) running = running
  fair (restart env) running = absurd running

  -- a run is a sequence of events without a restart, so that it keeps the invariant
  pub Runs-IsValid : {s t : Server} → IsValid s → Runs s t → IsValid t
  Runs-IsValid v starts = v
  Runs-IsValid v (goes_on e t r running room) =
      step-IsValid config e t (fair e running) room (Runs-IsValid v r)

  pub Runs-Follows : {s t : Server} → IsValid s → Runs s t → Follows s t
  Runs-Follows {s = s} v starts = Follows-refl s
  Runs-Follows v (goes_on e t r running room) =
      Follows-trans (Runs-Follows v r) (step-Follows e t running room (Runs-IsValid v r))
