-- ===== src/Machine/Runs.antt =====
-- What holds of the server after any sequence of events.
use super_mario_odyssey.Prelude.{◌+◌, ◌<◌, arith}
use super_mario_odyssey.Nex.{Nex}
use super_mario_odyssey.Balloon.{Server, Config}
use super_mario_odyssey.Ratings.{u64_mod}
use super_mario_odyssey.Persist.Restart.{ds_flush-IsValid, restart-IsValid}
use super_mario_odyssey.Invariant.{IsValid}
use super_mario_odyssey.Invariant.Handlers.{data_store_handler-IsValid}
use super_mario_odyssey.Invariant.Objects.{serve_object-IsValid}
use super_mario_odyssey.Machine.{Event, rmc, http, flush, restart, IsFair, step, Reach, here, next}

module _ ⦃nex : Nex⦄ (config : Config) where
  pub step-IsValid :
      (e : Event) (s : Server)
      → IsFair e
      → s.next_id + 1 < u64_mod
      → IsValid s
      → IsValid (step config e s)
  unfolding step
  step-IsValid (rmc env conn req) s fair room v =
      data_store_handler-IsValid config env conn req s room v
  step-IsValid (http now req) s fair room v = serve_object-IsValid now req s v
  step-IsValid (flush env result) s fair room v = ds_flush-IsValid env result s (omega arith) fair v
  step-IsValid (restart env) s fair room v = restart-IsValid env s v

  -- Any sequence of protocol requests, requests to the object host, rounds of the flusher and
  -- restarts, in which the counter of ids has room for one more before each event and the loop of
  -- each round of the flusher meets each record once, leads from a valid server to a valid server.
  pub Reach-IsValid : {s t : Server} → IsValid s → Reach config s t → IsValid t
  Reach-IsValid v here = v
  Reach-IsValid v (next e t r fair room) = step-IsValid e t fair room (Reach-IsValid v r)
