-- ===== src/Dashboard/OnRmc.antt =====
-- main.go: what every request on the secure server does beside its handler.
use super_mario_odyssey.Prelude.{ℕ}
use super_mario_odyssey.Presence.{Seen, note_presence_seen}
use super_mario_odyssey.Dashboard.{Dash, Call, note_rmc}

-- secureEndpoint.OnRMC, with the reading of the clock for the presence
unfoldable pub on_rmc : Call → ℕ → Dash × Seen → Dash × Seen
unfolding note_rmc note_presence_seen
on_rmc c now (d, seen) = (note_rmc c d, note_presence_seen now c.pid seen)
