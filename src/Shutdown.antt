-- ===== src/Shutdown.antt =====
-- cmd/server.go: the loop of `serverMain` that waits for errors and signals, and for the clients to
-- leave before it ends.
pub mod Draining
mod Tests
use ion_cluster.Base.{Bool, true, false, List, [], ◌∷◌, zero, if◌then◌else◌}
use ion_cluster.Base.Int.{ℤ, pos}
use ion_cluster.Metrics.{Gauges, active_clients_count}
use ion_cluster.Coordinator.{Error}

-- What the loop's channels deliver: an error of the websocket server, a signal to the process, a
-- tick of the 500 ms ticker.
pub data Event : Type 0 where
  errors : Error → Event
  signals : Event
  ticks : Event

-- How the loop stands after a series of events.
pub data Ending : Type 0 where
  serving : Ending
  draining : Ending
  failed : Error → Ending
  idle : Ending
  forced : Ending

-- `active == 0`
abbrev pub is_zero : ℤ → Bool
is_zero (pos zero) = true
is_zero _ = false

-- The inner loop, where it waits for a tick or a second signal. Each event is given with the gauges at
-- its time. The channel of errors is not read any more.
unfoldable pub drain : List (Event × Gauges) → Ending
drain [] = draining
drain ((ticks, g) ∷ l) =
    let rest = drain l in if is_zero (active_clients_count g) then idle else rest
drain ((signals, g) ∷ l) = forced
drain ((errors e, g) ∷ l) = drain l

-- The outer loop. There is no ticker before the first signal.
unfoldable pub serve : List (Event × Gauges) → Ending
unfolding drain
serve [] = serving
serve ((errors e, g) ∷ l) = failed e
serve ((signals, g) ∷ l) = if is_zero (active_clients_count g) then idle else drain l
serve ((ticks, g) ∷ l) = serve l
