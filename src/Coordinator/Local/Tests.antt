-- ===== src/Coordinator/Local/Tests.antt =====
-- pkg/coordinator.go on a node that is asked for two sessions, one of which ends.
use ion_cluster.Base.{ℕ, ◌≡◌, refl, ◌↔◌, String, some, lookup, HasUniqueKeys, length, text_discrete}
use ion_cluster.Base.Int.{pos}
use ion_cluster.Metrics.{new_gauges}
use ion_cluster.Coordinator.{World, handler_in}
use ion_cluster.Coordinator.Tracking.{spend_handler}
use ion_cluster.Coordinator.Local.{
  LocalCoordinator, get_session, get_or_create_session, on_session_closed, ensure_session,
  new_coordinator_local,
}
use ion_cluster.Coordinator.Local.Invariant.{Reach, Step, start-consistent}
use ion_cluster.Samples.{sfu, local_world}

abbrev W : Type 0
W = World sfu (LocalCoordinator sfu)

abbrev two_sessions : W
two_sessions = (get_session "b" (get_or_create_session "a" local_world).1).1

abbrev one_session : W
one_session =
    on_session_closed "a" (record two_sessions { sessions = spend_handler 0 two_sessions.sessions })

abbrev reached : Reach local_world two_sessions
reached = Reach.next (Reach.next Reach.here (Step.requests "a")) (Step.looks_up "b")

closes_a : handler_in two_sessions.sessions 0 ≡ some "a"
unfolding get_session get_or_create_session ensure_session text_discrete new_coordinator_local
closes_a = refl

start-consistent_example :
    HasUniqueKeys one_session.coordinator.sessions
    × (one_session.gauges.sessions ≡ pos (length one_session.coordinator.sessions))
    × ((k : String) (r : ℕ)
        → (lookup k one_session.coordinator.sessions ≡ some r)
          ↔ (handler_in one_session.sessions r ≡ some k))
start-consistent_example =
    start-consistent "n1" "ws://n1:7000" tt tt one_session
      (Reach.next reached (Step.closes "a" 0 closes_a))

-- The gauge after the two requests and the close.
one_is_left : one_session.gauges.sessions ≡ pos 1
unfolding get_session get_or_create_session ensure_session on_session_closed text_discrete
    new_coordinator_local new_gauges
one_is_left = refl
