-- ===== src/Commands/Leaving/Tests.antt =====
-- cmd/server.go: a server command that is told to end while a client is connected.
use ion_cluster.Base.{
  ◌++◌, map, subst, Any, text_discrete, false, true, ◌≡◌, refl, some, List, [], ◌∷◌, All,
}
use ion_cluster.Config.{SignalConfig}
use ion_cluster.Coordinator.{ok, World, CoordinatorLaws}
use ion_cluster.Commands.Serving.{runs, listens, server_main}
use ion_cluster.Shutdown.{idle, Event, serve, drain}
use ion_cluster.Metrics.{active_clients_count, new_gauges}
use ion_cluster.Coordinator.Local.{
  LocalCoordinator, coordinator_local, get_or_create_session, ensure_session, new_coordinator_local,
}
use ion_cluster.Coordinator.Local.Interface.{coordinator_local_laws}
use ion_cluster.Server.{
  HttpRequest, Served, opens, serve_websocket, serve_session, serve_meta, finish,
}
use ion_cluster.Server.Counting.{kept_open}
use ion_cluster.Server.Active.{Life}
use ion_cluster.Commands.Leaving.{Moment, to_event, IsDeserted, server_main-idle}
use ion_cluster.Samples.{auth, jwt, local_world, sfu}

-- A client connects, a signal comes, the client goes, and the ticker ticks.
abbrev W : Type 0
W = World sfu (LocalCoordinator sfu)

abbrev request : HttpRequest
request = record { id = "room"; query = []; upgrades = true }

abbrev plain : SignalConfig
plain = record {
  fqdn = "n1";
  key = "";
  cert = "";
  http_addr = ":7000";
  grpc_addr = "";
  auth = record auth { enabled = false };
}

abbrev busy : Served × W
busy = serve_websocket jwt coordinator_local (λ url. true) plain request local_world

abbrev moments : List (Moment sfu (LocalCoordinator sfu))
moments =
    record { event = Event.signals; world = busy.1; kept = opens ∷ [] }
    ∷ record { event = Event.ticks; world = finish opens busy.1; kept = [] }
    ∷ []

abbrev laws : CoordinatorLaws sfu (LocalCoordinator sfu) coordinator_local
laws = coordinator_local_laws

busy_opens : kept_open busy.0 ++ [] ≡ opens ∷ []
unfolding serve_websocket serve_session serve_meta coordinator_local get_or_create_session
    ensure_session text_discrete
busy_opens = refl

lives : All (λ m. Life jwt coordinator_local laws (λ url. true) plain m.world m.kept) moments
lives =
    let first = Life.serves request local_world [] (Life.starts local_world refl) in
    let one = subst (Life jwt coordinator_local laws (λ url. true) plain busy.1) busy_opens first in
    (one, (Life.ends opens busy.1 [] [] one, tt))

idles :
    server_main plain (ok tt) false (ok tt) (map to_event moments)
    ≡ runs (some (listens ":7000")) idle
unfolding server_main serve drain active_clients_count serve_websocket serve_session serve_meta
    coordinator_local get_or_create_session ensure_session new_coordinator_local new_gauges finish
    text_discrete
idles = refl

server_main-idle_example : Any IsDeserted moments
server_main-idle_example =
    server_main-idle jwt coordinator_local laws (λ url. true) plain tt false (ok tt) moments
      (some (listens ":7000")) lives idles
