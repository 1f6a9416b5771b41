-- ===== src/Node/Tests.antt =====
-- A node that keeps its sessions itself: a client connects, joins a session and leaves it.
use ion_cluster.Base.{
  ◌+◌, ◌⊎◌, All, ◌≡◌, refl, get_elem?, true, false, some, [], ◌∷◌, text_discrete,
}
use ion_cluster.Config.{SignalConfig}
use ion_cluster.Coordinator.{World, CoordinatorLaws}
use ion_cluster.Coordinator.Local.{
  LocalCoordinator, coordinator_local, get_session, get_or_create_session, ensure_session,
  new_coordinator_local,
}
use ion_cluster.Coordinator.Local.Interface.{start-IsValid, coordinator_local_laws}
use ion_cluster.Rpc.{
  Request, Conn, Listener, done, panics, handle, handle_join, join_here, peer_join, subscribe,
}
use ion_cluster.Server.{HttpRequest, opens, serve_websocket, serve_session, serve_meta}
use ion_cluster.Node.{Node, Step, Reach, new_conn, at_turn, after_turn, ended}
use ion_cluster.Node.Turns.{IsSound}
use ion_cluster.Node.Draining.{
  IsIdle, AreEmpty, Stops, none_stopped, stopped, running, Reach-drains,
}
use ion_cluster.Node.Soundness.{Reach-IsSound}
use ion_cluster.Samples.{sfu, peers, jwt, auth, local_world, peer_laws}

abbrev W : Type 0
W = World sfu (LocalCoordinator sfu)

abbrev N : Type 0
N = Node sfu peers (LocalCoordinator sfu)

abbrev K : Type 0
K = Conn sfu peers (LocalCoordinator sfu)

abbrev laws : CoordinatorLaws sfu (LocalCoordinator sfu) coordinator_local
laws = coordinator_local_laws

abbrev config : SignalConfig
config = record {
  fqdn = "n1";
  key = "";
  cert = "";
  http_addr = ":7000";
  grpc_addr = "";
  auth = record auth { enabled = false };
}

abbrev request : HttpRequest
request = record { id = "room"; query = []; upgrades = true }

abbrev opened : W
opened = (serve_websocket jwt coordinator_local (λ url. true) config request local_world).1

opened_opens :
    serve_websocket jwt coordinator_local (λ url. true) config request local_world ≡ (opens, opened)
unfolding serve_websocket serve_session serve_meta coordinator_local get_or_create_session
    ensure_session
opened_opens = refl

abbrev started : N
started = record { conns = []; world = local_world }

abbrev client : K
client = new_conn ("", false) opened

abbrev connected : N
connected = record { conns = client ∷ []; world = opened }

abbrev join : Request sfu peers
join = record { method = "join"; id = "1"; params = some "room" }

abbrev joined : K
joined = elim (handle coordinator_local "pod" join (at_turn opened client)) [
  | done k ↦ k
  | panics ↦ client
]

abbrev listener : Listener
listener = record { session = 0; listen = 0 }

joined_joins :
    (handle coordinator_local "pod" join (at_turn opened client) ≡ done joined)
    × (get_elem? joined.listeners 0 ≡ some listener)
unfolding handle handle_join join_here peer_join subscribe coordinator_local get_session
    get_or_create_session ensure_session text_discrete serve_websocket serve_session serve_meta
    new_coordinator_local
joined_joins = (refl, refl)

abbrev in_room : N
in_room = after_turn connected.conns 0 joined

abbrev gone : N
gone = after_turn in_room.conns 0 (ended "pod" 0 listener (at_turn in_room.world joined))

enters : Reach jwt coordinator_local laws (λ url. true) config "pod" started in_room
enters =
    Reach.next (Reach.next Reach.here (Step.connects request ("", false) opened opened_opens))
      (Step.requests 0 client joined join refl joined_joins.0)

goes : Reach jwt coordinator_local laws (λ url. true) config "pod" started gone
goes = Reach.next enters (Step.stops 0 0 joined listener refl joined_joins.1)

Reach-IsSound_example : IsSound laws gone
Reach-IsSound_example =
    Reach-IsSound jwt coordinator_local laws peer_laws (λ url. true) config "pod" local_world
      (start-IsValid sfu "n1" "ws://n1:7000" tt tt) refl refl gone goes

one-Stops : Stops "pod" in_room 1 gone
one-Stops = stopped 0 0 joined listener none_stopped refl joined_joins.1

Reach-drains_example :
    (1 + running gone.conns ≡ running in_room.conns)
    × (((n : N) × Stops "pod" in_room 2 n) ⊎ (All IsIdle gone.conns × AreEmpty gone.world.sessions))
Reach-drains_example =
    Reach-drains jwt coordinator_local laws peer_laws (λ url. true) config "pod" local_world
      (start-IsValid sfu "n1" "ws://n1:7000" tt tt) refl refl in_room enters 1 gone one-Stops
