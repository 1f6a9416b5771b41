-- ===== src/Server/Tests.antt =====
-- pkg/server.go on a node that keeps its sessions itself and asks for tokens.
use ion_cluster.Base.{◌≡◌, ◌≢◌, refl, ◌⊎◌, String, true, some, List, [], ◌∷◌, ◌++◌, lookup, length}
use ion_cluster.Base.Int.{pos}
use ion_cluster.Metrics.{active_clients_count}
use ion_cluster.Config.{SignalConfig}
use ion_cluster.Auth.{AuthToken, get_and_validate_token}
use ion_cluster.Coordinator.{World, ok}
use ion_cluster.Coordinator.Local.{LocalCoordinator, coordinator_local}
use ion_cluster.Coordinator.Local.Interface.{coordinator_local_laws}
use ion_cluster.Server.{HttpRequest, Served, forbidden, serve_session, serve_websocket}
use ion_cluster.Server.Access.{serve_websocket-authorized}
use ion_cluster.Server.Counting.{kept_open, count_opens, count_proxied}
use ion_cluster.Server.Active.{Life, active_clients-open}
use ion_cluster.Samples.{sfu, jwt, jwt_laws, auth, local_world}

abbrev W : Type 0
W = World sfu (LocalCoordinator sfu)

abbrev config : SignalConfig
config = record {
  fqdn = "n1";
  key = "";
  cert = "";
  http_addr = ":7000";
  grpc_addr = "";
  auth = auth;
}

abbrev request : HttpRequest
request = record { id = "room"; query = ("access_token", "room" ∷ []) ∷ []; upgrades = true }

abbrev after : Served × W
after = serve_websocket jwt coordinator_local (λ url. true) config request local_world

serve_websocket-authorized_example :
    ((after ≡ (forbidden, local_world))
      × ((t : AuthToken (jwt.Claims))
          → get_and_validate_token jwt auth request.query ≡ ok t
          → t.sid ≢ "room"))
    ⊎ ((t : AuthToken (jwt.Claims)) × (text : String) × (more : List String) × (lookup
            "access_token" request.query
          ≡ some (text ∷ more))
        × jwt_laws.Signed text "k" t
        × (t.sid ≡ "room")
        × (request.id ≢ "")
        × (after ≡ serve_session coordinator_local (λ url. true) request local_world))
serve_websocket-authorized_example =
    serve_websocket-authorized jwt jwt_laws coordinator_local (λ url. true) config request
      local_world refl

abbrev NodeLife : W → List Served → Type 0
NodeLife = Life jwt coordinator_local coordinator_local_laws (λ url. true) config

abbrev served_list : List Served
served_list = kept_open after.0 ++ []

served_life : NodeLife after.1 served_list
served_life = Life.serves request local_world [] (Life.starts local_world refl)

active_clients-open_example :
    (after.1.gauges.clients ≡ pos (count_opens served_list))
    × (after.1.gauges.proxy_clients ≡ pos (count_proxied served_list))
    × (active_clients_count after.1.gauges ≡ pos (length served_list))
active_clients-open_example =
    active_clients-open jwt coordinator_local coordinator_local_laws (λ url. true) config after.1
      served_list served_life
