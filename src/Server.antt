-- ===== src/Server.antt =====
-- pkg/server.go: the websocket endpoint `/session/{id}` of a node.
pub mod Access
pub mod Active
pub mod Counting
pub mod Memory
mod Tests
use Prim.Native.String.{◌++◌}
use ion_cluster.Base.{
  String, Bool, true, false, List, Map, Option, none, some, ite, text_discrete, if◌then◌else◌,
}
use ion_cluster.Base.Int.{inc, dec}
use ion_cluster.Config.{SignalConfig}
use ion_cluster.Metrics.{Gauges}
use ion_cluster.Session.{Sfu}
use ion_cluster.Auth.{JwtApi, AuthToken, get_and_validate_token}
use ion_cluster.Coordinator.{SessionMeta, Result, ok, err, World, Coordinator}

-- What the handler reads of a request: the route's `id` and the query; whether the websocket
-- upgrade of the request succeeds.
pub record HttpRequest : Type 0 where
  pub id : String
  pub query : Map (List String)
  pub upgrades : Bool

-- How the handler has begun to serve a request. A proxied request and a websocket last until their
-- connection ends. `unparsed` is a redirect to an endpoint that `url.Parse` refuses.
pub data Served : Type 0 where
  forbidden : Served
  internal_error : Served
  unparsed : Served
  proxies : String → Served
  panics : Served
  opens : Served

-- `fmt.Sprintf("%v/session/%v", meta.NodeEndpoint, meta.SessionID)`
abbrev pub backend_url : SessionMeta → String
backend_url m = m.node_endpoint ++ ("/session/" ++ m.session_id)

-- The check of the token: only its result matters here.
abbrev pub token_allows : (T : JwtApi) → String → Result (AuthToken (T.Claims)) → Bool
token_allows T sid (err e) = false
token_allows T sid (ok t) = elim (text_discrete t.sid sid) [ yes _ ↦ true | no _ ↦ false ]

module _ {S : Sfu} {C : Type 0} where
  abbrev pub set_clients : World S C → World S C
  set_clients w = record w { gauges = record (w.gauges) { clients = inc w.gauges.clients } }

  abbrev pub set_proxies : World S C → World S C
  set_proxies w = record w {
    gauges = record (w.gauges) { proxy_clients = inc w.gauges.proxy_clients };
  }

  -- The part of the handler behind the lookup of the session.
  unfoldable pub serve_meta :
      (String → Bool) → HttpRequest → SessionMeta → World S C → Served × World S C
  serve_meta parses r meta w =
      if meta.redirect
      then (if parses (backend_url meta)
          then (proxies (backend_url meta), set_proxies w)
          else (unparsed, w))
      else (if r.upgrades then (opens, set_clients w) else (panics, w))

  -- The part of the handler behind the check of the token.
  unfoldable pub serve_session :
      Coordinator S C → (String → Bool) → HttpRequest → World S C → Served × World S C
  serve_session c parses r w =
      let (result, w') = c.get_or_create_session r.id w in
      elim result [ err e ↦ (internal_error, w') | ok meta ↦ serve_meta parses r meta w' ]

  -- The handler of `/session/{id}` up to the point where it waits for the end of a connection.
  -- `parses` says which texts `url.Parse` takes.
  unfoldable pub serve_websocket :
      (T : JwtApi)
      → Coordinator S C
      → (String → Bool)
      → SignalConfig
      → HttpRequest
      → World S C
      → Served × World S C
  serve_websocket T c parses config r w =
      if config.auth.enabled
      then (if token_allows T r.id (get_and_validate_token T config.auth r.query)
          then serve_session c parses r w
          else (forbidden, w))
      else serve_session c parses r w

  -- The rest of the handler, when the connection has ended.
  unfoldable pub finish : Served → World S C → World S C
  finish (proxies _) w = record w {
    gauges = record (w.gauges) { proxy_clients = dec w.gauges.proxy_clients };
  }
  finish opens w = record w { gauges = record (w.gauges) { clients = dec w.gauges.clients } }
  finish _ w = w
