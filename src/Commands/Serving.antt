-- ===== src/Commands/Serving.antt =====
-- cmd/server.go up to its loop, with NewSignal and the end of ServeWebsocket in pkg/server.go.
use ion_cluster.Base.{String, Bool, Option, none, some, List, is_empty, not, ◌&&◌, if◌then◌else◌}
use ion_cluster.Metrics.{Gauges}
use ion_cluster.Config.{SignalConfig}
use ion_cluster.Coordinator.{Error, Result, ok, err}
use ion_cluster.Shutdown.{Event, Ending, serve}

-- `Signal`; `coordinator` is of the type that the model of the node has.
pub record Signal (C : Type 0) : Type 0 where
  pub coordinator : C
  pub config : SignalConfig

-- `NewSignal`, without its channel of errors, which delivers the events of the last loop.
abbrev pub new_signal : {C : Type 0} → C → SignalConfig → Signal C
new_signal c conf = record { coordinator = c; config = conf }

-- How a server listens: with TLS, on an address with the certificate and the key, or without.
pub data Listening : Type 0 where
  listens_tls : String → String → String → Listening
  listens : String → Listening

abbrev pub listening : SignalConfig → Listening
listening config =
    if not (is_empty config.key) && not (is_empty config.cert)
    then listens_tls config.http_addr config.cert config.key
    else listens config.http_addr

-- The end of `ServeWebsocket`: what the listening ends with goes to the channel of errors.
abbrev pub serve_http : {C : Type 0} → (Listening → Option Error) → Signal C → Option Error
serve_http listen s = listen (listening s.config)

-- What `serverMain` has come to: it has returned an error before its loop, with or without a server
-- that listens, or it is in its loop or behind it.
pub data Main : Type 0 where
  fails : Error → Option Listening → Main
  runs : Option Listening → Ending → Main

-- The websocket server runs in a goroutine if there is an address.
abbrev pub started : {C : Type 0} → Signal C → SignalConfig → Option Listening
started s conf = if is_empty conf.http_addr then none else some (listening s.config)

-- `serverMain`: what `NewCoordinator` gives, whether the TURN server is enabled and what its start
-- gives, and the events of the loop so far.
unfoldable pub server_main :
    {C : Type 0} → SignalConfig → Result C → Bool → Result (Unit {0}) → List (Event × Gauges) → Main
server_main conf (err e) turn_enabled turn events = fails e none
server_main conf (ok c) turn_enabled turn events =
    let s = new_signal c conf in
    let up : Option Listening = started s conf in
    let running : Main = runs up (serve events) in
    if turn_enabled then (elim turn [ err e ↦ fails e up | ok _ ↦ running ]) else running
