-- ===== src/Lib.antt =====
-- ion-cluster: SFU nodes for conferences that share sessions through etcd, and a client of them.
--
-- A node's websocket server (pkg/server.go) checks the token of a request (pkg/server_auth.go), asks
-- the coordinator which node has the session, and serves the connection itself or proxies it to that
-- node. On a connection it serves JSON-RPC methods (pkg/server_jsonrpc.go), which ask the coordinator
-- again, join the SFU's peer and subscribe it to the session's broadcasts (pkg/session.go). The
-- coordinator is local to the node (pkg/coordinator.go) or claims sessions in etcd
-- (pkg/coordinator_etcd.go). The client (pkg/client) has a signal connection and two peer connections.
--
-- Files:
--   Base and its children: lists, maps as association lists, texts and integers over native numbers
--   Metrics: pkg/metrics.go, the gauges and MetricsGetActiveClientsCount
--   Config: pkg/config.go, RootConfig with Endpoint, and NewCoordinator of pkg/coordinator.go
--     (Config/Endpoints)
--   Session: pkg/session.go, the methods of Session (Session/Delivery, Ranging, Updates,
--     History, Bounds)
--   Coordinator: the interface of pkg/coordinator.go and the world of a node, which holds the
--     coordinator's state, all sessions and channels made so far, and the gauges; a pointer to a session
--     or a channel is an index into its list
--   Coordinator/Local: localCoordinator (Local/Invariant); Coordinator/Tracking: lemmas on a map of
--     sessions with close handlers, shared by both coordinators
--   Coordinator/Wire: the JSON form of sessionMeta; Coordinator/Etcd: etcdCoordinator, with what it
--     relies on of etcd in Etcd/Service (Etcd/Ownership, Agreement, Cluster, Closing,
--     Bookkeeping); Etcd/Threads: its calls on many nodes at once, one call of etcd per move
--     (Threads/Alone, Effects, Steps, Moving, Exclusion, Registry, Redirects, Agreement)
--   Rpc: pkg/server_jsonrpc.go, JSONSignal.Handle with its callbacks and goroutine (Rpc/Replies,
--     Subscribing, Joining, Presences; Rpc/Acts and Handling: a request as a series of small acts)
--   Auth: pkg/server_auth.go; Server: the handler of /session/{id} in pkg/server.go (Server/Access,
--     Active, Memory, with lemmas in Counting)
--   Node: pkg/server.go and pkg/server_jsonrpc.go together, all connections of a node that take turns on
--     its memory (Node/Peers, Turns, Moves, Goroutines, Bound, Soundness,
--     Draining)
--   Client: pkg/client/client.go (Client/Candidates, Joining); Client/Signal: pkg/client/signal.go
--     (Client/Dispatch); Client/MediaEngine: pkg/client/mediaengine.go
--   Gst: pkg/client/gst/gst.go, pipelines as logs of C calls; Gst/Compositor: compositor.go (Gst/Bins,
--     Codecs); Gst/Producer: pkg/client/producer.go (Gst/Feeding); Gst/Layout: the layout of the
--     compositor's videos in pkg/client/gst/gst.c
--   Commands: cmd/root.go (Commands/Kube, Kube/Choosing, Envs, Setup), cmd/client.go and cmd/composite.go
--     (Commands/Clients, Connected, Looping), the flags of all commands (Commands/Flags, with what it
--     relies on of viper in Commands/Viper and Viper/Reading), the start of serverMain and of its server
--     (Commands/Serving, Leaving, Addresses)
--   Shutdown: the loop of serverMain in cmd/server.go (Shutdown/Draining)
--   Samples: concrete packages for the Tests modules, which run the code and apply the results.
--
-- How the code is rendered: a method is a function on explicit state that returns its result and
-- the new state; an error is a value, a panic an outcome of its own. A method under a mutex is one
-- step, and what runs beside it is another step of a relation (Step, Life, Run); the calls that
-- etcd's mutexes keep apart are taken to pieces in Etcd/Threads, where a node's calls may
-- interleave freely. The client's Join is given what its handlers take while its call waits for the
-- response. The revision of a presence is taken modulo 2^64. All loops are over lists, or over so many
-- pads, so no fuel is used. Code of other packages is a parameter: Sfu, PeerApi, EtcdApi, JwtApi,
-- PcApi, JsonRpcApi, KubeApi and ViperApi hold its calls, PeerLaws, EtcdLaws, LockLaws, LeaseLaws,
-- ViperLaws, JwtLaws and PcLaws the documented behaviour that a result uses.
--
-- Not modelled: logging; what cobra makes of the command line and main.go; what GStreamer does and
-- the C code that calls it, but for the layout of videos; the listening on sockets; the order in
-- which a node's own mutexes are acquired; an etcd mutex that is lost while it is held; the letters
-- of JSON texts; a KeepAlive of etcd that fails.
pub mod Base
pub mod Config
pub mod Metrics
pub mod Session
pub mod Coordinator
pub mod Rpc
pub mod Auth
pub mod Server
pub mod Node
pub mod Client
pub mod Gst
pub mod Commands
pub mod Shutdown
pub mod Samples
