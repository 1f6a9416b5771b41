-- ===== src/Coordinator/Etcd.antt =====
-- pkg/coordinator_etcd.go, `etcdCoordinator`: sessions live on the node that claimed them in etcd.
-- Here a method runs as a whole. Threads takes its calls of etcd apart and lets those of other calls
-- come in between. The node's own mutex `mu` leaves no trace in a run of one method.
pub mod Service
pub mod Ownership
pub mod Agreement
pub mod Cluster
pub mod Closing
pub mod Bookkeeping
pub mod Interface
pub mod Threads
mod Tests
use Prim.Native.String.{◌++◌ as text_append}
use ion_cluster.Base.{
  ℕ, String, Bool, true, false, Option, none, some, List, [], ◌∷◌, ◌++◌, Map, lookup, insert,
  delete, length, text_discrete,
}
use ion_cluster.Base.Int.{inc, dec}
use ion_cluster.Metrics.{Gauges}
use ion_cluster.Session.{Sfu, Session, new_session}
use ion_cluster.Coordinator.{
  SessionMeta, Error, bad_json, Result, ok, err, Action, ◌>>=◌, ◌>>◌, pure, gets, modify, deferring,
  or_error, World, Coordinator,
}
use ion_cluster.Coordinator.Wire.{Json, marshal_meta, unmarshal_meta}

-- The etcd client: each call may fail, and may change the service's state.
pub record EtcdApi : Type 1 where
  pub State : Type 0
  pub Lease : Type 0
  -- `concurrency.NewSession`, `Mutex.Lock`, `Mutex.Unlock`
  pub new_session : State → Result (Unit {0}) × State
  pub lock : String → State → Result (Unit {0}) × State
  pub unlock : String → State → State
  -- `client.Get`: the first value under the key, if it has one
  pub get : String → State → Result (Option Json) × State
  pub grant : State → Result Lease × State
  -- `client.KeepAlive`, with the first receive from its channel. Where it fails, which it does on a
  -- client that has shut down, the code waits on a nil channel for ever; that is not modelled.
  pub keep_alive : Lease → State → State
  pub put : String → Json → Lease → State → Result (Unit {0}) × State
  pub delete : String → State → Result (Unit {0}) × State
  -- the CancelFunc that ends the keep-alive
  pub cancel_lease : Lease → State → State

pub record EtcdCoordinator (S : Sfu) (E : EtcdApi) : Type 0 where
  pub node_id : String
  pub node_endpoint : String
  pub client : E.State
  pub w : S.TransportConfig
  pub datachannels : S.Datachannels
  pub local_sessions : Map ℕ
  pub session_leases : Map (E.Lease)

-- `client` is the connected client, `node_id` the fresh UUID.
pub new_coordinator_etcd :
    {S : Sfu} {E : EtcdApi}
    → E.State
    → String
    → String
    → S.TransportConfig
    → S.Datachannels
    → EtcdCoordinator S E
new_coordinator_etcd client node_id endpoint w dcs = record {
  node_id = node_id;
  node_endpoint = endpoint;
  client = client;
  w = w;
  datachannels = dcs;
  local_sessions = [];
  session_leases = [];
}

-- `fmt.Sprintf("/session/%v", sessionID)`
unfoldable pub session_key : String → String
session_key sid = text_append "/session/" sid

-- `a != b` on strings
abbrev pub differ : String → String → Bool
differ a b = elim (text_discrete a b) [ yes _ ↦ false | no _ ↦ true ]

module _ {S : Sfu} {E : EtcdApi} where
  -- A call of the etcd client.
  abbrev pub on_client :
      {A : Type 0} → Action (E.State) A → Action (World S (EtcdCoordinator S E)) A
  on_client call w =
      let (r, s) = call w.coordinator.client in
      (r, record w { coordinator = record (w.coordinator) { client = s } })

  -- The state after the node has let go of an etcd mutex.
  abbrev pub unlocked : String → World S (EtcdCoordinator S E) → World S (EtcdCoordinator S E)
  unlocked key w = record w {
    coordinator = record (w.coordinator) { client = E.unlock key w.coordinator.client };
  }

  abbrev pub set_lease :
      String → E.Lease → World S (EtcdCoordinator S E) → World S (EtcdCoordinator S E)
  set_lease sid lease w = record w {
    coordinator = record (w.coordinator) {
      session_leases = insert sid lease w.coordinator.session_leases;
    };
  }

  -- The lease is kept alive from here on.
  abbrev pub keep_lease : E.Lease → World S (EtcdCoordinator S E) → World S (EtcdCoordinator S E)
  keep_lease lease w = record w {
    coordinator = record (w.coordinator) { client = E.keep_alive lease w.coordinator.client };
  }

  -- The meta that a node stores for a session that it takes.
  abbrev pub own_meta : String → World S (EtcdCoordinator S E) → SessionMeta
  own_meta sid w = record {
    session_id = sid;
    node_id = w.coordinator.node_id;
    node_endpoint = w.coordinator.node_endpoint;
    redirect = false;
  }

  -- The session is known to the cluster.
  unfoldable pub existing_meta : Json → Action (World S (EtcdCoordinator S E)) SessionMeta
  existing_meta value = do
    meta ← or_error bad_json (unmarshal_meta value)
    node_id ← gets (λ w. w.coordinator.node_id)
    pure (record meta { redirect = differ meta.node_id node_id })

  -- The session is taken by this node, under a lease that is kept alive.
  unfoldable pub claim_session : String → Action (World S (EtcdCoordinator S E)) SessionMeta
  claim_session sid = do
    lease ← on_client E.grant
    modify (keep_lease lease)
    modify (set_lease sid lease)
    meta ← gets (own_meta sid)
    on_client (E.put (session_key sid) (marshal_meta meta) lease)
    pure meta

  unfoldable pub found_or_claimed : String → Action (World S (EtcdCoordinator S E)) SessionMeta
  found_or_claimed sid w =
      let (r, w') = on_client (E.get (session_key sid)) w in
      elim r [
        | err e ↦ (err e, w')
        | ok (some value) ↦ existing_meta value w'
        | ok none ↦ claim_session sid w'
      ]

  unfoldable pub get_or_create_session : String → Action (World S (EtcdCoordinator S E)) SessionMeta
  get_or_create_session sid = do
    on_client E.new_session
    on_client (E.lock (session_key sid))
    deferring (unlocked (session_key sid)) (found_or_claimed sid)

  -- A session of the node's own making, with its close handler.
  abbrev made_session : String → EtcdCoordinator S E → Session S
  made_session sid e = record (new_session S sid e.datachannels e.w) { on_close = some sid }

  pub ensure_session : String → World S (EtcdCoordinator S E) → ℕ × World S (EtcdCoordinator S E)
  ensure_session sid w = elim (lookup sid w.coordinator.local_sessions) [
    | some r ↦ (r, w)
    | none ↦
        let r : ℕ = length w.sessions in
        (
          r,
          record w {
            coordinator = record (w.coordinator) {
              local_sessions = insert sid r w.coordinator.local_sessions;
            };
            sessions = w.sessions ++ made_session sid w.coordinator ∷ [];
            gauges = record (w.gauges) { sessions = inc w.gauges.sessions };
          },
        )
  ]

  pub get_session :
      String
      → World S (EtcdCoordinator S E)
      → (ℕ × S.TransportConfig) × World S (EtcdCoordinator S E)
  unfolding ensure_session
  get_session sid w = let (r, w') = ensure_session sid w in ((r, w.coordinator.w), w')

  -- The lease's entry goes and its keep-alive ends; a missing entry is only logged.
  unfoldable pub release_lease : String → Action (World S (EtcdCoordinator S E)) (Unit {0})
  release_lease sid w = elim (lookup sid w.coordinator.session_leases) [
    | none ↦ (ok tt, w)
    | some lease ↦ (
      ok tt,
      record w {
        coordinator = record (w.coordinator) {
          session_leases = delete sid w.coordinator.session_leases;
          client = E.cancel_lease lease w.coordinator.client;
        };
      },
    )
  ]

  unfoldable pub forget_session :
      String → World S (EtcdCoordinator S E) → World S (EtcdCoordinator S E)
  forget_session sid w = record w {
    coordinator = record (w.coordinator) {
      local_sessions = delete sid w.coordinator.local_sessions;
    };
    gauges = record (w.gauges) { sessions = dec w.gauges.sessions };
  }

  unfoldable pub close_locked : String → Action (World S (EtcdCoordinator S E)) (Unit {0})
  close_locked sid = do
    release_lease sid
    on_client (E.delete (session_key sid))
    modify (forget_session sid)

  -- An error of the result is one that the handler has logged before its early return.
  unfoldable pub on_session_closed : String → Action (World S (EtcdCoordinator S E)) (Unit {0})
  on_session_closed sid = do
    on_client E.new_session
    on_client (E.lock (session_key sid))
    deferring (unlocked (session_key sid)) (close_locked sid)

  unfoldable pub coordinator_etcd : Coordinator S (EtcdCoordinator S E)
  coordinator_etcd = record {
    get_or_create_session = get_or_create_session;
    get_session = get_session;
  }
