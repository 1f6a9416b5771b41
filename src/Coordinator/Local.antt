-- ===== src/Coordinator/Local.antt =====
-- pkg/coordinator.go, `localCoordinator`: all sessions live on this node.
pub mod Invariant
pub mod Interface
mod Tests
use ion_cluster.Base.{
  ℕ, String, false, Option, none, some, List, [], ◌∷◌, ◌++◌, Map, lookup, insert, delete, length,
}
use ion_cluster.Base.Int.{inc, dec}
use ion_cluster.Metrics.{Gauges}
use ion_cluster.Session.{Sfu, Session, new_session}
use ion_cluster.Coordinator.{SessionMeta, Result, ok, World, Coordinator}

pub record LocalCoordinator (S : Sfu) : Type 0 where
  pub node_id : String
  pub node_endpoint : String
  pub w : S.TransportConfig
  pub sessions : Map ℕ
  pub datachannels : S.Datachannels

-- `node_id` is the fresh UUID, `w` and `dcs` what the SFU made of its configuration.
unfoldable pub new_coordinator_local :
    {S : Sfu} → String → String → S.TransportConfig → S.Datachannels → LocalCoordinator S
new_coordinator_local node_id endpoint w dcs = record {
  node_id = node_id;
  node_endpoint = endpoint;
  w = w;
  sessions = [];
  datachannels = dcs;
}

module _ {S : Sfu} where
  -- A session of the node's own making, with its close handler.
  abbrev made_session : String → LocalCoordinator S → Session S
  made_session sid c = record (new_session S sid c.datachannels c.w) { on_close = some sid }

  unfoldable pub ensure_session :
      String → World S (LocalCoordinator S) → ℕ × World S (LocalCoordinator S)
  ensure_session sid w = elim (lookup sid w.coordinator.sessions) [
    | some r ↦ (r, w)
    | none ↦
        let r : ℕ = length w.sessions in
        (
          r,
          record w {
            coordinator = record (w.coordinator) { sessions = insert sid r w.coordinator.sessions };
            sessions = w.sessions ++ made_session sid w.coordinator ∷ [];
            gauges = record (w.gauges) { sessions = inc w.gauges.sessions };
          },
        )
  ]

  unfoldable pub get_session :
      String → World S (LocalCoordinator S) → (ℕ × S.TransportConfig) × World S (LocalCoordinator S)
  unfolding ensure_session
  get_session sid w = let (r, w') = ensure_session sid w in ((r, w.coordinator.w), w')

  unfoldable pub get_or_create_session :
      String → World S (LocalCoordinator S) → Result SessionMeta × World S (LocalCoordinator S)
  unfolding ensure_session
  get_or_create_session sid w =
      let (r, w') = ensure_session sid w in
      (
        ok (record {
          session_id = sid;
          node_id = w.coordinator.node_id;
          node_endpoint = w.coordinator.node_endpoint;
          redirect = false;
        }),
        w',
      )

  pub on_session_closed : String → World S (LocalCoordinator S) → World S (LocalCoordinator S)
  on_session_closed sid w = record w {
    coordinator = record (w.coordinator) { sessions = delete sid w.coordinator.sessions };
    gauges = record (w.gauges) { sessions = dec w.gauges.sessions };
  }

  unfoldable pub coordinator_local : Coordinator S (LocalCoordinator S)
  coordinator_local = record {
    get_or_create_session = get_or_create_session;
    get_session = get_session;
  }
