-- ===== src/Coordinator/Etcd/Bookkeeping.antt =====
-- pkg/coordinator_etcd.go: the node's map of sessions, its gauge and the pending close handlers,
-- whatever etcd answers.
use ion_cluster.Base.{
  ℕ, ◌<◌, ◌≡◌, refl, ap, String, some, List, [], Map, lookup, HasUniqueKeys, length, get_elem?,
  arith, Option-cases, inl, inr,
}
use ion_cluster.Base.Int.{ℤ, pos}
use ion_cluster.Metrics.{new_gauges}
use ion_cluster.Session.{Sfu, Chan, Session}
use ion_cluster.Coordinator.{Result-cases, ok, World, handler_in, with_session}
use ion_cluster.Coordinator.Tracking.{
  Tracks, Tracks-empty, Tracks-make, Tracks-close, Tracks-spend, Tracks-work, Points, Points-make,
  Points-spend, Points-delete, Points-work, spend_handler,
}
use ion_cluster.Coordinator.Etcd.{
  EtcdApi, EtcdCoordinator, new_coordinator_etcd, made_session, get_or_create_session,
  found_or_claimed, claim_session, existing_meta, ensure_session, get_session, on_session_closed,
  close_locked, release_lease, forget_session,
}
use ion_cluster.Coordinator.Etcd.Closing.{failed_close-keeps}

module _ {S : Sfu} {E : EtcdApi} where
  pub record IsConsistent (w : World S (EtcdCoordinator S E)) : Type 0 where
    pub tracks : Tracks w.coordinator.local_sessions w.sessions w.gauges.sessions
    pub points : Points w.coordinator.local_sessions w.sessions

  pub ensure_session-IsConsistent :
      (sid : String) (w : World S (EtcdCoordinator S E))
      → IsConsistent w
      → IsConsistent (ensure_session sid w).1
  unfolding ensure_session
  ensure_session-IsConsistent sid w v =
      elim (Option-cases (lookup sid w.coordinator.local_sessions)) [
        | inl absent ↦
            rw (absent, ensure_session)
              (record {
                tracks =
                    Tracks-make _ _ _ sid (made_session sid w.coordinator) v.tracks absent refl;
                points = Points-make _ _ sid (made_session sid w.coordinator) v.points;
              })
        | inr (r, present) ↦ rw (present, ensure_session) v
      ]

  IsConsistent-of :
      (w : World S (EtcdCoordinator S E)) {m : Map ℕ} {ss : List (Session S)} {g : ℤ}
      → w.coordinator.local_sessions ≡ m
      → w.sessions ≡ ss
      → w.gauges.sessions ≡ g
      → Tracks m ss g
      → Points m ss
      → IsConsistent w
  IsConsistent-of w em es eg t p = record { tracks = rw (em, es, eg) t; points = rw (em, es) p }

  -- No answer of etcd makes a call for a session touch the node's own sessions, channels, gauges, id
  -- or endpoint.
  pub get_or_create_session-locals :
      (sid : String) (w : World S (EtcdCoordinator S E))
      → let w' : World S (EtcdCoordinator S E) = (get_or_create_session sid w).1 in
        (w'.coordinator.local_sessions ≡ w.coordinator.local_sessions)
        × (w'.coordinator.node_id ≡ w.coordinator.node_id)
        × (w'.coordinator.node_endpoint ≡ w.coordinator.node_endpoint)
        × (w'.sessions ≡ w.sessions)
        × (w'.chans ≡ w.chans)
        × (w'.gauges ≡ w.gauges)
  unfolding get_or_create_session found_or_claimed claim_session existing_meta
  get_or_create_session-locals sid w = ground arith

  closed-locals :
      (sid : String) (w : World S (EtcdCoordinator S E))
      → (on_session_closed sid w).0 ≡ ok tt
      → let w' : World S (EtcdCoordinator S E) = (on_session_closed sid w).1 in
        (w'.coordinator.local_sessions ≡ (forget_session sid w).coordinator.local_sessions)
        × (w'.sessions ≡ w.sessions)
        × (w'.gauges ≡ (forget_session sid w).gauges)
  unfolding on_session_closed close_locked release_lease forget_session
  closed-locals sid w h = ground arith

  pub on_session_closed-IsConsistent :
      (sid : String) (r : ℕ) (w : World S (EtcdCoordinator S E))
      → IsConsistent w
      → handler_in w.sessions r ≡ some sid
      → IsConsistent (on_session_closed sid (record w { sessions = spend_handler r w.sessions })).1
  unfolding forget_session
  on_session_closed-IsConsistent sid r w v h =
      let spent : World S (EtcdCoordinator S E) = record w {
        sessions = spend_handler r w.sessions;
      } in
      let points = Points-spend w.coordinator.local_sessions w.sessions r v.points in
      elim (Result-cases (on_session_closed sid spent).0) [
        | inl (e, failed) ↦
            let (locals, _, sessions, gauges) = failed_close-keeps sid e spent failed in
            IsConsistent-of (on_session_closed sid spent).1 locals sessions
              (ap (λ g. g.sessions) gauges)
              (Tracks-spend w.coordinator.local_sessions w.sessions w.gauges.sessions r v.tracks)
              points
        | inr (u, done) ↦
            let (locals, sessions, gauges) = closed-locals sid spent done in
            IsConsistent-of (on_session_closed sid spent).1 locals sessions
              (ap (λ g. g.sessions) gauges)
              (Tracks-close w.coordinator.local_sessions w.sessions w.gauges.sessions sid r v.tracks
                h)
              (Points-delete w.coordinator.local_sessions (spend_handler r w.sessions) sid points)
      ]

  pub with_session-IsConsistent :
      (r : ℕ) (s s' : Session S) (chans : List (Chan S)) (w : World S (EtcdCoordinator S E))
      → IsConsistent w
      → get_elem? w.sessions r ≡ some s
      → s'.on_close ≡ s.on_close
      → IsConsistent (with_session r s' chans w)
  with_session-IsConsistent r s s' chans w v e h = record {
    tracks = Tracks-work _ _ _ r s s' v.tracks e h;
    points = Points-work _ _ r s' v.points;
  }

  pub get_or_create_session-IsConsistent :
      (sid : String) (w : World S (EtcdCoordinator S E))
      → IsConsistent w
      → IsConsistent (get_or_create_session sid w).1
  get_or_create_session-IsConsistent sid w v =
      let (locals, _, _, sessions, _, gauges) = get_or_create_session-locals sid w in
      IsConsistent-of (get_or_create_session sid w).1 locals sessions (ap (λ g. g.sessions) gauges)
        v.tracks v.points

  -- What happens to a node with an etcd coordinator. `changes` is what else becomes of the shared
  -- etcd: the doings of other nodes, and leases that expire.
  pub data Step (w : World S (EtcdCoordinator S E)) : World S (EtcdCoordinator S E) → Type 0 where
    requests : (sid : String) → Step w (get_or_create_session sid w).1
    looks_up : (sid : String) → Step w (get_session sid w).1
    closes :
        (sid : String) (r : ℕ)
        → handler_in w.sessions r ≡ some sid
        → Step w (on_session_closed sid (record w { sessions = spend_handler r w.sessions })).1
    works :
        (r : ℕ) (s s' : Session S) (chans : List (Chan S))
        → get_elem? w.sessions r ≡ some s
        → s'.on_close ≡ s.on_close
        → Step w (with_session r s' chans w)
    changes :
        (c : E.State) → Step w (record w { coordinator = record (w.coordinator) { client = c } })

  pub data Reach (w : World S (EtcdCoordinator S E)) : World S (EtcdCoordinator S E) → Type 0 where
    here : Reach w w
    next : {t u : World S (EtcdCoordinator S E)} → Reach w t → Step t u → Reach w u

  Step-IsConsistent :
      {w u : World S (EtcdCoordinator S E)} → Step w u → IsConsistent w → IsConsistent u
  unfolding get_session
  Step-IsConsistent {w} (requests sid) v = get_or_create_session-IsConsistent sid w v
  Step-IsConsistent {w} (looks_up sid) v = ensure_session-IsConsistent sid w v
  Step-IsConsistent {w} (closes sid r h) v = on_session_closed-IsConsistent sid r w v h
  Step-IsConsistent {w} (works r s s' chans e h) v = with_session-IsConsistent r s s' chans w v e h
  Step-IsConsistent {w} (changes c) v = record { tracks = v.tracks; points = v.points }

  Reach-IsConsistent :
      {w u : World S (EtcdCoordinator S E)} → IsConsistent w → Reach w u → IsConsistent u
  Reach-IsConsistent v here = v
  Reach-IsConsistent v (next r st) = Step-IsConsistent st (Reach-IsConsistent v r)

  -- The world of a node that has just started.
  abbrev pub start_world :
      E.State → String → String → S.TransportConfig → S.Datachannels → World S (EtcdCoordinator S E)
  start_world client node_id endpoint cfg dcs = record {
    coordinator = new_coordinator_etcd client node_id endpoint cfg dcs;
    sessions = [];
    chans = [];
    gauges = new_gauges;
  }

  -- Whatever happens after the start and whatever etcd answers, the gauge is the number of sessions
  -- in the node's map, the keys are distinct, each id in the map leads to a session in memory, and a
  -- session whose close handler is pending is the one in the map under the handler's id.
  pub start-consistent_etcd :
      (client : E.State) (node_id endpoint : String) (cfg : S.TransportConfig)
      (dcs : S.Datachannels) (w : World S (EtcdCoordinator S E))
      → Reach (start_world client node_id endpoint cfg dcs) w
      → HasUniqueKeys w.coordinator.local_sessions
        × (w.gauges.sessions ≡ pos (length w.coordinator.local_sessions))
        × ((k : String) (r : ℕ)
            → lookup k w.coordinator.local_sessions ≡ some r
            → r < length w.sessions)
        × ((k : String) (r : ℕ)
            → handler_in w.sessions r ≡ some k
            → lookup k w.coordinator.local_sessions ≡ some r)
  unfolding new_coordinator_etcd new_gauges
  start-consistent_etcd client node_id endpoint cfg dcs w reach =
      let v : IsConsistent w =
        Reach-IsConsistent (record { tracks = Tracks-empty; points = λ k r h. absurd (cc) })
          reach in
      (v.tracks.unique, v.tracks.counted, v.points, v.tracks.held)
