-- ===== src/Coordinator/Local/Invariant.antt =====
-- pkg/coordinator.go, `localCoordinator`: its map, its gauge and its close handlers agree in every
-- world that requests, closing sessions and the work of peers lead to.
use ion_cluster.Base.{
  ℕ, ◌≡◌, refl, ◌↔◌, String, some, List, [], lookup, HasUniqueKeys, lookup-insert, length, ap, ◌∙◌,
  get_elem?, arith, Option-cases, inl, inr,
}
use ion_cluster.Base.Int.{pos}
use ion_cluster.Metrics.{new_gauges}
use ion_cluster.Session.{Sfu, Chan, Session}
use ion_cluster.Coordinator.{World, handler_in, with_session}
use ion_cluster.Coordinator.Tracking.{
  Tracks, Tracks-empty, Tracks-make, Tracks-close, Tracks-work, Registers, Registers-make,
  Registers-close, Registers-work, get_elem?_of_handler, spend_handler,
}
use ion_cluster.Coordinator.Local.{
  LocalCoordinator, new_coordinator_local, made_session, ensure_session, get_session,
  get_or_create_session, on_session_closed,
}

module _ {S : Sfu} where
  -- The bookkeeping is right, and an id leads to the one session whose handler for it is pending.
  pub record IsConsistent (w : World S (LocalCoordinator S)) : Type 0 where
    pub tracks : Tracks w.coordinator.sessions w.sessions w.gauges.sessions
    pub registers : Registers w.coordinator.sessions w.sessions

  pub ensure_session-IsConsistent :
      (sid : String) (w : World S (LocalCoordinator S))
      → IsConsistent w
      → IsConsistent (ensure_session sid w).1
  unfolding ensure_session
  ensure_session-IsConsistent sid w v = elim (Option-cases (lookup sid w.coordinator.sessions)) [
    | inl absent ↦
        rw (absent, ensure_session)
          (record {
            tracks = Tracks-make _ _ _ sid (made_session sid w.coordinator) v.tracks absent refl;
            registers = Registers-make _ _ sid (made_session sid w.coordinator) v.registers refl;
          })
    | inr (r, present) ↦ rw (present, ensure_session) v
  ]

  pub on_session_closed-IsConsistent :
      (sid : String) (r : ℕ) (w : World S (LocalCoordinator S))
      → IsConsistent w
      → handler_in w.sessions r ≡ some sid
      → IsConsistent (on_session_closed sid (record w { sessions = spend_handler r w.sessions }))
  unfolding on_session_closed
  on_session_closed-IsConsistent sid r w v h = record {
    tracks = Tracks-close _ _ _ sid r v.tracks h;
    registers = Registers-close _ _ sid r v.registers h;
  }

  pub with_session-IsConsistent :
      (r : ℕ) (s s' : Session S) (chans : List (Chan S)) (w : World S (LocalCoordinator S))
      → IsConsistent w
      → get_elem? w.sessions r ≡ some s
      → s'.on_close ≡ s.on_close
      → IsConsistent (with_session r s' chans w)
  with_session-IsConsistent r s s' chans w v e h = record {
    tracks = Tracks-work _ _ _ r s s' v.tracks e h;
    registers = Registers-work _ _ r s s' v.registers e h;
  }

  -- What happens to a node with a local coordinator: a request for a session, the close handler of
  -- a session that ends, the work of a peer on a session.
  pub data Step (w : World S (LocalCoordinator S)) : World S (LocalCoordinator S) → Type 0 where
    requests : (sid : String) → Step w (get_or_create_session sid w).1
    looks_up : (sid : String) → Step w (get_session sid w).1
    closes :
        (sid : String) (r : ℕ)
        → handler_in w.sessions r ≡ some sid
        → Step w (on_session_closed sid (record w { sessions = spend_handler r w.sessions }))
    works :
        (r : ℕ) (s s' : Session S) (chans : List (Chan S))
        → get_elem? w.sessions r ≡ some s
        → s'.on_close ≡ s.on_close
        → Step w (with_session r s' chans w)

  pub data Reach (w : World S (LocalCoordinator S)) : World S (LocalCoordinator S) → Type 0 where
    here : Reach w w
    next : {t u : World S (LocalCoordinator S)} → Reach w t → Step t u → Reach w u

  Step-IsConsistent :
      {w u : World S (LocalCoordinator S)} → Step w u → IsConsistent w → IsConsistent u
  unfolding get_session get_or_create_session
  Step-IsConsistent {w} (requests sid) v = ensure_session-IsConsistent sid w v
  Step-IsConsistent {w} (looks_up sid) v = ensure_session-IsConsistent sid w v
  Step-IsConsistent {w} (closes sid r h) v = on_session_closed-IsConsistent sid r w v h
  Step-IsConsistent {w} (works r s s' chans e h) v = with_session-IsConsistent r s s' chans w v e h

  Reach-IsConsistent :
      {w u : World S (LocalCoordinator S)} → IsConsistent w → Reach w u → IsConsistent u
  Reach-IsConsistent v here = v
  Reach-IsConsistent v (next r st) = Step-IsConsistent st (Reach-IsConsistent v r)

  -- The world of a node that has just started.
  abbrev pub start_world :
      String → String → S.TransportConfig → S.Datachannels → World S (LocalCoordinator S)
  start_world node_id endpoint w dcs = record {
    coordinator = new_coordinator_local node_id endpoint w dcs;
    sessions = [];
    chans = [];
    gauges = new_gauges;
  }

  pub start-IsConsistent :
      (node_id endpoint : String) (cfg : S.TransportConfig) (dcs : S.Datachannels)
      → IsConsistent (start_world node_id endpoint cfg dcs)
  unfolding new_coordinator_local new_gauges
  start-IsConsistent node_id endpoint cfg dcs = record {
    tracks = Tracks-empty;
    registers = λ k r h. cc;
  }

  -- Whatever happens after the start, the gauge is the number of sessions in the map, the keys are
  -- distinct, and an id is in the map exactly if a session with a pending close handler for that
  -- id exists, which is then the session that the map gives.
  pub start-consistent :
      (node_id endpoint : String) (cfg : S.TransportConfig) (dcs : S.Datachannels)
      (w : World S (LocalCoordinator S))
      → Reach (start_world node_id endpoint cfg dcs) w
      → HasUniqueKeys w.coordinator.sessions
        × (w.gauges.sessions ≡ pos (length w.coordinator.sessions))
        × ((k : String) (r : ℕ)
            → (lookup k w.coordinator.sessions ≡ some r) ↔ (handler_in w.sessions r ≡ some k))
  unfolding new_coordinator_local new_gauges
  start-consistent node_id endpoint cfg dcs w reach =
      let v : IsConsistent w =
        Reach-IsConsistent (start-IsConsistent node_id endpoint cfg dcs) reach in
      (v.tracks.unique, v.tracks.counted, λ k r. (v.registers k r, v.tracks.held k r))

  pub lookup-ensure_session :
      (sid : String) (w : World S (LocalCoordinator S))
      → let (r, w') = ensure_session sid w in lookup sid w'.coordinator.sessions ≡ some r
  unfolding ensure_session
  lookup-ensure_session sid w = elim (Option-cases (lookup sid w.coordinator.sessions)) [
    | inl absent ↦
        rw (absent, ensure_session)
          (ground (arith, lookup-insert sid sid (length w.sessions) w.coordinator.sessions))
    | inr (r, present) ↦ rw (present, ensure_session) present
  ]

  get_session_present :
      (sid : String) (r : ℕ) (w : World S (LocalCoordinator S))
      → lookup sid w.coordinator.sessions ≡ some r
      → get_session sid w ≡ ((r, w.coordinator.w), w)
  unfolding get_session
  get_session_present sid r w e = rw (e, ensure_session)

  -- A second lookup of an id gives the session of the first, and makes none.
  pub get_session-again :
      (sid : String) (w : World S (LocalCoordinator S))
      → get_session sid (get_session sid w).1 ≡ get_session sid w
  unfolding get_session
  get_session-again sid w = elim (Option-cases (lookup sid w.coordinator.sessions)) [
    | inl absent ↦
        get_session_present sid _ _ (lookup-ensure_session sid w) ∙ rw (absent, ensure_session)
    | inr (r, present) ↦ ap (λ x. get_session sid x.1) (get_session_present sid r w present)
  ]

  pub get_session-finds :
      (sid : String) (w : World S (LocalCoordinator S))
      → IsConsistent w
      → let ((r, _), w') = get_session sid w in
        (s : Session S) × (get_elem? w'.sessions r ≡ some s) × (s.on_close ≡ some sid)
  unfolding get_session
  get_session-finds sid w v =
      get_elem?_of_handler (ensure_session sid w).1.sessions (ensure_session sid w).0 sid
        ((ensure_session-IsConsistent sid w v).registers sid _ (lookup-ensure_session sid w))

  pub ensure_session-clients :
      (sid : String) (w : World S (LocalCoordinator S))
      → ((ensure_session sid w).1.gauges.clients ≡ w.gauges.clients)
        × ((ensure_session sid w).1.gauges.proxy_clients ≡ w.gauges.proxy_clients)
  unfolding ensure_session
  ensure_session-clients sid w = ground arith
