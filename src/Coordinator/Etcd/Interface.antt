-- ===== src/Coordinator/Etcd/Interface.antt =====
-- pkg/coordinator_etcd.go: the etcd coordinator as the RPC handler and the server see it.
use ion_cluster.Base.{
  ℕ, ◌≡◌, refl, sym, subst, ap, ◌∙◌, String, some, lookup, lookup-insert, length, get_elem?_of_lt,
  arith, Option-cases, inl, inr,
}
use ion_cluster.Metrics.{Gauges}
use ion_cluster.Session.{Sfu, new_session}
use ion_cluster.Coordinator.{World, CoordinatorLaws, Extends, Spends, handler_in}
use ion_cluster.Coordinator.Tracking.{Tracks, spend_handler, spend_handler-set}
use ion_cluster.Coordinator.Etcd.{
  EtcdApi, EtcdCoordinator, made_session, ensure_session, get_session, on_session_closed,
  close_locked, release_lease, forget_session, coordinator_etcd,
}
use ion_cluster.Coordinator.Etcd.Bookkeeping.{
  IsConsistent, ensure_session-IsConsistent, get_or_create_session-locals,
  on_session_closed-IsConsistent, with_session-IsConsistent, get_or_create_session-IsConsistent,
}

module _ {S : Sfu} {E : EtcdApi} where
  lookup-ensure_session :
      (sid : String) (w : World S (EtcdCoordinator S E))
      → let (r, w') = ensure_session sid w in lookup sid w'.coordinator.local_sessions ≡ some r
  unfolding ensure_session
  lookup-ensure_session sid w = elim (Option-cases (lookup sid w.coordinator.local_sessions)) [
    | inl absent ↦
        rw (absent, ensure_session)
          (ground (arith, lookup-insert sid sid (length w.sessions) w.coordinator.local_sessions))
    | inr (r, present) ↦ rw (present, ensure_session) present
  ]

  get_session_present :
      (sid : String) (r : ℕ) (w : World S (EtcdCoordinator S E))
      → lookup sid w.coordinator.local_sessions ≡ some r
      → get_session sid w ≡ ((r, w.coordinator.w), w)
  unfolding get_session
  get_session_present sid r w e = rw (e, ensure_session)

  get_session-again :
      (sid : String) (w : World S (EtcdCoordinator S E))
      → get_session sid (get_session sid w).1 ≡ get_session sid w
  unfolding get_session
  get_session-again sid w = elim (Option-cases (lookup sid w.coordinator.local_sessions)) [
    | inl absent ↦
        get_session_present sid _ _ (lookup-ensure_session sid w) ∙ rw (absent, ensure_session)
    | inr (r, present) ↦ ap (λ x. get_session sid x.1) (get_session_present sid r w present)
  ]

  ensure_session-Extends :
      (sid : String) (w : World S (EtcdCoordinator S E)) → Extends w (ensure_session sid w).1
  unfolding ensure_session new_session
  ensure_session-Extends sid w = elim (Option-cases (lookup sid w.coordinator.local_sessions)) [
    | inl absent ↦
        rw (absent, ensure_session)
          (record { chans = refl; grown = inr (made_session sid w.coordinator, refl, refl) })
    | inr (r, present) ↦ rw (present, ensure_session) (record { chans = refl; grown = inl refl })
  ]

  -- A session's close handler runs, whatever etcd answers.
  abbrev pub Ends : World S (EtcdCoordinator S E) → World S (EtcdCoordinator S E) → Type 0
  Ends w w' =
      (sid : String) × (r : ℕ) × (handler_in w.sessions r ≡ some sid)
      × (w' ≡ (on_session_closed sid (record w { sessions = spend_handler r w.sessions })).1)

  Ends-IsConsistent :
      (w w' : World S (EtcdCoordinator S E)) → Ends w w' → IsConsistent w → IsConsistent w'
  Ends-IsConsistent w w' (sid, r, h, e) v =
      subst IsConsistent (sym e) (on_session_closed-IsConsistent sid r w v h)

  closed-sessions :
      (sid : String) (w : World S (EtcdCoordinator S E))
      → ((on_session_closed sid w).1.sessions ≡ w.sessions)
        × ((on_session_closed sid w).1.chans ≡ w.chans)
  unfolding on_session_closed close_locked release_lease forget_session
  closed-sessions sid w = ground arith

  Ends-Spends : (w w' : World S (EtcdCoordinator S E)) → Ends w w' → Spends w w'
  Ends-Spends w w' (sid, r, h, e) =
      let (s, there, spent) = spend_handler-set r sid w.sessions h in
      let kept = closed-sessions sid (record w { sessions = spend_handler r w.sessions }) in
      record {
        chans = ap (λ x. x.chans) e ∙ kept.1;
        ended = r;
        object = s;
        there = there;
        spent = ap (λ x. x.sessions) e ∙ kept.0 ∙ spent;
      }

  gauges-IsConsistent :
      (w : World S (EtcdCoordinator S E)) (g : Gauges)
      → g.sessions ≡ w.gauges.sessions
      → IsConsistent w
      → IsConsistent (record w { gauges = g })
  gauges-IsConsistent w g same v = record {
    tracks = subst (Tracks w.coordinator.local_sessions w.sessions) (sym same) v.tracks;
    points = v.points;
  }

  -- The etcd coordinator fills the interface that the RPC handler and the server rely on.
  pub coordinator_etcd_laws : CoordinatorLaws S (EtcdCoordinator S E) coordinator_etcd
  unfolding coordinator_etcd get_session
  coordinator_etcd_laws = record {
    IsValid = IsConsistent;
    get_or_create_session-IsValid = get_or_create_session-IsConsistent;
    get_session-IsValid = ensure_session-IsConsistent;
    with_session-IsValid = with_session-IsConsistent;
    get_session-finds = λ sid w v.
        get_elem?_of_lt _ _
          ((ensure_session-IsConsistent sid w v).points sid _ (lookup-ensure_session sid w));
    get_or_create_session-clients = λ sid w.
        let gauges = (get_or_create_session-locals sid w).5 in
        (ap (λ g. g.clients) gauges, ap (λ g. g.proxy_clients) gauges);
    chans-IsValid = λ w chans v. record { tracks = v.tracks; points = v.points };
    gauges-IsValid = gauges-IsConsistent;
    get_or_create_session-Extends = λ sid w.
        let (_, _, _, sessions, chans, _) = get_or_create_session-locals sid w in
        record { chans = chans; grown = inl sessions };
    get_session-Extends = ensure_session-Extends;
    Ends = Ends;
    Ends-IsValid = Ends-IsConsistent;
    Ends-Spends = Ends-Spends;
    get_session-again = get_session-again;
  }
