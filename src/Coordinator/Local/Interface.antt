-- ===== src/Coordinator/Local/Interface.antt =====
-- pkg/coordinator.go: the local coordinator as the RPC handler and the server see it.
use ion_cluster.Base.{
  ℕ, ◌≡◌, refl, sym, subst, ap, ◌∙◌, String, some, lookup, Option-cases, inl, inr,
}
use ion_cluster.Metrics.{Gauges}
use ion_cluster.Session.{Sfu, new_session}
use ion_cluster.Coordinator.{World, CoordinatorLaws, Extends, Spends, handler_in}
use ion_cluster.Coordinator.Tracking.{Tracks, spend_handler, spend_handler-set}
use ion_cluster.Coordinator.Local.{
  LocalCoordinator, made_session, ensure_session, get_session, get_or_create_session,
  on_session_closed, coordinator_local,
}
use ion_cluster.Coordinator.Local.Invariant.{
  IsConsistent, ensure_session-IsConsistent, on_session_closed-IsConsistent,
  with_session-IsConsistent, get_session-finds, ensure_session-clients, get_session-again,
  start_world, start-IsConsistent,
}

module _ {S : Sfu} where
  ensure_session-Extends :
      (sid : String) (w : World S (LocalCoordinator S)) → Extends w (ensure_session sid w).1
  unfolding ensure_session new_session
  ensure_session-Extends sid w = elim (Option-cases (lookup sid w.coordinator.sessions)) [
    | inl absent ↦
        rw (absent, ensure_session)
          (record { chans = refl; grown = inr (made_session sid w.coordinator, refl, refl) })
    | inr (r, present) ↦ rw (present, ensure_session) (record { chans = refl; grown = inl refl })
  ]

  -- A session's close handler runs.
  abbrev pub Ends : World S (LocalCoordinator S) → World S (LocalCoordinator S) → Type 0
  Ends w w' =
      (sid : String) × (r : ℕ) × (handler_in w.sessions r ≡ some sid)
      × (w' ≡ on_session_closed sid (record w { sessions = spend_handler r w.sessions }))

  Ends-IsConsistent :
      (w w' : World S (LocalCoordinator S)) → Ends w w' → IsConsistent w → IsConsistent w'
  Ends-IsConsistent w w' (sid, r, h, e) v =
      subst IsConsistent (sym e) (on_session_closed-IsConsistent sid r w v h)

  Ends-Spends : (w w' : World S (LocalCoordinator S)) → Ends w w' → Spends w w'
  unfolding on_session_closed
  Ends-Spends w w' (sid, r, h, e) =
      let (s, there, spent) = spend_handler-set r sid w.sessions h in
      record {
        chans = ap (λ x. x.chans) e;
        ended = r;
        object = s;
        there = there;
        spent = ap (λ x. x.sessions) e ∙ spent;
      }

  gauges-IsConsistent :
      (w : World S (LocalCoordinator S)) (g : Gauges)
      → g.sessions ≡ w.gauges.sessions
      → IsConsistent w
      → IsConsistent (record w { gauges = g })
  gauges-IsConsistent w g same v = record {
    tracks = subst (Tracks w.coordinator.sessions w.sessions) (sym same) v.tracks;
    registers = v.registers;
  }

  -- The local coordinator fills the interface that the RPC handler and the server rely on.
  pub coordinator_local_laws : CoordinatorLaws S (LocalCoordinator S) coordinator_local
  unfolding coordinator_local get_session get_or_create_session
  coordinator_local_laws = record {
    IsValid = IsConsistent;
    get_or_create_session-IsValid = ensure_session-IsConsistent;
    get_session-IsValid = ensure_session-IsConsistent;
    with_session-IsValid = with_session-IsConsistent;
    get_session-finds = λ sid w v. let (s, there, _) = get_session-finds sid w v in (s, there);
    get_or_create_session-clients = ensure_session-clients;
    chans-IsValid = λ w chans v. record { tracks = v.tracks; registers = v.registers };
    gauges-IsValid = gauges-IsConsistent;
    get_or_create_session-Extends = ensure_session-Extends;
    get_session-Extends = ensure_session-Extends;
    Ends = Ends;
    Ends-IsValid = Ends-IsConsistent;
    Ends-Spends = Ends-Spends;
    get_session-again = get_session-again;
  }

-- The world of a node that has just started is valid.
pub start-IsValid :
    (S : Sfu) (node_id endpoint : String) (cfg : S.TransportConfig) (dcs : S.Datachannels)
    → (coordinator_local_laws {S = S}).IsValid (start_world node_id endpoint cfg dcs)
unfolding coordinator_local_laws
start-IsValid S node_id endpoint cfg dcs = start-IsConsistent node_id endpoint cfg dcs
