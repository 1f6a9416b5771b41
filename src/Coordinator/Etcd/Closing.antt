-- ===== src/Coordinator/Etcd/Closing.antt =====
-- pkg/coordinator_etcd.go, `onSessionClosed`: what a session that ends leaves behind.
use ion_cluster.Base.{
  ℕ, ◌≡◌, ap, ◌∙◌, String, Option, none, some, false, lookup, arith, ite, text_discrete,
  lookup-delete,
}
use ion_cluster.Base.Int.{dec}
use ion_cluster.Session.{Sfu}
use ion_cluster.Coordinator.{Error, ok, err, World}
use ion_cluster.Coordinator.Etcd.{
  EtcdApi, EtcdCoordinator, release_lease, forget_session, close_locked, on_session_closed,
  get_session, ensure_session,
}
use ion_cluster.Coordinator.Etcd.Service.{EtcdLaws, LeaseLaws}
use ion_cluster.Coordinator.Etcd.Ownership.{stored}

module _ {E : EtcdApi} where
  -- The lease that the node had for a session is not kept alive.
  abbrev pub IsLetGo : LeaseLaws E → Option E.Lease → E.State → Type 0
  IsLetGo K none s = Unit {0}
  IsLetGo K (some l) s = K.kept s l ≡ false

module _ {S : Sfu} {E : EtcdApi} where
  pub failed_close-keeps :
      (sid : String) (e : Error) (w : World S (EtcdCoordinator S E))
      → (on_session_closed sid w).0 ≡ err e
      → let w' : World S (EtcdCoordinator S E) = (on_session_closed sid w).1 in
        (w'.coordinator.local_sessions ≡ w.coordinator.local_sessions)
        × (w'.coordinator.w ≡ w.coordinator.w)
        × (w'.sessions ≡ w.sessions)
        × (w'.gauges ≡ w.gauges)
  unfolding on_session_closed close_locked release_lease forget_session
  failed_close-keeps sid e w failed = ground arith

  -- A close that fails before its end keeps the session in the node's map and in the gauge, with all
  -- sessions as they were: the next lookup of the id gives the session that has ended.
  pub failed_close_keeps_session :
      (sid : String) (r : ℕ) (e : Error) (w : World S (EtcdCoordinator S E))
      → lookup sid w.coordinator.local_sessions ≡ some r
      → (on_session_closed sid w).0 ≡ err e
      → let w' : World S (EtcdCoordinator S E) = (on_session_closed sid w).1 in
        (get_session sid w' ≡ ((r, w.coordinator.w), w'))
        × (w'.sessions ≡ w.sessions)
        × (w'.gauges ≡ w.gauges)
  unfolding get_session ensure_session
  failed_close_keeps_session sid r e w there failed =
      let (locals, config, sessions, gauges) = failed_close-keeps sid e w failed in
      let still : lookup sid (on_session_closed sid w).1.coordinator.local_sessions ≡ some r =
        ap (lookup sid) locals ∙ there in
      (rw (still, ensure_session) (rw config), sessions, gauges)

  closed-IsLetGo :
      (K : LeaseLaws E) (sid : String) (lease : Option E.Lease) (w : World S (EtcdCoordinator S E))
      → lookup sid w.coordinator.session_leases ≡ lease
      → (on_session_closed sid w).0 ≡ ok tt
      → IsLetGo K lease (on_session_closed sid w).1.coordinator.client
  unfolding on_session_closed close_locked release_lease forget_session
  closed-IsLetGo K sid none w had done = tt
  closed-IsLetGo K sid (some l) w had done =
      grind (arith, K.kept-cancel_lease, K.kept-delete, K.kept-unlock)

  -- A close that runs to its end takes the session out of the map and of the gauge. The lease that
  -- the node had for it, if it had one, is not kept alive any more, and is not in the node's table.
  -- Nothing is left under the session's key, whoever stored it, and the other ids in the map stay as
  -- they were.
  pub close_forgets_session :
      (L : EtcdLaws E) (K : LeaseLaws E) (sid : String) (lease : Option E.Lease)
      (w : World S (EtcdCoordinator S E))
      → lookup sid w.coordinator.session_leases ≡ lease
      → (on_session_closed sid w).0 ≡ ok tt
      → let w' : World S (EtcdCoordinator S E) = (on_session_closed sid w).1 in
        ((k : String)
          → lookup k w'.coordinator.local_sessions
            ≡ ite (text_discrete sid k) none (lookup k w.coordinator.local_sessions))
        × (IsLetGo K lease w'.coordinator.client
            × (lookup sid w'.coordinator.session_leases ≡ none))
        × (stored L sid w' ≡ none)
        × (w'.gauges ≡ record (w.gauges) { sessions = dec w.gauges.sessions })
  unfolding on_session_closed close_locked release_lease forget_session
  close_forgets_session L K sid lease w had done = (
    λ k. ground (arith, lookup-delete sid k w.coordinator.local_sessions),
    (
      closed-IsLetGo K sid lease w had done,
      ground (arith, lookup-delete sid sid w.coordinator.session_leases),
    ),
    grind (arith, L.kv-delete, L.kv-unlock),
    ground arith,
  )
