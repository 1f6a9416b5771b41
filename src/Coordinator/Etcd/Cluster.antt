-- ===== src/Coordinator/Etcd/Cluster.antt =====
-- pkg/coordinator_etcd.go, `getOrCreateSession` on the nodes of a cluster, one after another.
use ion_cluster.Base.{◌≡◌, sym, ◌∙◌, String, some, arith, inl, inr}
use ion_cluster.Session.{Sfu}
use ion_cluster.Coordinator.{SessionMeta, ok, World}
use ion_cluster.Coordinator.Wire.{Json, marshal_meta}
use ion_cluster.Coordinator.Etcd.{
  EtcdApi, EtcdCoordinator, differ, session_key, get_or_create_session,
}
use ion_cluster.Coordinator.Etcd.Service.{EtcdLaws}
use ion_cluster.Coordinator.Etcd.Ownership.{stored, HoldsMeta, get_or_create_session-Served}
use ion_cluster.Coordinator.Etcd.Agreement.{owners-agree, get_or_create_session-WritesOwn}

module _ (S : Sfu) {E : EtcdApi} (L : EtcdLaws E) where
  -- What becomes of the shared etcd while the claim of one session is neither deleted nor expired: any
  -- nodes ask for any sessions, one call after another and whatever comes of each, and other keys
  -- change in any way.
  pub data Run (sid : String) (s : E.State) : E.State → Type 0 where
    stays : Run sid s s
    calls :
        (t : String) (w : World S (EtcdCoordinator S E))
        → Run sid s w.coordinator.client
        → Run sid s (get_or_create_session t w).1.coordinator.client
    others :
        (t u : E.State)
        → Run sid s t
        → L.kv u (session_key sid) ≡ L.kv t (session_key sid)
        → Run sid s u

  Run-keeps :
      (sid : String) (s t : E.State) (v : Json)
      → Run sid s t
      → L.kv s (session_key sid) ≡ some v
      → L.kv t (session_key sid) ≡ some v
  Run-keeps sid s t v stays h = h
  Run-keeps sid s t v (calls a w run) h =
      let before = Run-keeps sid s w.coordinator.client v run h in
      elim (get_or_create_session-WritesOwn L a w (session_key sid)) [
        | inl kept ↦ kept ∙ before
        | inr (_, free, _) ↦ absurd (ground arith)
      ]
  Run-keeps sid s t v (others u _ run same) h = same ∙ Run-keeps sid s u v run h

  -- A call that succeeds leaves a claim under the session's key.
  claimed :
      (sid : String) (w : World S (EtcdCoordinator S E)) (m : SessionMeta)
      → HoldsMeta L sid w
      → (get_or_create_session sid w).0 ≡ ok m
      → (v : Json) × (stored L sid (get_or_create_session sid w).1 ≡ some v)
  claimed sid w m hm h = elim (get_or_create_session-Served L sid w m hm h) [
    | inl (_, _, put) ↦ (marshal_meta m, put)
    | inr (owner, _, _, kept) ↦ (marshal_meta owner, kept)
  ]

  -- When one call for a session has succeeded, and then any calls of any nodes for any sessions have
  -- run one after another, while the session's claim was neither deleted nor expired, then a call for
  -- the session that succeeds on any node names the same session and the same owner as the first, and
  -- redirects exactly if that owner is not the node that it ran on. The first call finds
  -- under the key nothing or a meta of the session.
  pub cluster-agrees :
      (sid : String) (w u : World S (EtcdCoordinator S E)) (m n : SessionMeta)
      → HoldsMeta L sid w
      → (get_or_create_session sid w).0 ≡ ok m
      → Run sid (get_or_create_session sid w).1.coordinator.client u.coordinator.client
      → (get_or_create_session sid u).0 ≡ ok n
      → (m.session_id ≡ sid)
        × ((n.session_id ≡ sid)
            × (n.node_id ≡ m.node_id)
            × (n.node_endpoint ≡ m.node_endpoint)
            × (n.redirect ≡ differ m.node_id u.coordinator.node_id))
  cluster-agrees sid w u m n hm first run second =
      let (v, there) = claimed sid w m hm first in
      let still = Run-keeps sid _ u.coordinator.client v run there in
      owners-agree L sid w u m n hm first (still ∙ sym there) second
