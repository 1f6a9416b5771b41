-- ===== src/Coordinator/Etcd/Threads/Steps.antt =====
-- pkg/coordinator_etcd.go on many nodes at once: what may happen in a cluster, and what the calls for a
-- session keep to.
use ion_cluster.Base.{ℕ, ◌≡◌, String, true, none, some, arith, ◌⊎◌}
use ion_cluster.Session.{Sfu}
use ion_cluster.Coordinator.{SessionMeta}
use ion_cluster.Coordinator.Wire.{Json, marshal_meta}
use ion_cluster.Coordinator.Etcd.{EtcdApi, session_key}
use ion_cluster.Coordinator.Etcd.Service.{EtcdLaws, LockLaws}
use ion_cluster.Coordinator.Etcd.Threads.{Call, session_of, opens, Cluster, moved, inside, claims}

module _ {S : Sfu} {E : EtcdApi} (L : EtcdLaws E) (K : LockLaws E) (calls : ℕ → Call)
    (node_of : ℕ → ℕ) where
  -- A call moves; or anything else happens on the nodes and in etcd, a session's key expiring
  -- with its lease included, but that the mutexes stay with their holders, the nodes
  -- keep their ids, and nobody but the calls stores a session's meta.
  pub data Step (s : Cluster S E) : Cluster S E → Type 0 where
    moves : (i : ℕ) → Step s (moved calls node_of i s)
    others :
        (t : Cluster S E)
        → ((i : ℕ) → t.pcs i ≡ s.pcs i)
        → ((n : ℕ) → (t.nodes n).coordinator.node_id ≡ (s.nodes n).coordinator.node_id)
        → ((j : String) → K.held t.client j ≡ K.held s.client j)
        → ((j : String) → (L.kv t.client j ≡ L.kv s.client j) ⊎ (L.kv t.client j ≡ none))
        → Step s t

  pub data Reach (s : Cluster S E) : Cluster S E → Type 0 where
    here : Reach s s
    next : {t u : Cluster S E} → Reach s t → Step t u → Reach s u

  -- Under the session's key there is a meta of the session, if anything.
  abbrev pub Holds : String → Cluster S E → Type 0
  Holds sid s =
      (v : Json)
      → L.kv s.client (session_key sid) ≡ some v
      → (m : SessionMeta) × (v ≡ marshal_meta m) × (m.session_id ≡ sid)

  -- A cluster in which no call has begun.
  pub record Starts (s : Cluster S E) : Type 0 where
    pub none_runs : (i : ℕ) → s.pcs i ≡ opens
    pub holds : (sid : String) → Holds sid s

  pub record IsExclusive (sid : String) (s : Cluster S E) : Type 0 where
    pub alone :
        (i j : ℕ)
        → session_of (calls i) ≡ sid
        → session_of (calls j) ≡ sid
        → inside (s.pcs i) ≡ true
        → inside (s.pcs j) ≡ true
        → i ≡ j
    pub locked :
        (i : ℕ)
        → session_of (calls i) ≡ sid
        → inside (s.pcs i) ≡ true
        → K.held s.client (session_key sid) ≡ true
    -- While a call is about to claim the session nobody has it.
    pub free :
        (i : ℕ)
        → session_of (calls i) ≡ sid
        → claims (s.pcs i) ≡ true
        → L.kv s.client (session_key sid) ≡ none
    pub holds : Holds sid s

  pub Starts-IsExclusive : (sid : String) (s : Cluster S E) → Starts s → IsExclusive sid s
  Starts-IsExclusive sid s start = record {
    alone = λ i j a b x y. absurd (ground (arith, start.none_runs i));
    locked = λ i a x. absurd (ground (arith, start.none_runs i));
    free = λ i a x. absurd (ground (arith, start.none_runs i));
    holds = start.holds sid;
  }
