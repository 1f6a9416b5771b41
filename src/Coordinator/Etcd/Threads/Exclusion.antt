-- ===== src/Coordinator/Etcd/Threads/Exclusion.antt =====
-- pkg/coordinator_etcd.go on many nodes at once: the etcd mutex keeps the calls for a session apart.
use ion_cluster.Base.{ℕ, ◌≡◌, refl, sym, ap, ◌∙◌, String, true, none, some, arith, inl, inr, ◌⊎◌}
use ion_cluster.Session.{Sfu}
use ion_cluster.Coordinator.{SessionMeta}
use ion_cluster.Coordinator.Wire.{Json, unmarshal_meta, unmarshal_meta-marshal_meta}
use ion_cluster.Coordinator.Etcd.{EtcdApi, session_key}
use ion_cluster.Coordinator.Etcd.Service.{EtcdLaws, LockLaws}
use ion_cluster.Coordinator.Etcd.Threads.{Call, session_of, Cluster, inside, claims}
use ion_cluster.Coordinator.Etcd.Threads.Effects.{session_key-injective}
use ion_cluster.Coordinator.Etcd.Threads.Steps.{
  Step, moves, others, Reach, here, next, Starts, IsExclusive, Starts-IsExclusive,
}
use ion_cluster.Coordinator.Etcd.Threads.Moving.{moved-KeyAfter, moved-IsExclusive}

module _ {S : Sfu} {E : EtcdApi} (L : EtcdLaws E) (K : LockLaws E) (calls : ℕ → Call)
    (node_of : ℕ → ℕ) where
  pub Step-IsExclusive :
      (sid : String) (s t : Cluster S E)
      → Step L K calls node_of s t
      → IsExclusive L K calls node_of sid s
      → IsExclusive L K calls node_of sid t
  Step-IsExclusive sid s _ (moves i) inv = moved-IsExclusive L K calls node_of sid s i inv
  Step-IsExclusive sid s t (others _ same ids held kv) inv = record {
    alone = λ i j a b x y.
        inv.alone i j a b (ap inside (sym (same i)) ∙ x) (ap inside (sym (same j)) ∙ y);
    locked = λ i a x. held (session_key sid) ∙ inv.locked i a (ap inside (sym (same i)) ∙ x);
    free =
        λ i a x. ground (arith, kv (session_key sid), inv.free i a (ap claims (sym (same i)) ∙ x));
    holds = λ v e. inv.holds v (ground (arith, kv (session_key sid)));
  }

  pub Reach-IsExclusive :
      (sid : String) (s t : Cluster S E)
      → Reach L K calls node_of s t
      → Starts L K calls node_of s
      → IsExclusive L K calls node_of sid t
  Reach-IsExclusive sid s _ here start = Starts-IsExclusive L K calls node_of sid s start
  Reach-IsExclusive sid s u (next {t} run step) start =
      Step-IsExclusive sid t u step (Reach-IsExclusive sid s t run start)

  -- From a cluster in which no call has begun and whose session keys hold metas of their sessions, if
  -- anything, whatever orders the moves of the nodes' calls take, and whatever else happens but that
  -- mutexes stay with their holders, nodes keep their ids and nobody else stores metas: at most one
  -- call for a session is between its lock and its unlock.
  pub calls-exclude :
      (s t : Cluster S E) (i j : ℕ)
      → Starts L K calls node_of s
      → Reach L K calls node_of s t
      → session_of (calls i) ≡ session_of (calls j)
      → inside (t.pcs i) ≡ true
      → inside (t.pcs j) ≡ true
      → i ≡ j
  calls-exclude s t i j start run same in_i in_j =
      let inv = Reach-IsExclusive (session_of (calls i)) s t run start in
      inv.alone i j refl (sym same) in_i in_j

  pub IsExclusive-stays :
      (t u : Cluster S E) (sid : String) (v : Json)
      → Step L K calls node_of t u
      → IsExclusive L K calls node_of sid t
      → L.kv t.client (session_key sid) ≡ some v
      → (L.kv u.client (session_key sid) ≡ some v) ⊎ (L.kv u.client (session_key sid) ≡ none)
  IsExclusive-stays t _ sid v (moves i) inv there =
      elim (moved-KeyAfter L K calls node_of sid t i inv) [
        | inl kept ↦ inl (kept ∙ there)
        | inr (inl gone) ↦ inr gone
        | inr (inr (is_key, (lease, at_put), _)) ↦
            absurd (ground (arith, inv.free i (session_key-injective _ _ is_key)))
      ]
  IsExclusive-stays t u sid v (others _ same ids held kv) inv there =
      ground (arith, kv (session_key sid))

  -- From a cluster in which no call has begun and whose session keys hold metas of their sessions, if
  -- anything, whatever orders the moves of the nodes' calls take, and whatever else happens but that
  -- mutexes stay with their holders, nodes keep their ids and nobody else stores metas: the value under
  -- a session's key unmarshals to a meta of that session.
  pub stored-unmarshals :
      (s t : Cluster S E) (sid : String) (v : Json)
      → Starts L K calls node_of s
      → Reach L K calls node_of s t
      → L.kv t.client (session_key sid) ≡ some v
      → (m : SessionMeta) × (unmarshal_meta v ≡ some m) × (m.session_id ≡ sid)
  stored-unmarshals s t sid v start run there =
      let (m, is_meta, of_sid) = (Reach-IsExclusive sid s t run start).holds v there in
      (m, ap unmarshal_meta is_meta ∙ unmarshal_meta-marshal_meta m, of_sid)
