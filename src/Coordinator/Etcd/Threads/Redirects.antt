-- ===== src/Coordinator/Etcd/Threads/Redirects.antt =====
-- pkg/coordinator_etcd.go on many nodes at once: whom the answers of the calls redirect.
use ion_cluster.Base.{
  ℕ, ℕ_discrete, ◌≡◌, refl, sym, ap, ◌∙◌, String, false, none, some, arith, inl, inr, ◌⊎◌,
}
use ion_cluster.Session.{Sfu}
use ion_cluster.Coordinator.{SessionMeta, Result-cases, World}
use ion_cluster.Coordinator.Wire.{Json}
use ion_cluster.Coordinator.Etcd.{
  EtcdApi, EtcdCoordinator, on_client, differ, existing_meta, release_lease, forget_session,
}
use ion_cluster.Coordinator.Etcd.Service.{EtcdLaws, LockLaws}
use ion_cluster.Coordinator.Etcd.Threads.{
  Call, key_of, Pc, outcome, read, advance, Cluster, turn, moved, answer,
}
use ion_cluster.Coordinator.Etcd.Threads.Effects.{answer_kept}
use ion_cluster.Coordinator.Etcd.Threads.Steps.{Step, moves, others, Reach, here, next, Starts}

-- The meta redirects exactly if another node than this one owns the session.
abbrev pub Redirects : SessionMeta → String → Type 0
Redirects m id = m.redirect ≡ differ m.node_id id

differ_self : (a : String) → differ a a ≡ false
differ_self a = ground arith

module _ {S : Sfu} {E : EtcdApi} where
  advance-node_id :
      (c : Call) (pc : Pc E) (w : World S (EtcdCoordinator S E))
      → (advance c pc w).1.coordinator.node_id ≡ w.coordinator.node_id
  unfolding advance release_lease forget_session
  advance-node_id c Pc.releases w = ground arith
  advance-node_id c Pc.deletes w = ground arith
  advance-node_id c _ w = refl

  existing_meta-Redirects :
      (v : Json) (w : World S (EtcdCoordinator S E)) (m : SessionMeta)
      → answer {E = E} (Pc.unlocks (outcome (existing_meta v w).0)) ≡ some m
      → Redirects m w.coordinator.node_id
  unfolding existing_meta
  existing_meta-Redirects v w m h = ground arith

  advance-Redirects :
      (c : Call) (pc : Pc E) (w : World S (EtcdCoordinator S E)) (m : SessionMeta)
      → answer (advance c pc w).0 ≡ some m
      → (answer pc ≡ some m) ⊎ Redirects m w.coordinator.node_id
  unfolding advance
  advance-Redirects c Pc.opens w m h = absurd (ground arith)
  advance-Redirects (Call.get_or_create_session _) Pc.locks w m h = absurd (ground arith)
  advance-Redirects (Call.on_session_closed _) Pc.locks w m h = absurd (ground arith)
  advance-Redirects c Pc.reads w m h =
      elim (Result-cases (E.get (key_of c) w.coordinator.client).0) [
        | inl (e, lost) ↦ absurd (ground arith)
        | inr (none, absent) ↦ absurd (ground arith)
        | inr (some v, present) ↦
            let w' : World S (EtcdCoordinator S E) = (on_client (E.get (key_of c)) w).1 in
            inr (existing_meta-Redirects v w' m (ap (λ r. answer (read w' r)) (sym present) ∙ h))
      ]
  advance-Redirects c Pc.grants w m h = absurd (ground arith)
  advance-Redirects c (Pc.keeps lease) w m h = absurd (cc)
  advance-Redirects c (Pc.records lease) w m h = absurd (cc)
  advance-Redirects c (Pc.puts lease) w m h =
      inr (ground (arith, differ_self w.coordinator.node_id))
  advance-Redirects c Pc.releases w m h = absurd (cc)
  advance-Redirects c Pc.deletes w m h = absurd (ground arith)
  advance-Redirects c (Pc.unlocks o) w m h = inl (answer_kept E o h)
  advance-Redirects c (Pc.returns o) w m h = inl h

module _ {S : Sfu} {E : EtcdApi} (L : EtcdLaws E) (K : LockLaws E) (calls : ℕ → Call)
    (node_of : ℕ → ℕ) where
  abbrev id_at : Cluster S E → ℕ → String
  id_at s n = (s.nodes n).coordinator.node_id

  -- What the calls answer redirects exactly if another node than the call's is the owner.
  AllRedirect : Cluster S E → Type 0
  AllRedirect s =
      (i : ℕ) (m : SessionMeta) → answer (s.pcs i) ≡ some m → Redirects m (id_at s (node_of i))

  moved-id : (s : Cluster S E) (i n : ℕ) → id_at (moved calls node_of i s) n ≡ id_at s n
  unfolding moved
  moved-id s i n = elim (ℕ_discrete (node_of i) n) [
    | no other ↦ ground arith
    | yes same ↦ ground (arith, advance-node_id (calls i) (s.pcs i) (turn calls node_of s i))
  ]

  moved-AllRedirect :
      (s : Cluster S E) (i : ℕ) → AllRedirect s → AllRedirect (moved calls node_of i s)
  unfolding AllRedirect moved
  moved-AllRedirect s i all j m known = elim (ℕ_discrete i j) [
    | no other ↦ ground (arith, moved-id s i (node_of j), all j m)
    | yes mine ↦ ground (
      arith,
      moved-id s i (node_of j),
      all i m,
      advance-Redirects (calls i) (s.pcs i) (turn calls node_of s i) m,
    )
  ]

  Step-AllRedirect :
      (s t : Cluster S E) → Step L K calls node_of s t → AllRedirect s → AllRedirect t
  unfolding AllRedirect
  Step-AllRedirect s _ (moves i) all j m known = moved-AllRedirect s i all j m known
  Step-AllRedirect s t (others _ same ids held kv) all i m known =
      all i m (ap answer (sym (same i)) ∙ known) ∙ ap (differ m.node_id) (sym (ids (node_of i)))

  Reach-AllRedirect :
      (s t : Cluster S E) → Starts L K calls node_of s → Reach L K calls node_of s t → AllRedirect t
  unfolding AllRedirect
  Reach-AllRedirect s _ start here i m known = absurd (ground (arith, start.none_runs i))
  Reach-AllRedirect s u start (next {t} run step) i m known =
      Step-AllRedirect t u step (Reach-AllRedirect s t start run) i m known

  -- From a cluster in which no call had begun, in any order of the calls' moves: a meta that a call
  -- has got redirects exactly if its owner is not the node that the call runs on.
  pub calls-redirect :
      (s t : Cluster S E) (i : ℕ) (m : SessionMeta)
      → Starts L K calls node_of s
      → Reach L K calls node_of s t
      → answer (t.pcs i) ≡ some m
      → m.redirect ≡ differ m.node_id (t.nodes (node_of i)).coordinator.node_id
  unfolding AllRedirect
  calls-redirect s t i m start run known = Reach-AllRedirect s t start run i m known
