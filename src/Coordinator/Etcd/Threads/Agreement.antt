-- ===== src/Coordinator/Etcd/Threads/Agreement.antt =====
-- pkg/coordinator_etcd.go on many nodes at once: the calls for a session name one owner.
use mathlib.Core.Option.{some-injective}
use ion_cluster.Base.{
  ℕ, ℕ_discrete, ◌≡◌, sym, subst, ap, ◌∙◌, ◌≢◌, String, none, some, arith, inl, inr, ◌⊎◌,
}
use ion_cluster.Session.{Sfu}
use ion_cluster.Coordinator.{SessionMeta}
use ion_cluster.Coordinator.Wire.{marshal_meta-injective}
use ion_cluster.Coordinator.Etcd.{EtcdApi, session_key, differ}
use ion_cluster.Coordinator.Etcd.Service.{EtcdLaws, LockLaws}
use ion_cluster.Coordinator.Etcd.Agreement.{Left}
use ion_cluster.Coordinator.Etcd.Threads.{Call, session_of, opens, Cluster, turn, moved, answer}
use ion_cluster.Coordinator.Etcd.Threads.Effects.{advance-Left}
use ion_cluster.Coordinator.Etcd.Threads.Steps.{
  Holds, Step, moves, others, Reach, Starts, IsExclusive,
}
use ion_cluster.Coordinator.Etcd.Threads.Moving.{moved_self, moved-other}
use ion_cluster.Coordinator.Etcd.Threads.Exclusion.{
  Step-IsExclusive, Reach-IsExclusive, IsExclusive-stays,
}
use ion_cluster.Coordinator.Etcd.Threads.Redirects.{calls-redirect}

module _ {S : Sfu} {E : EtcdApi} (L : EtcdLaws E) (K : LockLaws E) (calls : ℕ → Call)
    (node_of : ℕ → ℕ) where
  -- Steps in which the session's claim, once there, is neither deleted nor expires.
  pub data Calm (sid : String) (s : Cluster S E) : Cluster S E → Type 0 where
    here : Calm sid s s
    next :
        {t u : Cluster S E}
        → Calm sid s t
        → Step L K calls node_of t u
        → (L.kv t.client (session_key sid) ≢ none → L.kv u.client (session_key sid) ≢ none)
        → Calm sid s u

  -- The answers of the calls that had not begun in `s` are those of the claim in place.
  Agrees : String → Cluster S E → Cluster S E → Type 0
  Agrees sid s t =
      (i : ℕ) (m : SessionMeta)
      → session_of (calls i) ≡ sid
      → s.pcs i ≡ opens
      → answer (t.pcs i) ≡ some m
      → Left sid m (L.kv t.client (session_key sid))

  stays-Left :
      (sid : String) (t u : Cluster S E) (m : SessionMeta)
      → IsExclusive L K calls node_of sid t
      → Step L K calls node_of t u
      → (L.kv t.client (session_key sid) ≢ none → L.kv u.client (session_key sid) ≢ none)
      → Left sid m (L.kv t.client (session_key sid))
      → Left sid m (L.kv u.client (session_key sid))
  stays-Left sid t u m inv step calm left =
      elim (IsExclusive-stays L K calls node_of t u sid _ step inv left.holds) [
        | inl same ↦ subst (Left sid m) (left.holds ∙ sym same) left
        | inr gone ↦ absurd (calm (λ e. ground (arith, left.holds)) gone)
      ]

  moved-Left :
      (sid : String) (t : Cluster S E) (i : ℕ) (m : SessionMeta)
      → IsExclusive L K calls node_of sid t
      → session_of (calls i) ≡ sid
      → answer ((moved calls node_of i t).pcs i) ≡ some m
      → (answer (t.pcs i) ≡ some m)
        ⊎ Left sid m (L.kv (moved calls node_of i t).client (session_key sid))
  unfolding moved
  moved-Left sid t i m inv a known =
      subst
        (λ x.
          (answer (t.pcs i) ≡ some m)
          ⊎ Left x m (L.kv (moved calls node_of i t).client (session_key x)))
        a
        (advance-Left L (calls i) (t.pcs i) (turn calls node_of t i) m
          (subst (λ x. Holds L K calls node_of x t) (sym a) inv.holds)
          (ap answer (sym (moved_self L K calls node_of sid t i inv)) ∙ known))

  Step-Agrees :
      (sid : String) (s t u : Cluster S E)
      → IsExclusive L K calls node_of sid t
      → (step : Step L K calls node_of t u)
      → (L.kv t.client (session_key sid) ≢ none → L.kv u.client (session_key sid) ≢ none)
      → Agrees sid s t
      → Agrees sid s u
  unfolding Agrees
  Step-Agrees sid s t _ inv (moves j) calm agrees i m a fresh known = elim (ℕ_discrete j i) [
    | no other ↦ stays-Left sid t _ m inv (moves j) calm (
        agrees i m a fresh
          (ap answer (sym (moved-other L K calls node_of sid t j inv i other)) ∙ known))
    | yes mine ↦
        elim (moved-Left sid t i m inv a
          (ap (λ x. answer ((moved calls node_of x t).pcs i)) (sym mine) ∙ known)) [
            | inl before ↦ stays-Left sid t _ m inv (moves j) calm (agrees i m a fresh before)
            | inr left ↦
                subst (λ x. Left sid m (L.kv (moved calls node_of x t).client (session_key sid)))
                  (sym mine) left
          ]
  ]
  Step-Agrees sid s t u inv (others _ same ids held kv) calm agrees i m a fresh known =
      stays-Left sid t u m inv (others u same ids held kv) calm
        (agrees i m a fresh (ap answer (sym (same i)) ∙ known))

  Calm-Agrees :
      (sid : String) (s t : Cluster S E)
      → IsExclusive L K calls node_of sid s
      → Calm sid s t
      → IsExclusive L K calls node_of sid t × Agrees sid s t
  unfolding Agrees
  Calm-Agrees sid s _ inv here = (inv, λ i m a fresh known. absurd (ground (arith)))
  Calm-Agrees sid s u inv (next {t} run step calm) =
      let (inv', agrees) = Calm-Agrees sid s t inv run in
      (
        Step-IsExclusive L K calls node_of sid t u step inv',
        Step-Agrees sid s t u inv' step calm agrees,
      )

  Calm-Reach :
      (sid : String) (s t u : Cluster S E)
      → Reach L K calls node_of s t
      → Calm sid t u
      → Reach L K calls node_of s u
  Calm-Reach sid s t _ run here = run
  Calm-Reach sid s t u run (next {t = v} calm step _) =
      Reach.next (Calm-Reach sid s t v run calm) step

  -- From a cluster in which no call has begun and whose session keys hold metas of their sessions, if
  -- anything, whatever orders the moves of the nodes' calls take, and whatever else happens but that
  -- mutexes stay with their holders, nodes keep their ids and nobody else stores metas: take any state
  -- that it reaches, and let it go on while the session's claim, once there, is neither deleted nor
  -- expires. Then any two calls for the session that had not begun in that state and have got a meta
  -- by the end have got metas of the session with one and the same node and endpoint, and each
  -- redirects exactly if that node is not the one that the call runs on.
  pub calls-agree :
      (s t u : Cluster S E) (sid : String) (i j : ℕ) (m n : SessionMeta)
      → Starts L K calls node_of s
      → Reach L K calls node_of s t
      → Calm sid t u
      → session_of (calls i) ≡ sid
      → session_of (calls j) ≡ sid
      → t.pcs i ≡ opens
      → t.pcs j ≡ opens
      → answer (u.pcs i) ≡ some m
      → answer (u.pcs j) ≡ some n
      → (m.session_id ≡ sid)
        × (n.session_id ≡ sid)
        × (m.node_id ≡ n.node_id)
        × (m.node_endpoint ≡ n.node_endpoint)
        × (m.redirect ≡ differ m.node_id (u.nodes (node_of i)).coordinator.node_id)
        × (n.redirect ≡ differ n.node_id (u.nodes (node_of j)).coordinator.node_id)
  unfolding Agrees
  calls-agree s t u sid i j m n start run calm a b fresh_i fresh_j got_i got_j =
      let inv = Reach-IsExclusive L K calls node_of sid s t run start in
      let agrees = (Calm-Agrees sid t u inv calm).1 in
      let one = agrees i m a fresh_i got_i in
      let two = agrees j n b fresh_j got_j in
      let there = Calm-Reach sid s t u run calm in
      let same =
        marshal_meta-injective one.owner two.owner
          (some-injective _ _ (sym one.holds ∙ two.holds)) in
      (
        one.session,
        two.session,
        one.node ∙ ap (λ o. o.node_id) same ∙ sym two.node,
        one.endpoint ∙ ap (λ o. o.node_endpoint) same ∙ sym two.endpoint,
        calls-redirect L K calls node_of s u i m start there got_i,
        calls-redirect L K calls node_of s u j n start there got_j,
      )
