-- ===== src/Coordinator/Etcd/Threads/Registry.antt =====
-- pkg/coordinator_etcd.go on many nodes at once, against what etcd is to them: a registry of the
-- sessions' owners.
use ion_cluster.Base.{ℕ, ◌≡◌, sym, ap, subst, String, Option, none, some, inl, inr, arith}
use ion_cluster.Session.{Sfu}
use ion_cluster.Coordinator.{SessionMeta}
use ion_cluster.Coordinator.Wire.{Json, unmarshal_meta, unmarshal_meta-marshal_meta}
use ion_cluster.Coordinator.Etcd.{EtcdApi, session_key, own_meta}
use ion_cluster.Coordinator.Etcd.Service.{EtcdLaws, LockLaws}
use ion_cluster.Coordinator.Etcd.Threads.{Call, session_of, Cluster, turn, moved}
use ion_cluster.Coordinator.Etcd.Threads.Effects.{session_key-injective}
use ion_cluster.Coordinator.Etcd.Threads.Steps.{Step, moves, others, Reach, Starts, IsExclusive}
use ion_cluster.Coordinator.Etcd.Threads.Moving.{moved-KeyAfter}
use ion_cluster.Coordinator.Etcd.Threads.Exclusion.{Reach-IsExclusive}

-- What may become of the owner of a session in a registry: it stays, it is dropped, or a free session
-- goes to one of those that may take it.
pub data Registers (Takers : SessionMeta → Type 0)
    : Option SessionMeta → Option SessionMeta → Type 0 where
  stays : {o : Option SessionMeta} → Registers Takers o o
  drops : {o : Option SessionMeta} → Registers Takers o none
  takes : {m : SessionMeta} → Takers m → Registers Takers none (some m)

abbrev pub owner_in : Option Json → Option SessionMeta
owner_in none = none
owner_in (some value) = unmarshal_meta value

module _ {S : Sfu} {E : EtcdApi} (L : EtcdLaws E) (K : LockLaws E) (calls : ℕ → Call)
    (node_of : ℕ → ℕ) where
  -- The owner of a session, as etcd has it.
  abbrev pub registry : Cluster S E → String → Option SessionMeta
  registry s sid = owner_in (L.kv s.client (session_key sid))

  -- The metas of the nodes on which calls for the session run.
  abbrev pub Takers : Cluster S E → String → SessionMeta → Type 0
  Takers s sid m =
      (i : ℕ) × (session_of (calls i) ≡ sid) × (m ≡ own_meta sid (turn calls node_of s i))

  IsExclusive-Registers :
      (t u : Cluster S E) (sid : String)
      → Step L K calls node_of t u
      → IsExclusive L K calls node_of sid t
      → Registers (Takers t sid) (registry t sid) (registry u sid)
  IsExclusive-Registers t _ sid (moves i) inv =
      elim (moved-KeyAfter L K calls node_of sid t i inv) [
        | inl kept ↦
            subst (λ v. Registers (Takers t sid) (registry t sid) (owner_in v)) (sym kept) stays
        | inr (inl gone) ↦
            subst (λ v. Registers (Takers t sid) (registry t sid) (owner_in v)) (sym gone) drops
        | inr (inr (is_key, (lease, at_put), put)) ↦
            let of_sid = session_key-injective (session_of (calls i)) sid is_key in
            let free : L.kv t.client (session_key sid) ≡ none = ground (arith, inv.free i of_sid) in
            let mine : SessionMeta = own_meta (session_of (calls i)) (turn calls node_of t i) in
            subst
              (λ v. Registers (Takers t sid) (owner_in v) (registry (moved calls node_of i t) sid))
              (sym free)
              (subst (λ v. Registers (Takers t sid) none (owner_in v)) (sym put)
                (subst (λ o. Registers (Takers t sid) none o)
                  (sym (unmarshal_meta-marshal_meta mine))
                  (takes (i, of_sid, ap (λ x. own_meta x (turn calls node_of t i)) of_sid))))
      ]
  IsExclusive-Registers t u sid (others _ same ids held kv) inv = elim (kv (session_key sid)) [
    | inl kept ↦
        subst (λ v. Registers (Takers t sid) (registry t sid) (owner_in v)) (sym kept) stays
    | inr gone ↦
        subst (λ v. Registers (Takers t sid) (registry t sid) (owner_in v)) (sym gone) drops
  ]

  -- From a cluster in which no call has begun and whose session keys hold metas of their sessions, if
  -- anything, whatever orders the moves of the nodes' calls take, and whatever else happens but that
  -- mutexes stay with their holders, nodes keep their ids and nobody else stores metas: a step does to
  -- the owner of each session what a registry may do. The owner stays or is dropped, or the session
  -- was free and goes to a node on which a call for it runs. No call ever overwrites a claim.
  pub Step-Registers :
      (s t u : Cluster S E) (sid : String)
      → Starts L K calls node_of s
      → Reach L K calls node_of s t
      → Step L K calls node_of t u
      → Registers (Takers t sid) (registry t sid) (registry u sid)
  Step-Registers s t u sid start run step =
      IsExclusive-Registers t u sid step (Reach-IsExclusive L K calls node_of sid s t run start)
