-- ===== src/Coordinator/Etcd/Threads/Moving.antt =====
-- pkg/coordinator_etcd.go on many nodes at once: a call's move keeps the calls for a session apart.
use mathlib.Core.Option.{some-injective}
use ion_cluster.Base.{
  ℕ, ℕ_discrete, ◌≡◌, refl, sym, ap, ◌∙◌, ◌≢◌, String, true, none, arith, inl, inr, text_discrete,
}
use ion_cluster.Session.{Sfu}
use ion_cluster.Coordinator.Etcd.{EtcdApi, own_meta, session_key}
use ion_cluster.Coordinator.Etcd.Service.{EtcdLaws, LockLaws}
use ion_cluster.Coordinator.Etcd.Threads.{
  Call, session_of, key_of, Pc, advance, Cluster, turn, moved, inside, claims,
}
use ion_cluster.Coordinator.Etcd.Threads.Effects.{
  session_key-injective, KeyAfter, advance-KeyAfter, advance-claims, advance-held, advance-takes,
  advance-held_ne,
}
use ion_cluster.Coordinator.Etcd.Threads.Steps.{Holds, IsExclusive}

claims-inside : {E : EtcdApi} (pc : Pc E) → claims pc ≡ true → inside pc ≡ true
claims-inside Pc.grants h = refl
claims-inside (Pc.keeps _) h = refl
claims-inside (Pc.records _) h = refl
claims-inside (Pc.puts _) h = refl
claims-inside _ h = absurd (cc)

module _ {S : Sfu} {E : EtcdApi} (L : EtcdLaws E) (K : LockLaws E) (calls : ℕ → Call)
    (node_of : ℕ → ℕ) (sid : String) (s : Cluster S E) (i : ℕ)
    (inv : IsExclusive L K calls node_of sid s) where
  abbrev after : Cluster S E
  after = moved calls node_of i s

  pub moved_self : after.pcs i ≡ (advance (calls i) (s.pcs i) (turn calls node_of s i)).0
  unfolding moved
  moved_self = ground arith

  pub moved-other : (j : ℕ) → i ≢ j → after.pcs j ≡ s.pcs j
  unfolding moved
  moved-other j ne = ground arith

  abbrev client' : E.State
  client' = (advance (calls i) (s.pcs i) (turn calls node_of s i)).1.coordinator.client

  moved-client : after.client ≡ client'
  unfolding moved
  moved-client = refl

  own_key : session_of (calls i) ≡ sid → key_of (calls i) ≡ session_key sid
  own_key e = ap session_key e

  other_key : session_of (calls i) ≢ sid → key_of (calls i) ≢ session_key sid
  other_key ne e = ne (session_key-injective (session_of (calls i)) sid e)

  -- A call that is inside after its move meets nobody there.
  moved-meets_none :
      (k : ℕ)
      → i ≢ k
      → session_of (calls i) ≡ sid
      → session_of (calls k) ≡ sid
      → inside (after.pcs i) ≡ true
      → inside (s.pcs k) ≡ true
      → ⊥
  moved-meets_none k ne a b x y = ground (
    arith,
    moved_self,
    own_key a,
    advance-takes K (calls i) (s.pcs i) (turn calls node_of s i),
    inv.locked k b y,
    inv.alone i k a b,
  )

  moved-alone :
      (j k : ℕ)
      → session_of (calls j) ≡ sid
      → session_of (calls k) ≡ sid
      → inside (after.pcs j) ≡ true
      → inside (after.pcs k) ≡ true
      → j ≡ k
  moved-alone j k a b x y = ground (
    arith,
    moved-other j,
    moved-other k,
    moved-meets_none j,
    moved-meets_none k,
    inv.alone j k a b,
  )

  moved-locked :
      (j : ℕ)
      → session_of (calls j) ≡ sid
      → inside (after.pcs j) ≡ true
      → K.held after.client (session_key sid) ≡ true
  moved-locked j a x = elim (text_discrete (session_of (calls i)) sid) [
    | no other ↦ ground (
      arith,
      moved-client,
      moved-other j,
      inv.locked j a,
      advance-held_ne K (calls i) (s.pcs i) (turn calls node_of s i) (session_key sid)
          (other_key other),
    )
    | yes same ↦ ground (
      arith,
      moved-client,
      moved_self,
      moved-other j,
      moved-meets_none j,
      own_key same,
      inv.locked j a,
      inv.alone i j same a,
      advance-held K (calls i) (s.pcs i) (turn calls node_of s i) (session_key sid),
      advance-takes K (calls i) (s.pcs i) (turn calls node_of s i),
    )
  ]

  pub moved-KeyAfter :
      KeyAfter L
        (calls i)
        (s.pcs i)
        (turn calls node_of s i)
        (session_key sid)
        (L.kv after.client (session_key sid))
  unfolding moved
  moved-KeyAfter = advance-KeyAfter L (calls i) (s.pcs i) (turn calls node_of s i) (session_key sid)

  moved-free :
      (j : ℕ)
      → session_of (calls j) ≡ sid
      → claims (after.pcs j) ≡ true
      → L.kv after.client (session_key sid) ≡ none
  moved-free j a x = elim (ℕ_discrete i j) [
    | yes mine ↦ ground (
      arith,
      moved-client,
      moved_self,
      own_key,
      inv.free i,
      advance-claims L (calls i) (s.pcs i) (turn calls node_of s i),
    )
    | no other ↦ elim moved-KeyAfter [
      | inl kept ↦ kept ∙ inv.free j a (ap claims (sym (moved-other j other)) ∙ x)
      | inr (inl gone) ↦ gone
      | inr (inr (is_key, (lease, at_put), _)) ↦ absurd (
          other (
            inv.alone i j (session_key-injective _ _ is_key) a (ap inside at_put)
              (claims-inside (s.pcs j) (ap claims (sym (moved-other j other)) ∙ x))))
    ]
  ]

  moved-Holds : Holds L K calls node_of sid after
  moved-Holds v e = elim moved-KeyAfter [
    | inl kept ↦ inv.holds v (sym kept ∙ e)
    | inr (inl gone) ↦ absurd (ground arith)
    | inr (inr (is_key, _, put)) ↦ (
      own_meta (session_of (calls i)) (turn calls node_of s i),
      some-injective _ _ (sym e ∙ put),
      session_key-injective _ _ is_key,
    )
  ]

  pub moved-IsExclusive : IsExclusive L K calls node_of sid after
  moved-IsExclusive = record {
    alone = moved-alone;
    locked = moved-locked;
    free = moved-free;
    holds = moved-Holds;
  }
