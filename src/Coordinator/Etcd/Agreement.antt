-- ===== src/Coordinator/Etcd/Agreement.antt =====
-- pkg/coordinator_etcd.go, `getOrCreateSession` on several nodes: what a call may write to etcd, and
-- that nodes agree on the owner of a session.
use mathlib.Core.Option.{some-injective}
use ion_cluster.Base.{
  ◌≡◌, refl, sym, subst, ap, ◌∙◌, String, Option, none, some, arith, inl, inr, ◌⊎◌, text_discrete,
}
use ion_cluster.Session.{Sfu}
use ion_cluster.Coordinator.{SessionMeta, ok, Result-cases, World}
use ion_cluster.Coordinator.Wire.{Json, marshal_meta, marshal_meta-injective}
use ion_cluster.Coordinator.Etcd.{
  EtcdApi, EtcdCoordinator, session_key, differ, own_meta, found_or_claimed, existing_meta,
  claim_session, get_or_create_session,
}
use ion_cluster.Coordinator.Etcd.Service.{EtcdLaws}
use ion_cluster.Coordinator.Etcd.Ownership.{
  stored, HoldsMeta, Served, after_get, locked, stored-locked, claim_session-kv_ne,
  get_or_create_session-cases, get_or_create_session-Served,
}

-- What a successful call leaves under the key names the session and the owner of its result.
pub record Left (sid : String) (m : SessionMeta) (v : Option Json) : Type 0 where
  pub owner : SessionMeta
  pub holds : v ≡ some (marshal_meta owner)
  pub of_session : owner.session_id ≡ sid
  pub session : m.session_id ≡ sid
  pub node : m.node_id ≡ owner.node_id
  pub endpoint : m.node_endpoint ≡ owner.node_endpoint

module _ {S : Sfu} {E : EtcdApi} (L : EtcdLaws E) where
  Served-Left :
      (sid : String) (w w' : World S (EtcdCoordinator S E)) (m : SessionMeta)
      → HoldsMeta L sid w
      → Served L sid w m w'
      → Left sid m (stored L sid w')
  Served-Left sid w w' m hm (inl (free, own, put)) = record {
    owner = m;
    holds = put;
    of_session = ground arith;
    session = ground arith;
    node = refl;
    endpoint = refl;
  }
  Served-Left sid w w' m hm (inr (owner, there, found, kept)) =
      let (meta, same, of_sid) = hm (marshal_meta owner) there in
      let is_meta = marshal_meta-injective owner meta same in
      record {
        owner = owner;
        holds = kept;
        of_session = ground arith;
        session = ground arith;
        node = ground arith;
        endpoint = ground arith;
      }

  second-agrees :
      (sid : String) (u u' : World S (EtcdCoordinator S E)) (m n : SessionMeta)
      → (left : Left sid m (stored L sid u)) → Served L sid u n u'
      → (n.session_id ≡ sid)
        × (n.node_id ≡ m.node_id)
        × (n.node_endpoint ≡ m.node_endpoint)
        × (n.redirect ≡ differ m.node_id u.coordinator.node_id)
  second-agrees sid u u' m n left (inl (free, _, _)) = absurd (ground (arith, left.holds))
  second-agrees sid u u' m n left (inr (owner, there, found, _)) =
      let same =
        marshal_meta-injective owner left.owner (some-injective _ _ (sym there ∙ left.holds)) in
      (ground arith, ground arith, ground arith, ground arith)

  -- If two calls succeed, the second on any node that sees under the key what the first has left
  -- there, then both name the same session and the same owner, and the second redirects exactly if
  -- that owner is not the node that it ran on. The session id is the one asked for.
  pub owners-agree :
      (sid : String) (w u : World S (EtcdCoordinator S E)) (m n : SessionMeta)
      → HoldsMeta L sid w
      → (get_or_create_session sid w).0 ≡ ok m
      → stored L sid u ≡ stored L sid (get_or_create_session sid w).1
      → (get_or_create_session sid u).0 ≡ ok n
      → (m.session_id ≡ sid)
        × ((n.session_id ≡ sid)
            × (n.node_id ≡ m.node_id)
            × (n.node_endpoint ≡ m.node_endpoint)
            × (n.redirect ≡ differ m.node_id u.coordinator.node_id))
  owners-agree sid w u m n hm first same second =
      let left =
        Served-Left sid w (get_or_create_session sid w).1 m hm
          (get_or_create_session-Served L sid w m hm first) in
      let there : Left sid m (stored L sid u) = subst (Left sid m) (sym same) left in
      let held : HoldsMeta L sid u =
        λ v e. (there.owner, some-injective _ _ (sym e ∙ there.holds), there.of_session) in
      (
        left.session,
        second-agrees sid u (get_or_create_session sid u).1 m n there
            (get_or_create_session-Served L sid u n held second),
      )

  -- The world has the same session keys, but that a free key may have become this node's meta.
  abbrev pub WritesOwn : String → World S (EtcdCoordinator S E) → E.State → Type 0
  WritesOwn sid w s' =
      (j : String)
      → (L.kv s' j ≡ L.kv w.coordinator.client j)
        ⊎ ((j ≡ session_key sid)
            × (L.kv w.coordinator.client j ≡ none)
            × (L.kv s' j ≡ some (marshal_meta (own_meta sid w))))

  claim_session-writes_key :
      (sid : String) (w : World S (EtcdCoordinator S E))
      → let s' : E.State = (claim_session sid w).1.coordinator.client in
        (L.kv s' (session_key sid) ≡ L.kv w.coordinator.client (session_key sid))
        ⊎ (L.kv s' (session_key sid) ≡ some (marshal_meta (own_meta sid w)))
  unfolding claim_session
  claim_session-writes_key sid w = grind (arith, L.kv-put_either, L.kv-grant, L.kv-keep_alive)

  claim_session-WritesOwn :
      (sid : String) (w : World S (EtcdCoordinator S E))
      → L.kv w.coordinator.client (session_key sid) ≡ none
      → WritesOwn sid w (claim_session sid w).1.coordinator.client
  claim_session-WritesOwn sid w free j = elim (text_discrete (session_key sid) j) [
    | no other ↦ inl (claim_session-kv_ne L sid j w other)
    | yes same ↦
        subst
          (λ k.
            (L.kv (claim_session sid w).1.coordinator.client k ≡ L.kv w.coordinator.client k)
            ⊎ ((k ≡ session_key sid)
                × (L.kv w.coordinator.client k ≡ none)
                × (L.kv (claim_session sid w).1.coordinator.client k
                    ≡ some (marshal_meta (own_meta sid w)))))
          same
          (elim (claim_session-writes_key sid w) [
            | inl kept ↦ inl kept
            | inr put ↦ inr (refl, free, put)
          ])
  ]

  existing_meta-same : (v : Json) (w : World S (EtcdCoordinator S E)) → (existing_meta v w).1 ≡ w
  unfolding existing_meta
  existing_meta-same v w = ground arith

  found_or_claimed-WritesOwn :
      (sid : String) (w : World S (EtcdCoordinator S E))
      → WritesOwn sid w (found_or_claimed sid w).1.coordinator.client
  unfolding found_or_claimed
  found_or_claimed-WritesOwn sid w j =
      elim (Result-cases (E.get (session_key sid) w.coordinator.client).0) [
        | inl (e, failed) ↦
            inl (rw (failed, found_or_claimed) (L.kv-get (session_key sid) w.coordinator.client j))
        | inr (some v, present) ↦ inl (
            rw (present, found_or_claimed)
              (rw (existing_meta-same v (after_get L sid w))
                (L.kv-get (session_key sid) w.coordinator.client j)))
        | inr (none, absent) ↦
            let read = L.kv-get (session_key sid) w.coordinator.client in
            let free = L.get_result (session_key sid) w.coordinator.client none absent in
            rw (absent, found_or_claimed)
              (elim (claim_session-WritesOwn sid (after_get L sid w) (read (session_key sid) ∙ free)
                j) [
                  | inl kept ↦ inl (kept ∙ read j)
                  | inr (is_key, _, put) ↦
                      inr (is_key, ap (L.kv w.coordinator.client) is_key ∙ free, put)
                ])
      ]

  -- Whatever comes of a call, also when it fails half-way, it writes at most one key, that of its
  -- session, and that only if nothing was stored there: then what it writes is this node's meta.
  -- No node ever overwrites another's claim.
  pub get_or_create_session-WritesOwn :
      (sid : String) (w : World S (EtcdCoordinator S E))
      → WritesOwn sid w (get_or_create_session sid w).1.coordinator.client
  get_or_create_session-WritesOwn sid w j = elim (get_or_create_session-cases L sid w) [
    | inl (e, _, kept, _) ↦ inl (kept j)
    | inr ran ↦
        let before = stored-locked L sid j w in
        let after =
          L.kv-unlock (session_key sid) (found_or_claimed sid (locked L sid w)).1.coordinator.client
            j in
        rw ran (elim (found_or_claimed-WritesOwn sid (locked L sid w) j) [
          | inl kept ↦ inl (after ∙ kept ∙ before)
          | inr (is_key, free, put) ↦ inr (is_key, sym before ∙ free, after ∙ put)
        ])
  ]
