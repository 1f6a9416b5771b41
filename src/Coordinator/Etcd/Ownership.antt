-- ===== src/Coordinator/Etcd/Ownership.antt =====
-- pkg/coordinator_etcd.go, `getOrCreateSession`: which node a session belongs to.
use ion_cluster.Base.{◌≡◌, sym, ◌∙◌, ◌≢◌, String, Option, none, some, arith, inl, inr, ◌⊎◌}
use ion_cluster.Session.{Sfu}
use ion_cluster.Coordinator.{SessionMeta, Error, ok, err, Result-cases, deferring, World}
use ion_cluster.Coordinator.Wire.{Json, marshal_meta, unmarshal_meta-marshal_meta}
use ion_cluster.Coordinator.Etcd.{
  EtcdApi, EtcdCoordinator, unlocked, session_key, differ, own_meta, found_or_claimed,
  existing_meta, claim_session, get_or_create_session,
}
use ion_cluster.Coordinator.Etcd.Service.{EtcdLaws}

module _ {S : Sfu} {E : EtcdApi} (L : EtcdLaws E) where
  -- What etcd holds under a session's key, as the node's client sees it.
  abbrev pub stored : String → World S (EtcdCoordinator S E) → Option Json
  stored sid w = L.kv w.coordinator.client (session_key sid)

  claim_session-stores :
      (sid : String) (w : World S (EtcdCoordinator S E)) (m : SessionMeta)
      → (claim_session sid w).0 ≡ ok m
      → let w' : World S (EtcdCoordinator S E) = (claim_session sid w).1 in
        (m ≡ own_meta sid w) × (stored sid w' ≡ some (marshal_meta m))
  unfolding claim_session
  claim_session-stores sid w m h = grind (arith, L.kv-put)

  pub claim_session-kv_ne :
      (sid j : String) (w : World S (EtcdCoordinator S E))
      → session_key sid ≢ j
      → L.kv (claim_session sid w).1.coordinator.client j ≡ L.kv w.coordinator.client j
  unfolding claim_session
  claim_session-kv_ne sid j w h = grind (arith, L.kv-put_ne, L.kv-grant, L.kv-keep_alive)

  -- The value under the key is the JSON of a meta of that session.
  abbrev pub HoldsMeta : String → World S (EtcdCoordinator S E) → Type 0
  HoldsMeta sid w =
      (v : Json)
      → stored sid w ≡ some v
      → (m : SessionMeta) × (v ≡ marshal_meta m) × (m.session_id ≡ sid)

  pub existing_meta-result :
      (m : SessionMeta) (w : World S (EtcdCoordinator S E))
      → existing_meta (marshal_meta m) w
        ≡ (ok (record m { redirect = differ m.node_id w.coordinator.node_id }), w)
  unfolding existing_meta
  existing_meta-result m w = rw (unmarshal_meta-marshal_meta m)

  -- What a successful call has done: taken a free session, or found it with its owner.
  abbrev pub Served :
      String → World S (EtcdCoordinator S E) → SessionMeta → World S (EtcdCoordinator S E) → Type 0
  Served sid w m w' =
      ((stored sid w ≡ none) × (m ≡ own_meta sid w) × (stored sid w' ≡ some (marshal_meta m)))
      ⊎ ((owner : SessionMeta) × (stored sid w ≡ some (marshal_meta owner))
          × (m ≡ record owner { redirect = differ owner.node_id w.coordinator.node_id })
          × (stored sid w' ≡ some (marshal_meta owner)))

  -- The world after the read of a key.
  abbrev pub after_get : String → World S (EtcdCoordinator S E) → World S (EtcdCoordinator S E)
  after_get sid w = record w {
    coordinator = record (w.coordinator) {
      client = (E.get (session_key sid) w.coordinator.client).1;
    };
  }

  found_or_claimed-Served :
      (sid : String) (w : World S (EtcdCoordinator S E)) (m : SessionMeta)
      → HoldsMeta sid w
      → (found_or_claimed sid w).0 ≡ ok m
      → Served sid w m (found_or_claimed sid w).1
  unfolding found_or_claimed
  found_or_claimed-Served sid w m hm h =
      elim (Result-cases (E.get (session_key sid) w.coordinator.client).0) [
        | inl (e, failed) ↦ absurd (ground arith)
        | inr (none, absent) ↦
            let claimed =
              claim_session-stores sid (after_get sid w) m (rw (absent, found_or_claimed) at h) in
            inl (
              L.get_result (session_key sid) _ none absent,
              claimed.0,
              rw (absent, found_or_claimed) claimed.1,
            )
        | inr (some v, present) ↦
            let seen : stored sid w ≡ some v = L.get_result (session_key sid) _ (some v) present in
            let (owner, is_meta, _) = hm v seen in
            inr (
              owner,
              ground arith,
              ground (arith, existing_meta-result owner (after_get sid w)),
              ground (
                arith,
                existing_meta-result owner (after_get sid w),
                L.kv-get (session_key sid) w.coordinator.client (session_key sid),
              ),
            )
      ]

  -- The world in which the node holds the session's etcd mutex.
  abbrev pub locked : String → World S (EtcdCoordinator S E) → World S (EtcdCoordinator S E)
  locked sid w = record w {
    coordinator = record (w.coordinator) {
      client = (E.lock (session_key sid) (E.new_session w.coordinator.client).1).1;
    };
  }

  pub stored-locked :
      (sid j : String) (w : World S (EtcdCoordinator S E))
      → L.kv (locked sid w).coordinator.client j ≡ L.kv w.coordinator.client j
  stored-locked sid j w = L.kv-lock _ _ j ∙ L.kv-new_session _ j

  -- A call either fails before it holds the mutex, and has then changed no session key, or runs
  -- its rest under the mutex and lets go of it.
  pub get_or_create_session-cases :
      (sid : String) (w : World S (EtcdCoordinator S E))
      → let w' : World S (EtcdCoordinator S E) = (get_or_create_session sid w).1 in
        ((e : Error) × ((get_or_create_session sid w).0 ≡ err e)
          × ((j : String) → L.kv w'.coordinator.client j ≡ L.kv w.coordinator.client j)
          × (record w' { coordinator = record (w'.coordinator) { client = w.coordinator.client } }
              ≡ w))
        ⊎ (get_or_create_session sid w
            ≡ deferring (unlocked (session_key sid)) (found_or_claimed sid) (locked sid w))
  unfolding get_or_create_session
  get_or_create_session-cases sid w = elim (Result-cases (E.new_session w.coordinator.client).0) [
    | inl (e, failed) ↦ inl (
      e,
      ground arith,
      λ j. ground (arith, L.kv-new_session w.coordinator.client j),
      ground arith,
    )
    | inr (u, opened) ↦
        elim (Result-cases (E.lock (session_key sid) (E.new_session w.coordinator.client).1).0) [
          | inl (e, failed) ↦
              inl (e, ground arith, λ j. ground (arith, stored-locked sid j w), ground arith)
          | inr (v, held) ↦ inr (ground arith)
        ]
  ]

  -- A call that succeeds has taken a session that nobody had, and has stored this node's meta under
  -- its key, with no redirect; or it found the meta of the session's owner, which stays, and
  -- redirects exactly if the owner is another node. Here the key holds a
  -- meta of the session, if anything.
  pub get_or_create_session-Served :
      (sid : String) (w : World S (EtcdCoordinator S E)) (m : SessionMeta)
      → HoldsMeta sid w
      → (get_or_create_session sid w).0 ≡ ok m
      → Served sid w m (get_or_create_session sid w).1
  get_or_create_session-Served sid w m hm h = elim (get_or_create_session-cases sid w) [
    | inl (e, failed, _, _) ↦ absurd (cc)
    | inr ran ↦
        let served =
          found_or_claimed-Served sid (locked sid w) m
            (λ v e. hm v (sym (stored-locked sid (session_key sid) w) ∙ e)) (rw ran at h) in
        let before = stored-locked sid (session_key sid) w in
        let after =
          L.kv-unlock (session_key sid) (found_or_claimed sid (locked sid w)).1.coordinator.client
            (session_key sid) in
        rw ran (elim served [
          | inl (free, own, put) ↦ inl (sym before ∙ free, own, after ∙ put)
          | inr (owner, there, found, kept) ↦ inr (owner, sym before ∙ there, found, after ∙ kept)
        ])
  ]
