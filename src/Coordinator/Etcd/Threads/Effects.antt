-- ===== src/Coordinator/Etcd/Threads/Effects.antt =====
-- pkg/coordinator_etcd.go: what one move of a call does to the session keys and to the mutexes.
use ion_cluster.Base.{
  append-cancel_left, ◌≡◌, refl, ap, ◌∙◌, ◌≢◌, String, true, false, Option, none, some, arith, inl,
  inr, ◌⊎◌, text_discrete,
}
use ion_cluster.Session.{Sfu}
use ion_cluster.Coordinator.{SessionMeta, ok, Result-cases, World}
use ion_cluster.Coordinator.Wire.{Json, marshal_meta}
use ion_cluster.Coordinator.Etcd.{
  EtcdApi, EtcdCoordinator, session_key, own_meta, differ, release_lease, forget_session,
}
use ion_cluster.Coordinator.Etcd.Service.{EtcdLaws, LockLaws}
use ion_cluster.Coordinator.Etcd.Ownership.{after_get, HoldsMeta, existing_meta-result}
use ion_cluster.Coordinator.Etcd.Agreement.{Left}
use ion_cluster.Coordinator.Etcd.Threads.{
  Call, Outcome, session_of, key_of, Pc, puts, advance, entered, inside, claims, answer,
}

-- Sessions of different ids have different keys.
pub session_key-injective : (a b : String) → session_key a ≡ session_key b → a ≡ b
unfolding session_key
session_key-injective a b e = append-cancel_left "/session/" a b e

pub answer_kept :
    (E : EtcdApi) {m : SessionMeta} (o : Outcome)
    → answer {E = E} (Pc.returns o) ≡ some m
    → answer {E = E} (Pc.unlocks o) ≡ some m
answer_kept E (Outcome.met _) h = h
answer_kept E Outcome.closed h = h
answer_kept E (Outcome.failed _) h = h

module _ {S : Sfu} {E : EtcdApi} (L : EtcdLaws E) where
  -- What a move may make of a key: it stays, it goes, or it becomes the claim of the call's node.
  abbrev pub KeyAfter : Call → Pc E → World S (EtcdCoordinator S E) → String → Option Json → Type 0
  KeyAfter c pc w j v =
      (v ≡ L.kv w.coordinator.client j)
      ⊎ ((v ≡ none)
          ⊎ ((key_of c ≡ j)
              × ((lease : E.Lease) × (pc ≡ puts lease))
              × (v ≡ some (marshal_meta (own_meta (session_of c) w)))))

  -- What follows a deletion leaves etcd alone.
  deletes-client :
      (c : Call) (w : World S (EtcdCoordinator S E)) (j : String)
      → L.kv (advance c Pc.deletes w).1.coordinator.client j
        ≡ L.kv (E.delete (key_of c) w.coordinator.client).1 j
  unfolding advance forget_session
  deletes-client c w j = ground arith

  pub advance-KeyAfter :
      (c : Call) (pc : Pc E) (w : World S (EtcdCoordinator S E)) (j : String)
      → KeyAfter c pc w j (L.kv (advance c pc w).1.coordinator.client j)
  unfolding advance release_lease
  advance-KeyAfter c Pc.opens w j = inl (L.kv-new_session _ j)
  advance-KeyAfter c Pc.locks w j = inl (L.kv-lock _ _ j)
  advance-KeyAfter c Pc.reads w j = inl (L.kv-get _ _ j)
  advance-KeyAfter c Pc.grants w j = inl (L.kv-grant _ j)
  advance-KeyAfter c (Pc.keeps lease) w j = inl (L.kv-keep_alive lease _ j)
  advance-KeyAfter c (Pc.records lease) w j = inl refl
  advance-KeyAfter c (Pc.puts lease) w j = elim (text_discrete (key_of c) j) [
    | no other ↦ inl (L.kv-put_ne _ _ _ _ _ other)
    | yes same ↦
        elim (L.kv-put_either (key_of c) (marshal_meta (own_meta (session_of c) w)) lease
          w.coordinator.client) [
            | inl put ↦ inr (inr (same, (lease, refl), ground arith))
            | inr kept ↦ inl (ground arith)
          ]
  ]
  advance-KeyAfter c Pc.releases w j = inl (grind (arith, L.kv-cancel_lease))
  advance-KeyAfter c Pc.deletes w j = elim (text_discrete (key_of c) j) [
    | no other ↦ inl (deletes-client c w j ∙ L.kv-delete_ne _ _ _ other)
    | yes same ↦ elim (L.kv-delete_either (key_of c) w.coordinator.client) [
      | inl gone ↦ inr (inl (ground (arith, deletes-client c w j)))
      | inr kept ↦ inl (ground (arith, deletes-client c w j))
    ]
  ]
  advance-KeyAfter c (Pc.unlocks o) w j = inl (L.kv-unlock _ _ j)
  advance-KeyAfter c (Pc.returns o) w j = inl refl

  -- The claim of a call that goes on to store it was free before its move or is still.
  pub advance-claims :
      (c : Call) (pc : Pc E) (w : World S (EtcdCoordinator S E))
      → (claims pc ≡ true → L.kv w.coordinator.client (key_of c) ≡ none)
      → claims (advance c pc w).0 ≡ true
      → L.kv (advance c pc w).1.coordinator.client (key_of c) ≡ none
  unfolding advance
  advance-claims c Pc.opens w f h = absurd (ground arith)
  advance-claims (Call.get_or_create_session _) Pc.locks w f h = absurd (ground arith)
  advance-claims (Call.on_session_closed _) Pc.locks w f h = absurd (ground arith)
  advance-claims c Pc.reads w f h = elim (Result-cases (E.get (key_of c) w.coordinator.client).0) [
    | inl (e, lost) ↦ absurd (ground arith)
    | inr (none, absent) ↦ L.kv-get _ _ _ ∙ L.get_result _ _ _ absent
    | inr (some v, present) ↦ absurd (ground arith)
  ]
  advance-claims c Pc.grants w f h = L.kv-grant _ _ ∙ f refl
  advance-claims c (Pc.keeps lease) w f h = L.kv-keep_alive _ _ _ ∙ f refl
  advance-claims c (Pc.records lease) w f h = f refl
  advance-claims c (Pc.puts lease) w f h = absurd (ground arith)
  advance-claims c Pc.releases w f h = absurd (cc)
  advance-claims c Pc.deletes w f h = absurd (ground arith)
  advance-claims c (Pc.unlocks o) w f h = absurd (cc)
  advance-claims c (Pc.returns o) w f h = absurd (cc)

  -- A move that settles what a call will return leaves the claim of the answer's owner in place.
  pub advance-Left :
      (c : Call) (pc : Pc E) (w : World S (EtcdCoordinator S E)) (m : SessionMeta)
      → HoldsMeta L (session_of c) w
      → answer (advance c pc w).0 ≡ some m
      → (answer pc ≡ some m)
        ⊎ Left (session_of c) m (L.kv (advance c pc w).1.coordinator.client (key_of c))
  unfolding advance
  advance-Left c Pc.opens w m hm h = absurd (ground arith)
  advance-Left (Call.get_or_create_session _) Pc.locks w m hm h = absurd (ground arith)
  advance-Left (Call.on_session_closed _) Pc.locks w m hm h = absurd (ground arith)
  advance-Left c Pc.reads w m hm h = elim (Result-cases (E.get (key_of c) w.coordinator.client).0) [
    | inl (e, lost) ↦ absurd (ground arith)
    | inr (none, absent) ↦ absurd (ground arith)
    | inr (some v, present) ↦
        let seen = L.get_result (key_of c) w.coordinator.client (some v) present in
        let (owner, is_meta, of_sid) = hm v seen in
        let w' : World S (EtcdCoordinator S E) = after_get L (session_of c) w in
        let same : m ≡ record owner { redirect = differ owner.node_id w.coordinator.node_id } =
          ground (arith, existing_meta-result L owner w') in
        inr (record {
          owner = owner;
          holds = L.kv-get _ _ _ ∙ seen ∙ ap some is_meta;
          of_session = of_sid;
          session = ground arith;
          node = ground arith;
          endpoint = ground arith;
        })
  ]
  advance-Left c Pc.grants w m hm h = absurd (ground arith)
  advance-Left c (Pc.keeps lease) w m hm h = absurd (cc)
  advance-Left c (Pc.records lease) w m hm h = absurd (cc)
  advance-Left c (Pc.puts lease) w m hm h =
      elim (Result-cases
        (E.put (key_of c) (marshal_meta (own_meta (session_of c) w)) lease
          w.coordinator.client).0) [
            | inl (e, lost) ↦ absurd (ground arith)
            | inr (u, put) ↦
                let mine : m ≡ own_meta (session_of c) w = ground arith in
                inr (record {
                  owner = m;
                  holds = ground (
                    arith,
                    L.kv-put (key_of c) (marshal_meta (own_meta (session_of c) w)) lease
                        w.coordinator.client,
                  );
                  of_session = ground arith;
                  session = ground arith;
                  node = refl;
                  endpoint = refl;
                })
          ]
  advance-Left c Pc.releases w m hm h = absurd (cc)
  advance-Left c Pc.deletes w m hm h = absurd (ground arith)
  advance-Left c (Pc.unlocks o) w m hm h = inl (answer_kept E o h)
  advance-Left c (Pc.returns o) w m hm h = inl h

entered-inside :
    (E : EtcdApi) (c : Call) (u : Unit {0}) → false ≡ inside {E = E} (entered c (ok u)) → ⊥
entered-inside E (Call.get_or_create_session _) u h = cc
entered-inside E (Call.on_session_closed _) u h = cc

module _ {S : Sfu} {E : EtcdApi} (K : LockLaws E) where
  -- A move that neither takes nor gives the mutex leaves all mutexes as they are.
  pub advance-held :
      (c : Call) (pc : Pc E) (w : World S (EtcdCoordinator S E)) (j : String)
      → inside pc ≡ inside (advance c pc w).0
      → K.held (advance c pc w).1.coordinator.client j ≡ K.held w.coordinator.client j
  unfolding advance release_lease forget_session
  advance-held c Pc.opens w j same = K.held-new_session _ j
  advance-held c Pc.locks w j same =
      elim (Result-cases (E.lock (key_of c) w.coordinator.client).0) [
        | inl lost ↦ K.lock_keeps _ _ j (inr lost)
        | inr (u, taken) ↦
            absurd (entered-inside E c u (same ∙ ap (λ r. inside {E = E} (entered c r)) taken))
      ]
  advance-held c Pc.reads w j same = K.held-get _ _ j
  advance-held c Pc.grants w j same = K.held-grant _ j
  advance-held c (Pc.keeps lease) w j same = K.held-keep_alive lease _ j
  advance-held c (Pc.records lease) w j same = refl
  advance-held c (Pc.puts lease) w j same = K.held-put _ _ _ _ j
  advance-held c Pc.releases w j same = grind (arith, K.held-cancel_lease)
  advance-held c Pc.deletes w j same =
      ground (arith, K.held-delete (key_of c) w.coordinator.client j)
  advance-held c (Pc.unlocks o) w j same = absurd (cc)
  advance-held c (Pc.returns o) w j same = refl

  -- A move into the mutex finds it free and takes it.
  pub advance-takes :
      (c : Call) (pc : Pc E) (w : World S (EtcdCoordinator S E))
      → inside pc ≡ false
      → inside (advance c pc w).0 ≡ true
      → (K.held w.coordinator.client (key_of c) ≡ false)
        × (K.held (advance c pc w).1.coordinator.client (key_of c) ≡ true)
  unfolding advance
  advance-takes c Pc.opens w out enters = absurd (ground arith)
  advance-takes c Pc.locks w out enters =
      elim (Result-cases (E.lock (key_of c) w.coordinator.client).0) [
        | inl (e, lost) ↦ absurd (ground arith)
        | inr (u, taken) ↦ (K.lock_free _ _ taken, K.lock_held _ _ taken)
      ]
  advance-takes c (Pc.returns o) w out enters = absurd (cc)
  advance-takes c _ w out enters = absurd (cc)

  -- A move of a call leaves the mutexes of other sessions as they are.
  pub advance-held_ne :
      (c : Call) (pc : Pc E) (w : World S (EtcdCoordinator S E)) (j : String)
      → key_of c ≢ j
      → K.held (advance c pc w).1.coordinator.client j ≡ K.held w.coordinator.client j
  unfolding advance release_lease forget_session
  advance-held_ne c Pc.opens w j ne = K.held-new_session _ j
  advance-held_ne c Pc.locks w j ne = K.lock_keeps _ _ j (inl ne)
  advance-held_ne c Pc.reads w j ne = K.held-get _ _ j
  advance-held_ne c Pc.grants w j ne = K.held-grant _ j
  advance-held_ne c (Pc.keeps lease) w j ne = K.held-keep_alive lease _ j
  advance-held_ne c (Pc.records lease) w j ne = refl
  advance-held_ne c (Pc.puts lease) w j ne = K.held-put _ _ _ _ j
  advance-held_ne c Pc.releases w j ne = grind (arith, K.held-cancel_lease)
  advance-held_ne c Pc.deletes w j ne =
      ground (arith, K.held-delete (key_of c) w.coordinator.client j)
  advance-held_ne c (Pc.unlocks o) w j ne = K.unlock_keeps _ _ j ne
  advance-held_ne c (Pc.returns o) w j ne = refl
