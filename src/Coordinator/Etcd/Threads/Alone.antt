-- ===== src/Coordinator/Etcd/Threads/Alone.antt =====
-- pkg/coordinator_etcd.go: a call that no other interrupts, move by move, is the call as a whole.
use ion_cluster.Base.{String, ℕ, zero, suc, ◌≡◌, arith, inl, inr, none, some}
use ion_cluster.Session.{Sfu}
use ion_cluster.Coordinator.{SessionMeta, Result, ok, err, Result-cases, deferring, ◌>>◌, World}
use ion_cluster.Coordinator.Wire.{marshal_meta}
use ion_cluster.Coordinator.Etcd.{
  EtcdApi, unlocked, session_key, own_meta, on_client, EtcdCoordinator, get_or_create_session,
  on_session_closed, found_or_claimed, claim_session, existing_meta, close_locked, release_lease,
}
use ion_cluster.Coordinator.Etcd.Threads.{
  Call, Outcome, closed, failed, Pc, opens, returns, grants, reads, releases, locks, outcome,
  advance,
}

abbrev pub closing : Result (Unit {0}) → Outcome
closing (ok _) = closed
closing (err e) = failed e

module _ {S : Sfu} {E : EtcdApi} where
  -- A number of moves of one call.
  pub moves : ℕ → Call → Pc E → World S (EtcdCoordinator S E) → Pc E × World S (EtcdCoordinator S E)
  moves zero c pc w = (pc, w)
  moves (suc n) c pc w = let (pc', w') = advance c pc w in moves n c pc' w'

  -- A run with the mutex let go of behind it.
  abbrev under_mutex :
      String
      → Result SessionMeta × World S (EtcdCoordinator S E)
      → Pc E × World S (EtcdCoordinator S E)
  under_mutex sid (r, w) = (returns (outcome r), unlocked (session_key sid) w)

  abbrev put_made : String → E.Lease → World S (EtcdCoordinator S E) → Result (Unit {0}) × E.State
  put_made sid lease w =
      E.put (session_key sid) (marshal_meta (own_meta sid w)) lease
        (E.keep_alive lease (E.grant w.coordinator.client).1)

  moves-claim :
      (sid : String) (w : World S (EtcdCoordinator S E))
      → moves 5 (Call.get_or_create_session sid) grants w ≡ under_mutex sid (claim_session sid w)
  unfolding moves advance claim_session
  moves-claim sid w = elim (Result-cases (E.grant w.coordinator.client).0) [
    | inl (e, lost) ↦ ground arith
    | inr (lease, given) ↦ elim (Result-cases (put_made sid lease w).0) [
      | inl (e, lost) ↦ ground arith
      | inr (u, put) ↦ ground arith
    ]
  ]

  moves-found :
      (sid : String) (w : World S (EtcdCoordinator S E))
      → moves 6 (Call.get_or_create_session sid) reads w ≡ under_mutex sid (found_or_claimed sid w)
  unfolding moves advance found_or_claimed existing_meta
  moves-found sid w = elim (Result-cases (E.get (session_key sid) w.coordinator.client).0) [
    | inl (e, lost) ↦ ground arith
    | inr (none, absent) ↦ ground (arith, moves-claim sid (on_client (E.get (session_key sid)) w).1)
    | inr (some value, present) ↦ ground arith
  ]

  moves-locks :
      (sid : String) (w : World S (EtcdCoordinator S E))
      → let (r, w') =
          (on_client (E.lock (session_key sid))
              >> deferring (unlocked (session_key sid)) (found_or_claimed sid))
            w in
        moves 7 (Call.get_or_create_session sid) locks w ≡ (returns (outcome r), w')
  unfolding moves advance
  moves-locks sid w = elim (Result-cases (E.lock (session_key sid) w.coordinator.client).0) [
    | inl (e, lost) ↦ ground arith
    | inr (u, taken) ↦ ground (arith, moves-found sid (on_client (E.lock (session_key sid)) w).1)
  ]

  moves-close :
      (sid : String) (w : World S (EtcdCoordinator S E))
      → let (r, w') = close_locked sid w in
        moves 6 (Call.on_session_closed sid) releases w
        ≡ (returns (closing r), unlocked (session_key sid) w')
  unfolding moves advance close_locked release_lease
  moves-close sid w = ground arith

  moves-locks_close :
      (sid : String) (w : World S (EtcdCoordinator S E))
      → let (r, w') =
          (on_client (E.lock (session_key sid))
              >> deferring (unlocked (session_key sid)) (close_locked sid))
            w in
        moves 7 (Call.on_session_closed sid) locks w ≡ (returns (closing r), w')
  unfolding moves advance
  moves-locks_close sid w = elim (Result-cases (E.lock (session_key sid) w.coordinator.client).0) [
    | inl (e, lost) ↦ ground arith
    | inr (u, taken) ↦ ground (arith, moves-close sid (on_client (E.lock (session_key sid)) w).1)
  ]

  -- The call as a whole: how it ends, and the world that it leaves.
  abbrev pub whole : Call → World S (EtcdCoordinator S E) → Outcome × World S (EtcdCoordinator S E)
  whole (Call.get_or_create_session sid) w =
      let (r, w') = get_or_create_session sid w in (outcome r, w')
  whole (Call.on_session_closed sid) w = let (r, w') = on_session_closed sid w in (closing r, w')

  -- Eight moves from its start take a call that no other interrupts to its return, with the outcome
  -- and the world of the whole call.
  pub moves-whole :
      (c : Call) (w : World S (EtcdCoordinator S E))
      → moves 8 c opens w ≡ (returns (whole c w).0, (whole c w).1)
  unfolding moves advance get_or_create_session on_session_closed
  moves-whole (Call.get_or_create_session sid) w =
      elim (Result-cases (E.new_session w.coordinator.client).0) [
        | inl (e, lost) ↦ ground arith
        | inr (u, made) ↦ ground (arith, moves-locks sid (on_client E.new_session w).1)
      ]
  moves-whole (Call.on_session_closed sid) w =
      elim (Result-cases (E.new_session w.coordinator.client).0) [
        | inl (e, lost) ↦ ground arith
        | inr (u, made) ↦ ground (arith, moves-locks_close sid (on_client E.new_session w).1)
      ]
