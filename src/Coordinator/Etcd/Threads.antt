-- ===== src/Coordinator/Etcd/Threads.antt =====
-- pkg/coordinator_etcd.go, `getOrCreateSession` and `onSessionClosed` as the goroutines of many nodes
-- run them at once: a move of a call is one call of the etcd client, with the work on the node's
-- memory up to the next, and between two moves of a call any others may make theirs.
-- A call of `Mutex.Lock` makes its move when it returns. The node's own mutex `mu` would only forbid
-- some of these orders.
pub mod Alone
pub mod Effects
pub mod Steps
pub mod Moving
pub mod Exclusion
pub mod Samples
pub mod Agreement
pub mod Redirects
pub mod Registry
mod Tests
use ion_cluster.Base.{ℕ, Bool, true, false, ◌≡◌, ◌⊎◌, String, Option, none, some, update}
use ion_cluster.Session.{Sfu}
use ion_cluster.Coordinator.{SessionMeta, Error, Result, ok, err, World}
use ion_cluster.Coordinator.Wire.{Json, marshal_meta}
use ion_cluster.Coordinator.Etcd.{
  EtcdApi, EtcdCoordinator, on_client, unlocked, session_key, set_lease, keep_lease, own_meta,
  existing_meta, release_lease, forget_session,
}
use ion_cluster.Coordinator.Etcd.Service.{EtcdLaws}

pub data Call : Type 0 where
  get_or_create_session on_session_closed : String → Call

abbrev pub session_of : Call → String
session_of (get_or_create_session sid) = sid
session_of (on_session_closed sid) = sid

abbrev pub key_of : Call → String
key_of c = session_key (session_of c)

-- What a call ends with: a meta, the end of the close handler, or an error.
pub data Outcome : Type 0 where
  met : SessionMeta → Outcome
  closed : Outcome
  failed : Error → Outcome

-- Where a call stands: what its next move is.
pub data Pc (E : EtcdApi) : Type 0 where
  opens locks : Pc E
  reads grants : Pc E
  keeps records puts : E.Lease → Pc E
  releases deletes : Pc E
  unlocks returns : Outcome → Pc E

abbrev pub outcome : Result SessionMeta → Outcome
outcome (ok m) = met m
outcome (err e) = failed e

module _ {E : EtcdApi} where
  -- `concurrency.NewSession`, `NewMutex` and `mu.Lock`: an error returns at once.
  abbrev pub opened : Result (Unit {0}) → Pc E
  opened (ok _) = locks
  opened (err e) = returns (failed e)

  -- The body behind the mutex.
  abbrev pub body : Call → Pc E
  body (get_or_create_session _) = reads
  body (on_session_closed _) = releases

  abbrev pub entered : Call → Result (Unit {0}) → Pc E
  entered c (ok _) = body c
  entered c (err e) = returns (failed e)

  -- Under the mutex an early return lets go of it.
  abbrev pub granted : Result (E.Lease) → Pc E
  granted (ok lease) = keeps lease
  granted (err e) = unlocks (failed e)

  abbrev pub stored_as : SessionMeta → Result (Unit {0}) → Pc E
  stored_as m (ok _) = unlocks (met m)
  stored_as m (err e) = unlocks (failed e)

module _ {S : Sfu} {E : EtcdApi} where
  abbrev pub read : World S (EtcdCoordinator S E) → Result (Option Json) → Pc E
  read w (err e) = unlocks (failed e)
  read w (ok (some value)) = unlocks (outcome (existing_meta value w).0)
  read w (ok none) = grants

  -- The body of `onSessionClosed`: the lease is let go, then the key is deleted.
  abbrev pub released :
      String → World S (EtcdCoordinator S E) → Pc E × World S (EtcdCoordinator S E)
  released sid w = (deletes, (release_lease sid w).1)

  abbrev pub deleted :
      String
      → Result (Unit {0}) × World S (EtcdCoordinator S E)
      → Pc E × World S (EtcdCoordinator S E)
  deleted sid (ok _, w) = (unlocks closed, forget_session sid w)
  deleted sid (err e, w) = (unlocks (failed e), w)

  -- A move of `getOrCreateSession`; the two moves between the mutex of `onSessionClosed` are `released`
  -- and `deleted`.
  unfoldable pub advance :
      Call → Pc E → World S (EtcdCoordinator S E) → Pc E × World S (EtcdCoordinator S E)
  advance c opens w = let (r, w') = on_client E.new_session w in (opened r, w')
  advance c locks w = let (r, w') = on_client (E.lock (key_of c)) w in (entered c r, w')
  advance c reads w = let (r, w') = on_client (E.get (key_of c)) w in (read w' r, w')
  advance c grants w = let (r, w') = on_client E.grant w in (granted r, w')
  advance c (keeps lease) w = (records lease, keep_lease lease w)
  advance c (records lease) w = (puts lease, set_lease (session_of c) lease w)
  advance c (puts lease) w =
      let meta = own_meta (session_of c) w in
      let (r, w') = on_client (E.put (key_of c) (marshal_meta meta) lease) w in
      (stored_as meta r, w')
  advance c releases w = released (session_of c) w
  advance c deletes w = deleted (session_of c) (on_client (E.delete (key_of c)) w)
  advance c (unlocks o) w = (returns o, unlocked (key_of c) w)
  advance c (returns o) w = (returns o, w)

-- Nodes that share an etcd and the calls that run on them. The `client` in a node's own world is not
-- read: a node sees the shared one.
pub record Cluster (S : Sfu) (E : EtcdApi) : Type 0 where
  pub client : E.State
  pub nodes : ℕ → World S (EtcdCoordinator S E)
  pub pcs : ℕ → Pc E

-- `calls i` is the call that goroutine `i` makes, on the node `node_of i`.
module _ {S : Sfu} {E : EtcdApi} (calls : ℕ → Call) (node_of : ℕ → ℕ) where
  -- The node of a call as it stands at its move.
  abbrev pub turn : Cluster S E → ℕ → World S (EtcdCoordinator S E)
  turn s i =
      let w = s.nodes (node_of i) in
      record w { coordinator = record (w.coordinator) { client = s.client } }

  -- The cluster after a move of the call `i`.
  unfoldable pub moved : ℕ → Cluster S E → Cluster S E
  moved i s =
      let (pc, w) = advance (calls i) (s.pcs i) (turn s i) in
      record {
        client = w.coordinator.client;
        nodes = update s.nodes (node_of i) w;
        pcs = update s.pcs i pc;
      }

-- The call holds the session's mutex.
abbrev pub inside : {E : EtcdApi} → Pc E → Bool
inside opens = false
inside locks = false
inside (returns _) = false
inside _ = true

-- The call has read that nobody has the session, and has not yet stored that it is this node's.
abbrev pub claims : {E : EtcdApi} → Pc E → Bool
claims grants = true
claims (keeps _) = true
claims (records _) = true
claims (puts _) = true
claims _ = false

-- The meta that the call returns, once it is known.
abbrev pub answer : {E : EtcdApi} → Pc E → Option SessionMeta
answer (unlocks (met m)) = some m
answer (returns (met m)) = some m
answer _ = none
