-- ===== src/Coordinator/Etcd/Threads/Tests.antt =====
-- pkg/coordinator_etcd.go on two nodes that ask for one session at once.
use ion_cluster.Base.{
  ℕ, ◌≡◌, refl, String, true, false, none, some, List, [], ◌∷◌, arith, inl, inr, ◌⊎◌, ite, lookup,
  ℕ_discrete, text_discrete,
}
use ion_cluster.Coordinator.{SessionMeta, World, ok}
use ion_cluster.Coordinator.Wire.{marshal_meta, unmarshal_meta}
use ion_cluster.Coordinator.Etcd.{
  EtcdCoordinator, session_key, differ, existing_meta, on_session_closed, close_locked,
  release_lease, forget_session,
}
use ion_cluster.Coordinator.Etcd.Closing.{close_forgets_session}
use ion_cluster.Coordinator.Etcd.Threads.{Call, Pc, Cluster, moved, advance, inside, answer}
use ion_cluster.Coordinator.Etcd.Threads.Steps.{Reach, Step, Starts}
use ion_cluster.Coordinator.Etcd.Threads.Exclusion.{calls-exclude, stored-unmarshals}
use ion_cluster.Coordinator.Etcd.Threads.Registry.{Registers, Takers, registry, Step-Registers}
use ion_cluster.Coordinator.Etcd.Threads.Agreement.{Calm, calls-agree}
use ion_cluster.Base.Int.{pos}
use ion_cluster.Coordinator.Etcd.Threads.Samples.{is_held, taken, etcd, laws, lock_laws, lease_laws}
use ion_cluster.Samples.{sfu}

-- Two nodes ask for "room"; each call runs on the node of its number.
abbrev asks : ℕ → Call
asks i = Call.get_or_create_session "room"

abbrev on_node : ℕ → ℕ
on_node i = i

abbrev node : String → World sfu (EtcdCoordinator sfu etcd)
node id = record {
  coordinator = record {
    node_id = id;
    node_endpoint = id;
    client = record { entries = []; locks = []; kept = [] };
    w = tt;
    datachannels = tt;
    local_sessions = [];
    session_leases = [];
  };
  sessions = [];
  chans = [];
  gauges = record { sessions = pos 0; clients = pos 0; proxy_clients = pos 0 };
}

abbrev started : Cluster sfu etcd
started = record {
  client = record { entries = []; locks = []; kept = [] };
  nodes = λ n. ite (ℕ_discrete n 0) (node "n1") (node "n2");
  pcs = λ i. Pc.opens;
}

-- The moves so far, the last one first, by the numbers of the calls that made them.
abbrev after : List ℕ → Cluster sfu etcd
after [] = started
after (i ∷ is) = moved asks on_node i (after is)

reached : (is : List ℕ) → Reach laws lock_laws asks on_node started (after is)
reached [] = Reach.here
reached (i ∷ is) = Reach.next (reached is) (Step.moves i)

starts : Starts laws lock_laws asks on_node started
unfolding laws
starts = record { none_runs = λ i. refl; holds = λ sid v e. cc }

-- Both have opened a session of etcd, and the first holds the lock.
abbrev first_in : List ℕ
first_in = 0 ∷ 1 ∷ 0 ∷ []

first_is_inside : inside ((after first_in).pcs 0) ≡ true
unfolding ℕ_discrete moved advance taken session_key text_discrete
first_is_inside = refl

calls-exclude_example : ◌≡◌ {A = ℕ} 0 0
calls-exclude_example =
    calls-exclude laws lock_laws asks on_node started (after first_in) 0 0 starts (reached first_in)
      refl first_is_inside first_is_inside

-- The first has stored its claim and unlocked, and the second has read the claim.
abbrev first_out : List ℕ
first_out = 0 ∷ 0 ∷ 0 ∷ 0 ∷ 0 ∷ 0 ∷ first_in

abbrev both_know : List ℕ
both_know = 1 ∷ 1 ∷ first_out

abbrev owner : SessionMeta
owner = record { session_id = "room"; node_id = "n1"; node_endpoint = "n1"; redirect = false }

first_knows : answer ((after both_know).pcs 0) ≡ some owner
unfolding ℕ_discrete moved advance taken session_key text_discrete unmarshal_meta marshal_meta
    existing_meta
first_knows = refl

second_knows : answer ((after both_know).pcs 1) ≡ some (record owner { redirect = true })
unfolding ℕ_discrete moved advance taken session_key text_discrete unmarshal_meta marshal_meta
    existing_meta
second_knows = refl

claimed : laws.kv (after first_out).client (session_key "room") ≡ some (marshal_meta owner)
unfolding ℕ_discrete laws moved advance taken session_key text_discrete unmarshal_meta marshal_meta
    existing_meta
claimed = refl

-- The first call is about to store its claim, and does.
abbrev before_put : List ℕ
before_put = 0 ∷ 0 ∷ 0 ∷ 0 ∷ first_in

Step-Registers_example :
    Registers
      (Takers laws lock_laws asks on_node (after before_put) "room")
      (registry laws lock_laws asks on_node (after before_put) "room")
      (registry laws lock_laws asks on_node (after (0 ∷ before_put)) "room")
Step-Registers_example =
    Step-Registers laws lock_laws asks on_node started (after before_put) (after (0 ∷ before_put))
      "room" starts (reached before_put) (Step.moves 0)

stored-unmarshals_example :
    (m : SessionMeta) × (unmarshal_meta (marshal_meta owner) ≡ some m) × (m.session_id ≡ "room")
stored-unmarshals_example =
    stored-unmarshals laws lock_laws asks on_node started (after first_out) "room"
      (marshal_meta owner) starts (reached first_out) claimed

-- Before each of the moves nobody has the session, or after it the first node has.
abbrev KeepsClaim : List ℕ → Type 0
KeepsClaim [] = Unit
KeepsClaim (i ∷ is) =
    ((laws.kv (after is).client (session_key "room") ≡ none)
      ⊎ (laws.kv (after (i ∷ is)).client (session_key "room") ≡ some (marshal_meta owner)))
    × KeepsClaim is

calm : (is : List ℕ) → KeepsClaim is → Calm laws lock_laws asks on_node "room" started (after is)
calm [] h = Calm.here
calm (i ∷ is) (inl free, h) = Calm.next (calm is h) (Step.moves i) (λ had. absurd (had free))
calm (i ∷ is) (inr kept, h) = Calm.next (calm is h) (Step.moves i) (λ had gone. ground arith)

claim_kept : KeepsClaim both_know
unfolding ℕ_discrete laws moved advance taken session_key text_discrete unmarshal_meta marshal_meta
    existing_meta
claim_kept = (
  inr refl,
  (
    inr refl,
    (
      inr refl,
      (
        inr refl,
        (inl refl, (inl refl, (inl refl, (inl refl, (inl refl, (inl refl, (inl refl, tt))))))),
      ),
    ),
  ),
)

calls-agree_example :
    (owner.session_id ≡ "room")
    × (owner.session_id ≡ "room")
    × (owner.node_id ≡ owner.node_id)
    × (owner.node_endpoint ≡ owner.node_endpoint)
    × (owner.redirect ≡ differ "n1" ((after both_know).nodes 0).coordinator.node_id)
    × (true ≡ differ "n1" ((after both_know).nodes 1).coordinator.node_id)
calls-agree_example =
    calls-agree laws lock_laws asks on_node started started (after both_know) "room" 0 1 owner
      (record owner { redirect = true }) starts Reach.here (calm both_know claim_kept) refl refl
      refl refl first_knows second_knows

-- The first node keeps its lease of "room" alive, and its session ends.
abbrev owner_node : World sfu (EtcdCoordinator sfu etcd)
owner_node = record (node "n1") {
  coordinator = record ((node "n1").coordinator) {
    client = record { entries = []; locks = []; kept = ("lease", tt) ∷ [] };
    local_sessions = ("room", 0) ∷ [];
    session_leases = ("room", "lease") ∷ [];
  };
}

owner_keeps_lease : lease_laws.kept owner_node.coordinator.client "lease" ≡ true
unfolding lease_laws is_held text_discrete
owner_keeps_lease = refl

close_runs : (on_session_closed "room" owner_node).0 ≡ ok tt
unfolding on_session_closed close_locked release_lease forget_session taken session_key
    text_discrete
close_runs = refl

owner_has_lease : lookup "room" owner_node.coordinator.session_leases ≡ some "lease"
unfolding text_discrete
owner_has_lease = refl

close_forgets_session_example :
    lookup "room" (on_session_closed "room" owner_node).1.coordinator.session_leases ≡ none
close_forgets_session_example =
    (close_forgets_session laws lease_laws "room" (some "lease") owner_node owner_has_lease
      close_runs).1.1
