-- ===== src/Coordinator/Etcd/Tests.antt =====
-- pkg/coordinator_etcd.go on two nodes and an etcd that is a map.
use ion_cluster.Base.{
  ℕ, ◌<◌, ◌≡◌, refl, sym, ◌∙◌, String, true, false, none, some, [], ◌∷◌, lookup, HasUniqueKeys,
  length, text_discrete,
}
use ion_cluster.Base.Int.{pos}
use ion_cluster.Coordinator.{SessionMeta, ok, err, from_library, World, handler_in}
use ion_cluster.Coordinator.Wire.{marshal_meta, unmarshal_meta}
use ion_cluster.Coordinator.Etcd.{
  EtcdCoordinator, get_or_create_session, get_session, on_session_closed, found_or_claimed,
  claim_session, existing_meta, session_key, close_locked, release_lease, forget_session,
}
use ion_cluster.Coordinator.Etcd.Ownership.{Served, HoldsMeta, get_or_create_session-Served}
use ion_cluster.Coordinator.Etcd.Cluster.{Run}
use ion_cluster.Coordinator.Etcd.Closing.{failed_close_keeps_session}
use ion_cluster.Coordinator.Etcd.Bookkeeping.{Reach, Step, start_world, start-consistent_etcd}
use ion_cluster.Samples.{sfu, etcd, etcd_laws, etcd_laws_kv, etcd_world}

abbrev W : Type 0
W = World sfu (EtcdCoordinator sfu (etcd true))

-- The first node takes the session "room", and the second node asks for it then.
abbrev first_node : W
first_node = etcd_world true "n1" []

abbrev owner : SessionMeta
owner = record { session_id = "room"; node_id = "n1"; node_endpoint = "n1"; redirect = false }

abbrev second_node : W
second_node = etcd_world true "n2" (("/session/room", marshal_meta owner) ∷ [])

abbrev redirected : SessionMeta
redirected = record owner { redirect = true }

first_free : HoldsMeta etcd_laws "room" first_node
unfolding session_key
first_free v h = absurd (free (sym (etcd_laws_kv [] "/session/room") ∙ h))
  where
    free : (none ≡ some v) → ⊥
    free e = cc

first_takes : (get_or_create_session "room" first_node).0 ≡ ok owner
unfolding get_or_create_session found_or_claimed claim_session existing_meta session_key
    text_discrete unmarshal_meta marshal_meta
first_takes = refl

get_or_create_session-Served_example :
    Served etcd_laws "room" first_node owner (get_or_create_session "room" first_node).1
get_or_create_session-Served_example =
    get_or_create_session-Served etcd_laws "room" first_node owner first_free first_takes

-- A third node takes another session between the two calls.
abbrev third_node : W
third_node = etcd_world true "n3" (get_or_create_session "room" first_node).1.coordinator.client

abbrev last_node : W
last_node = etcd_world true "n2" (get_or_create_session "hall" third_node).1.coordinator.client

last_finds : (get_or_create_session "room" last_node).0 ≡ ok redirected
unfolding get_or_create_session found_or_claimed claim_session existing_meta session_key
    text_discrete unmarshal_meta marshal_meta
last_finds = refl

cluster_runs :
    Run sfu etcd_laws "room"
      (get_or_create_session "room" first_node).1.coordinator.client
      last_node.coordinator.client
cluster_runs = Run.calls "hall" third_node Run.stays

-- A node whose one session has ended, in a cluster that does not let it delete the key.
abbrev cut_off : World sfu (EtcdCoordinator sfu (etcd false))
cut_off = record (etcd_world false "n1" []) {
  coordinator = record ((etcd_world false "n1" []).coordinator) {
    local_sessions = ("room", 0) ∷ [];
  };
}

close_fails : (on_session_closed "room" cut_off).0 ≡ err (from_library "etcd is not there")
unfolding on_session_closed close_locked release_lease forget_session text_discrete
close_fails = refl

there : lookup "room" cut_off.coordinator.local_sessions ≡ some 0
unfolding text_discrete
there = refl

failed_close_keeps_session_example :
    let w' : World sfu (EtcdCoordinator sfu (etcd false)) = (on_session_closed "room" cut_off).1 in
    (get_session "room" w' ≡ ((0, tt), w')) × (w'.sessions ≡ []) × (w'.gauges ≡ cut_off.gauges)
failed_close_keeps_session_example =
    failed_close_keeps_session "room" 0 (from_library "etcd is not there") cut_off there close_fails

-- A node that has started, answered a request and looked its session up.
abbrev started : W
started = start_world [] "n1" "n1" tt tt

abbrev used : W
used = (get_session "room" (get_or_create_session "room" started).1).1

reached : Reach started used
reached = Reach.next (Reach.next Reach.here (Step.requests "room")) (Step.looks_up "room")

start-consistent_etcd_example :
    HasUniqueKeys used.coordinator.local_sessions
    × (used.gauges.sessions ≡ pos (length used.coordinator.local_sessions))
    × ((k : String) (r : ℕ)
        → lookup k used.coordinator.local_sessions ≡ some r
        → r < length used.sessions)
    × ((k : String) (r : ℕ)
        → handler_in used.sessions r ≡ some k
        → lookup k used.coordinator.local_sessions ≡ some r)
start-consistent_etcd_example = start-consistent_etcd [] "n1" "n1" tt tt used reached
