-- ===== src/Rpc/Tests.antt =====
-- pkg/server_jsonrpc.go: a connection to a node that keeps its sessions itself.
use ion_cluster.Base.{
  ◌≡◌, ◌≢◌, refl, ◌↔◌, true, inr, String, none, some, [], ◌∷◌, lookup, get_elem?, ite,
  text_discrete,
}
use ion_cluster.Session.{Session}
use ion_cluster.Coordinator.{CoordinatorLaws}
use ion_cluster.Coordinator.Local.{LocalCoordinator, coordinator_local}
use ion_cluster.Coordinator.Local.Interface.{start-IsValid, coordinator_local_laws}
use ion_cluster.Rpc.{Request, Out, Conn, Listener, done, panics, handle}
use ion_cluster.Rpc.Presences.{presence_set-stores}
use ion_cluster.Rpc.Replies.{SendsOne, ReadsParams, handle-answers, handle-panics}
use ion_cluster.Samples.{sfu, peers, conn, local_world}

abbrev K : Type 0
K = Conn sfu peers (LocalCoordinator sfu)

abbrev R : Type 0
R = Request sfu peers

abbrev laws : CoordinatorLaws sfu (LocalCoordinator sfu) coordinator_local
laws = coordinator_local_laws

valid : laws.IsValid conn.world
valid = start-IsValid sfu "n1" "ws://n1:7000" tt tt

abbrev ping : R
ping = record { method = "ping"; id = "7"; params = none }

abbrev ponged : K
ponged = record conn { out = Out.reply_pong "7" ∷ [] }

pings : handle coordinator_local "pod" ping conn ≡ done ponged
unfolding handle text_discrete
pings = refl

handle-answers_example : SendsOne "7" conn ponged
handle-answers_example =
    handle-answers coordinator_local "pod" ping conn ponged (inr (inr refl)) pings

abbrev bare_join : R
bare_join = record { method = "join"; id = "8"; params = none }

handle-panics_example :
    (handle coordinator_local "pod" bare_join conn ≡ panics)
    ↔ ((bare_join.params ≡ none) × ReadsParams coordinator_local bare_join conn)
handle-panics_example = handle-panics coordinator_local "pod" bare_join conn

abbrev set_presence : R
set_presence = record { method = "presence_set"; id = "9"; params = some "here" }

abbrev joined : K
joined = record conn { sid = "room"; peer = ("p1", true) }

not_empty : joined.sid ≢ ""
not_empty e = cc

presence_set-stores_example :
    let ((r, _), w) = coordinator_local.get_session "room" local_world in
    (k' : K) × (s : Session sfu) × (s' : Session sfu) × (handle coordinator_local "pod" set_presence
        joined
      ≡ done k')
    × (get_elem? w.sessions r ≡ some s)
    × (get_elem? k'.world.sessions r ≡ some s')
    × ((key : String)
        → lookup key s'.presence
          ≡ ite (text_discrete "p1" key) (some "here") (lookup key s.presence))
    × (k'.out ≡ [])
presence_set-stores_example =
    presence_set-stores coordinator_local laws "pod" set_presence joined "here" "here" valid refl
      refl refl not_empty

abbrev listener : Listener
listener = record { session = 0; listen = 0 }

abbrev old : Session sfu
old = record {
  presence = ("p1", "here") ∷ ("p2", "here") ∷ [];
  presence_revision = 2;
  broadcast_listeners = ("p1", 0) ∷ [];
  local = "room";
  on_close = some "room";
}

abbrev leaving : K
leaving = record joined { world = record local_world { sessions = old ∷ [] } }
