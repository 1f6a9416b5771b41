-- ===== src/Node.antt =====
-- pkg/server.go and pkg/server_jsonrpc.go together: a node with all its connections, whose requests,
-- callbacks and goroutines take turns on one memory. A step of a connection may come at any time, also
-- where a connection that has closed would take none.
pub mod Peers
pub mod Turns
pub mod Moves
pub mod Goroutines
pub mod Bound
pub mod Soundness
pub mod Draining
mod Tests
use ion_cluster.Base.{
  ℕ, zero, suc, ◌≡◌, ◌≢◌, String, Bool, false, some, List, [], ◌∷◌, ◌++◌, get_elem?, set,
}
use ion_cluster.Base.Int.{ℤ}
use ion_cluster.Config.{SignalConfig}
use ion_cluster.Metrics.{new_gauges}
use ion_cluster.Session.{Sfu}
use ion_cluster.Auth.{JwtApi}
use ion_cluster.Coordinator.{World, Coordinator, CoordinatorLaws}
use ion_cluster.Rpc.{
  PeerApi, Listener, Conn, Request, done, handle, on_offer, on_ice_candidate,
  on_ice_connection_state_change, deliver, stop,
}
use ion_cluster.Server.{HttpRequest, Served, opens, serve_websocket, finish}

-- The connections opened so far, each with its state after its last turn, and the node's memory; the
-- copies of the memory that the connections hold are not looked at.
pub record Node (S : Sfu) (P : PeerApi S) (C : Type 0) : Type 0 where
  pub conns : List (Conn S P C)
  pub world : World S C

-- The list without the entry at an index.
abbrev pub remove_at : {A : Type 0} → ℕ → List A → List A
remove_at i [] = []
remove_at zero (x ∷ xs) = xs
remove_at (suc i) (x ∷ xs) = x ∷ remove_at i xs

module _ {S : Sfu} {P : PeerApi S} {C : Type 0} where
  -- A connection at its turn, and the node after it.
  abbrev pub at_turn : World S C → Conn S P C → Conn S P C
  at_turn w k = record k { world = w }

  abbrev pub after_turn : List (Conn S P C) → ℕ → Conn S P C → Node S P C
  after_turn conns i k = record { conns = set conns i k; world = k.world }

  -- `JSONSignal{…, sfu.NewPeer(s.c), ""}`
  abbrev pub new_conn : P.Peer → World S C → Conn S P C
  new_conn p w = record {
    peer = p;
    sid = "";
    callbacks = false;
    listeners = [];
    closed = false;
    out = [];
    world = w;
  }

  -- The goroutine at an index among the connection's has ended.
  abbrev pub ended : String → ℕ → Listener → Conn S P C → Conn S P C
  ended pod j l k = record (stop pod l k) { listeners = remove_at j k.listeners }

module _ {S : Sfu} {P : PeerApi S} {C : Type 0} (T : JwtApi) (c : Coordinator S C)
    (L : CoordinatorLaws S C c) (parses : String → Bool) (config : SignalConfig)
    (pod : String) where
  -- One turn of a connection, or a request that opens one or not, the end of a request, or the run of a
  -- session's close handler.
  pub data Step (n : Node S P C) : Node S P C → Type 0 where
    -- an HTTP request that opens no websocket here
    asks :
        (r : HttpRequest) (s : Served) (w : World S C)
        → serve_websocket T c parses config r n.world ≡ (s, w)
        → s ≢ opens
        → Step n (record n { world = w })
    connects :
        (r : HttpRequest) (p : P.Peer) (w : World S C)
        → serve_websocket T c parses config r n.world ≡ (opens, w)
        → Step n (record { conns = n.conns ++ new_conn p w ∷ []; world = w })
    finishes : (s : Served) → Step n (record n { world = finish s n.world })
    requests :
        (i : ℕ) (k k' : Conn S P C) (req : Request S P)
        → get_elem? n.conns i ≡ some k
        → handle c pod req (at_turn n.world k) ≡ done k'
        → Step n (after_turn n.conns i k')
    offers :
        (i : ℕ) (k : Conn S P C) (d : P.Description)
        → get_elem? n.conns i ≡ some k
        → Step n (after_turn n.conns i (on_offer d (at_turn n.world k)))
    finds_candidate :
        (i : ℕ) (k : Conn S P C) (x : P.Candidate) (target : ℤ)
        → get_elem? n.conns i ≡ some k
        → Step n (after_turn n.conns i (on_ice_candidate x target (at_turn n.world k)))
    changes_state :
        (i : ℕ) (k : Conn S P C) (failed_or_closed : Bool)
        → get_elem? n.conns i ≡ some k
        → Step n (
            after_turn n.conns i
              (on_ice_connection_state_change failed_or_closed (at_turn n.world k)))
    delivers :
        (i j : ℕ) (k : Conn S P C) (l : Listener)
        → get_elem? n.conns i ≡ some k
        → get_elem? k.listeners j ≡ some l
        → Step n (after_turn n.conns i (deliver l (at_turn n.world k)))
    stops :
        (i j : ℕ) (k : Conn S P C) (l : Listener)
        → get_elem? n.conns i ≡ some k
        → get_elem? k.listeners j ≡ some l
        → Step n (after_turn n.conns i (ended pod j l (at_turn n.world k)))
    closes : (w : World S C) → L.Ends n.world w → Step n (record n { world = w })

  pub data Reach (n : Node S P C) : Node S P C → Type 0 where
    here : Reach n n
    next : {t u : Node S P C} → Reach n t → Step t u → Reach n u
