-- ===== src/Session.antt =====
-- pkg/session.go: the state that peers of one session share, and its broadcasts.
-- A channel is an index into the list of all channels, since a listener and its reader share it.
pub mod Delivery
pub mod Updates
pub mod History
pub mod Bounds
pub mod Ranging
mod Tests
use ion_cluster.Base.{
  ℕ, ◌+◌, ◌%◌, ◌^◌, String, Bool, true, false, Option, none, some, List, [], ◌∷◌, ◌++◌, Map, insert,
  delete, length, ltb, if◌then◌else◌,
}

-- What the session takes from third-party packages: the SFU's session object with what it is made
-- from, the dynamic values (`interface{}`) that clients send, and the deep copy of a map.
pub record Sfu : Type 1 where
  pub Value : Type 0
  pub SessionLocal : Type 0
  pub Datachannels : Type 0
  pub TransportConfig : Type 0
  pub new_session_local : String → Datachannels → TransportConfig → SessionLocal
  pub deepcopy : Map Value → Map Value

-- The wire form of a presence broadcast.
pub record Presence (S : Sfu) : Type 0 where
  pub revision : ℕ
  pub meta : Map (S.Value)
  pub system_info : Map String

-- `params interface{}`: a presence, or any other value.
pub data Params (S : Sfu) : Type 0 where
  presence : Presence S → Params S
  value : S.Value → Params S

pub record Broadcast (S : Sfu) : Type 0 where
  pub method : String
  pub params : Params S

-- A buffered Go channel.
pub record Chan (S : Sfu) : Type 0 where
  pub cap : ℕ
  pub buffer : List (Broadcast S)

-- `on_close` is the handler that the embedded SessionLocal holds: the session id that the closure
-- captured.
pub record Session (S : Sfu) : Type 0 where
  pub presence : Map (S.Value)
  pub presence_revision : ℕ
  pub broadcast_listeners : Map ℕ
  pub local : S.SessionLocal
  pub on_close : Option String

unfoldable pub new_session : (S : Sfu) → String → S.Datachannels → S.TransportConfig → Session S
new_session S id dcs cfg = record {
  presence = [];
  presence_revision = 0;
  broadcast_listeners = [];
  local = S.new_session_local id dcs cfg;
  on_close = none;
}

-- The map after `s.presence[peerID] = meta`, or after the delete where `meta` is nil.
abbrev pub put_meta : {V : Type 0} → String → Option V → Map V → Map V
put_meta peer_id (some meta) m = insert peer_id meta m
put_meta peer_id none m = delete peer_id m

module _ {S : Sfu} where
  -- `select { case ch <- msg: default: }` on a buffered channel.
  abbrev pub try_send : Broadcast S → Chan S → Chan S
  try_send msg ch =
      if ltb (length ch.buffer) ch.cap then record ch { buffer = ch.buffer ++ msg ∷ [] } else ch

  -- Sends to the channel at an index.
  abbrev pub send_at : ℕ → Broadcast S → List (Chan S) → List (Chan S)
  send_at i msg [] = []
  send_at ℕ.zero msg (ch ∷ chs) = try_send msg ch ∷ chs
  send_at (ℕ.suc i) msg (ch ∷ chs) = ch ∷ send_at i msg chs

  broadcast_to : Map ℕ → Broadcast S → List (Chan S) → List (Chan S)
  broadcast_to [] msg chans = chans
  broadcast_to ((_, ch) ∷ listeners) msg chans = broadcast_to listeners msg (send_at ch msg chans)

  unfoldable pub broadcast : Session S → Broadcast S → List (Chan S) → List (Chan S)
  unfolding broadcast_to
  broadcast s msg chans = broadcast_to s.broadcast_listeners msg chans

  -- What an update of the presence broadcasts; `pod` is the environment's POD_NAME.
  abbrev pub presence_message : String → ℕ → Map (S.Value) → Broadcast S
  presence_message pod revision current = record {
    method = "presence";
    params = Params.presence (record {
      revision = revision;
      meta = S.deepcopy current;
      system_info = ("pod", pod) ∷ [];
    });
  }

  unfoldable pub update_presence_meta_for_peer :
      String → String → Option (S.Value) → Session S → List (Chan S) → Session S × List (Chan S)
  unfolding broadcast
  update_presence_meta_for_peer pod peer_id meta s chans =
      let revision : ℕ = (s.presence_revision + 1) % 2 ^ 64 in
      let current : Map (S.Value) = put_meta peer_id meta s.presence in
      let s' : Session S = record s { presence = current; presence_revision = revision } in
      (s', broadcast s' (presence_message pod revision current) chans)

  unfoldable pub broadcast_add_listener : String → ℕ → Session S → Session S
  broadcast_add_listener peer_id ch s = record s {
    broadcast_listeners = insert peer_id ch s.broadcast_listeners;
  }

  unfoldable pub broadcast_remove_listener : String → Session S → Session S
  broadcast_remove_listener peer_id s = record s {
    broadcast_listeners = delete peer_id s.broadcast_listeners;
  }
