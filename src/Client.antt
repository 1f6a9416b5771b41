-- ===== src/Client.antt =====
-- pkg/client/client.go: a client of a node, with a peer connection to publish and one to subscribe.
pub mod Signal
pub mod MediaEngine
pub mod Candidates
pub mod Dispatch
pub mod Joining
mod Tests
use ion_cluster.Base.{
  ℕ, zero, suc, ◌≡◌, String, Bool, true, false, Option, none, some, List, [], ◌∷◌, ◌++◌,
  if◌then◌else◌,
}
use ion_cluster.Base.Int.{ℤ, pos, negsuc}
use ion_cluster.Coordinator.{Error, Result, ok, err, Action, ◌>>=◌, ◌>>◌, pure, gets, modify}
use ion_cluster.Rpc.{Outcome, done, panics}

-- `*webrtc.PeerConnection` of pion, with the methods that the client calls.
pub record PcApi : Type 1 where
  pub Pc : Type 0
  pub Description : Type 0
  pub Candidate : Type 0
  pub Track : Type 0
  pub create_offer : Pc → Result Description × Pc
  pub create_answer : Pc → Result Description × Pc
  pub set_local_description : Description → Pc → Result (Unit {0}) × Pc
  pub set_remote_description : Description → Pc → Result (Unit {0}) × Pc
  pub has_remote_description : Pc → Bool
  pub add_ice_candidate : Candidate → Pc → Result (Unit {0}) × Pc
  pub add_track : Track → Pc → Result (Unit {0}) × Pc
  pub create_data_channel : String → Pc → Result (Unit {0}) × Pc

-- The interface `Signal`, without its hooks and the opening and closing of the connection. The answers
-- are pointers, which may be nil without an error.
pub record SignalApi (P : PcApi) : Type 1 where
  pub State : Type 0
  pub join : String → P.Description → Action State (Option (P.Description))
  pub offer : P.Description → Action State (Option (P.Description))
  pub answer : P.Description → Action State (Unit {0})
  pub trickle : ℤ → P.Candidate → Action State (Unit {0})

-- `api` says whether the transport has its data channel.
pub record Transport (P : PcApi) : Type 0 where
  pub role : ℤ
  pub api : Bool
  pub pc : P.Pc
  pub candidates : List (P.Candidate)

pub record Producer (P : PcApi) : Type 0 where
  pub video_track : P.Track
  pub audio_track : P.Track

-- `hooked` says whether the client's handlers are set on the signal, `renegotiates` whether
-- `pubNegotiationNeeded` is set on the publishing peer connection.
pub record Client (P : PcApi) (G : SignalApi P) : Type 0 where
  pub signal : G.State
  pub publisher : Transport P
  pub subscriber : Transport P
  pub hooked : Bool
  pub renegotiates : Bool

-- `rolePublish` and `roleSubscribe`
abbrev pub role_publish : ℤ
role_publish = pos 0

abbrev pub role_subscribe : ℤ
role_subscribe = pos 1

-- `for _, candidate := range candidates { pc.AddICECandidate(*candidate) }`: errors are dropped.
unfoldable pub add_all : (P : PcApi) → List (P.Candidate) → P.Pc → P.Pc
add_all P [] pc = pc
add_all P (x ∷ xs) pc = add_all P xs (P.add_ice_candidate x pc).1

module _ {P : PcApi} where
  -- A transport on what `NewPeerConnection` gives; the publishing one creates the data channel.
  unfoldable pub new_transport : ℤ → Result (P.Pc) → Result (Transport P)
  new_transport role (err e) = err e
  new_transport (pos zero) (ok pc) =
      let (created, pc') = P.create_data_channel "ion-sfu" pc in
      ok (record {
        role = role_publish;
        api = elim created [ ok _ ↦ true | err _ ↦ false ];
        pc = pc';
        candidates = [];
      })
  new_transport role (ok pc) = ok (record { role = role; api = false; pc = pc; candidates = [] })

  -- A candidate is handed on when the remote description is known, and kept until then.
  unfoldable pub receive_candidate : P.Candidate → Transport P → Transport P
  receive_candidate x t =
      if P.has_remote_description t.pc
      then record t { pc = (P.add_ice_candidate x t.pc).1 }
      else record t { candidates = t.candidates ++ x ∷ [] }

module _ {P : PcApi} {G : SignalApi P} where
  unfoldable pub new_client : G.State → Result (P.Pc) → Result (P.Pc) → Result (Client P G)
  new_client s first second = elim (new_transport role_publish first) [
    | err e ↦ err e
    | ok publisher ↦ elim (new_transport role_subscribe second) [
      | err e ↦ err e
      | ok subscriber ↦ ok (record {
        signal = s;
        publisher = publisher;
        subscriber = subscriber;
        hooked = false;
        renegotiates = false;
      })
    ]
  ]

  abbrev pub on_publisher : {A : Type 0} → Action (P.Pc) A → Action (Client P G) A
  on_publisher m c =
      let (r, pc) = m c.publisher.pc in
      (r, record c { publisher = record (c.publisher) { pc = pc } })

  abbrev pub on_subscriber : {A : Type 0} → Action (P.Pc) A → Action (Client P G) A
  on_subscriber m c =
      let (r, pc) = m c.subscriber.pc in
      (r, record c { subscriber = record (c.subscriber) { pc = pc } })

  abbrev pub on_signal : {A : Type 0} → Action (G.State) A → Action (Client P G) A
  on_signal m c = let (r, s) = m c.signal in (r, record c { signal = s })

  abbrev pub hook : Client P G → Client P G
  hook c = record c { hooked = true }

  -- The publisher's candidates are handed on, and also kept.
  abbrev pub hand_on : Client P G → Client P G
  hand_on c = record c {
    publisher = record (c.publisher) { pc = add_all P c.publisher.candidates c.publisher.pc };
    renegotiates = true;
  }

  -- `OnICECandidate` of the transport with a role: a candidate of its own goes to the server, and the
  -- error is dropped; nil, behind the last one, does not.
  unfoldable pub on_ice_candidate : ℤ → Option (P.Candidate) → Client P G → Client P G
  on_ice_candidate role none c = c
  on_ice_candidate role (some x) c = (on_signal (G.trickle role x) c).1

  -- `OnDataChannel` of the publishing or the subscribing transport.
  unfoldable pub on_data_channel : ℤ → Client P G → Client P G
  on_data_channel (pos zero) c = record c { publisher = record (c.publisher) { api = true } }
  on_data_channel role c = record c { subscriber = record (c.subscriber) { api = true } }

  -- `CreateDatachannel`
  unfoldable pub create_datachannel : String → Action (Client P G) (Unit {0})
  create_datachannel label = on_publisher (P.create_data_channel label)

  -- The kept candidates are handed on.
  abbrev pub flush : Client P G → Client P G
  flush c = record c {
    subscriber = record (c.subscriber) {
      pc = add_all P c.subscriber.candidates c.subscriber.pc;
      candidates = [];
    };
  }

  abbrev pub send_answer : P.Description → Action (Client P G) (Unit {0})
  send_answer answer = do
    on_subscriber (P.set_local_description answer)
    on_signal (G.answer answer)

  -- What follows the remote description.
  abbrev pub flush_and_answer : Unit {0} → Action (Client P G) (Unit {0})
  flush_and_answer _ c = (on_subscriber P.create_answer >>= send_answer) (flush c)

  -- The server offers; errors are logged.
  unfoldable pub signal_on_negotiate : P.Description → Client P G → Client P G
  signal_on_negotiate desc c =
      ((on_subscriber (P.set_remote_description desc) >>= flush_and_answer) c).1

  -- For any other role there is no target, and the nil pointer is dereferenced.
  unfoldable pub signal_on_trickle : ℤ → P.Candidate → Client P G → Outcome (Client P G)
  signal_on_trickle (pos zero) x c = done (record c { publisher = receive_candidate x c.publisher })
  signal_on_trickle (pos (suc zero)) x c =
      done (record c { subscriber = receive_candidate x c.subscriber })
  signal_on_trickle role x c = panics

-- What the server sends to a client, each handled before the next.
pub data Message (P : PcApi) : Type 0 where
  negotiate : P.Description → Message P
  trickle_publisher : P.Candidate → Message P
  trickle_subscriber : P.Candidate → Message P

abbrev pub and_then : {A B : Type 0} → Outcome A → (A → Outcome B) → Outcome B
and_then panics f = panics
and_then (done a) f = f a

module _ {P : PcApi} {G : SignalApi P} where
  abbrev pub receive : Message P → Client P G → Outcome (Client P G)
  receive (negotiate d) c = done (signal_on_negotiate d c)
  receive (trickle_publisher x) c = signal_on_trickle role_publish x c
  receive (trickle_subscriber x) c = signal_on_trickle role_subscribe x c

  abbrev pub receive_all : List (Message P) → Client P G → Outcome (Client P G)
  receive_all [] c = done c
  receive_all (m ∷ l) c = and_then (receive m c) (receive_all l)

  abbrev pub set_answer : P.Description → Action (Client P G) (Unit {0})
  set_answer answer = on_publisher (P.set_remote_description answer)

  -- What follows the answer to a join: a nil answer is dereferenced.
  abbrev pub accept_answer :
      Result (Option (P.Description)) → Client P G → Outcome (Result (Unit {0}) × Client P G)
  accept_answer (err e) c = done (err e, c)
  accept_answer (ok none) c = panics
  accept_answer (ok (some answer)) c = done ((set_answer answer >>= λ _. modify hand_on) c)

  abbrev pub send_offer : String → P.Description → Action (Client P G) (Option (P.Description))
  send_offer sid offer =
      on_publisher (P.set_local_description offer) >> on_signal (G.join sid offer)

  -- `Join` until `signal.Join` has its answer or its error.
  abbrev pub ask_join : String → Action (Client P G) (Option (P.Description))
  ask_join sid c = (on_publisher P.create_offer >>= send_offer sid) (hook c)

  -- `Join`. The messages are those of the server that the handlers take while `signal.Join` waits for
  -- its response.
  unfoldable pub join :
      String → List (Message P) → Client P G → Outcome (Result (Unit {0}) × Client P G)
  join sid received c =
      let (answered, k) = ask_join sid c in
      and_then (receive_all received k) (accept_answer answered)

  abbrev pub send_reoffer : P.Description → Action (Client P G) (Option (P.Description))
  send_reoffer offer = on_publisher (P.set_local_description offer) >> on_signal (G.offer offer)

  abbrev pub ask_offer : Action (Client P G) (Option (P.Description))
  ask_offer = on_publisher P.create_offer >>= send_reoffer

  -- Errors are logged, and a nil answer is dereferenced.
  abbrev pub accept_reanswer : Result (Option (P.Description)) → Client P G → Outcome (Client P G)
  accept_reanswer (err e) c = done c
  accept_reanswer (ok none) c = panics
  accept_reanswer (ok (some answer)) c = done (set_answer answer c).1

  unfoldable pub pub_negotiation_needed : Client P G → Outcome (Client P G)
  pub_negotiation_needed c = let (answered, k) = ask_offer c in accept_reanswer answered k

  abbrev pub add_tracks : Producer P → Action (Client P G) (Unit {0})
  add_tracks p =
      on_publisher (P.add_track p.video_track) >> on_publisher (P.add_track p.audio_track)

  -- The connection is negotiated anew when both tracks are added.
  abbrev pub renegotiate : Result (Unit {0}) → Client P G → Outcome (Result (Unit {0}) × Client P G)
  renegotiate (err e) c = done (err e, c)
  renegotiate (ok _) c = and_then (pub_negotiation_needed c) λ k. done (ok tt, k)

  unfoldable pub publish : Producer P → Client P G → Outcome (Result (Unit {0}) × Client P G)
  publish p c = let (added, k) = add_tracks p c in renegotiate added k
