-- ===== src/Commands/Clients.antt =====
-- cmd/client.go and cmd/composite.go: the commands that connect to a node as a client.
use ion_cluster.Base.{
  ℕ, String, Option, none, some, List, [], ◌∷◌, ite, text_discrete, is_empty, sprintf,
  if◌then◌else◌,
}
use ion_cluster.Coordinator.{Error, Result, ok, err}
use ion_cluster.Rpc.{Outcome, done, panics}
use ion_cluster.Client.{PcApi, Producer, Client, Message, new_client, join, publish}
use ion_cluster.Client.Signal.{
  JsonRpcApi, JsonRpcSignalClient, jsonrpc_signal, new_jsonrpc_signal_client, open_connection,
  close, ping,
}
use ion_cluster.Gst.Compositor.{
  Compositor, new_compositor_pipeline, play as play_compositor, stop as stop_compositor,
}

-- The flags of the commands.
pub record Flags : Type 0 where
  pub url : String
  pub sid : String
  pub token : String
  pub save_path : String
  pub stream_url : String

abbrev pub endpoint : Flags → String
endpoint f =
    if is_empty f.token
    then sprintf (f.url ∷ "/session/" ∷ f.sid ∷ [])
    else sprintf (f.url ∷ "/session/" ∷ f.sid ∷ "?access_token=" ∷ f.token ∷ [])

-- What the channels of the last loop deliver: a tick of the 5 s ticker, a signal to the process, the end
-- of the signal's connection.
pub data Event : Type 0 where
  ticks signals closes : Event

-- How a thread stands: it has returned, it has panicked, it has ended the program, or it waits.
pub data Thread (A : Type 0) : Type 0 where
  returned : Option Error → Thread A
  crashed : Thread A
  exited : ℕ → Thread A
  waits : A → Thread A

-- The pipeline that the composited stream is encoded with.
abbrev pub encode_pipeline : Flags → String
encode_pipeline f =
    let save_path : String = f.save_path in
    let stream_url : String = f.stream_url in
    let encoders : String = sprintf (
      "\n" ∷ "\t\t\t\ttee name=aenctee \n" ∷ "\t\t\t\ttee name=venctee\n"
      ∷ "\t\t\t\tvtee. ! queue ! vtenc_h264 ! video/x-h264,chroma-site=mpeg2 ! venctee.\n"
      ∷ "\t\t\t\tatee. ! queue ! faac ! aenctee.\n" ∷ "\t\t" ∷ []) in
    let saver : String = sprintf (
      "\n" ∷ "\t\t\t\tqtmux name=savemux ! queue ! filesink location=" ∷ save_path
      ∷ " async=false sync=false\n" ∷ "\t\t\t\tvenctee. ! queue ! savemux.\n"
      ∷ "\t\t\t\taenctee. ! queue ! savemux. \n" ∷ "\t\t\t" ∷ []) in
    let streamer : String = sprintf (
      "\n" ∷ "\t\t\t\tflvmux name=streammux ! queue ! rtmpsink location=" ∷ stream_url
      ∷ " async=false sync=false\n" ∷ "\t\t\t\tvenctee. ! queue ! streammux.\n"
      ∷ "\t\t\t\taenctee. ! queue ! streammux. \n" ∷ "\t\t\t" ∷ []) in
    let saving : String = if is_empty save_path then "" else saver in
    let streaming : String = if is_empty stream_url then "" else streamer in
    if is_empty save_path
    then (if is_empty stream_url then "" else sprintf (encoders ∷ saving ∷ streaming ∷ []))
    else sprintf (encoders ∷ saving ∷ streaming ∷ [])

-- `producer` stands for `NewGSTProducer`, which may panic.
abbrev pub produce :
    {P : PcApi}
    → (String → String → Outcome (Producer P))
    → List String
    → Option (Outcome (Producer P))
produce producer [] = none
produce producer (arg ∷ _) =
    ite (text_discrete arg "test") (some (producer "video" "")) (some (producer "screen" arg))

-- A client whose signal is a websocket.
abbrev pub ClientOf : (P : PcApi) → JsonRpcApi P → Type 0
ClientOf P R = Client P (jsonrpc_signal P R)

module _ {P : PcApi} {R : JsonRpcApi P} where
  -- The methods `Ping`, whose error is logged, and `Close` of the signal.
  abbrev pub ping_signal : ClientOf P R → ClientOf P R
  ping_signal c = record c { signal = (ping c.signal).1 }

  abbrev pub close_signal : ClientOf P R → Outcome (ClientOf P R)
  close_signal c = elim (close c.signal) [
    | panics ↦ panics
    | done (_, s) ↦ done (record c { signal = s })
  ]

  -- The last loop. `at_close` is what the command does when the connection has ended.
  unfoldable pub loop : Thread (ClientOf P R) → List Event → ClientOf P R → Thread (ClientOf P R)
  loop at_close [] c = waits c
  loop at_close (ticks ∷ events) c = loop at_close events (ping_signal c)
  loop at_close (signals ∷ events) c =
      let rest : ClientOf P R → Thread (ClientOf P R) = λ c'. loop at_close events c' in
      elim (close_signal c) [ panics ↦ crashed | done c' ↦ rest c' ]
  loop at_close (closes ∷ events) c = at_close

  -- A step that has panicked, failed or gone well, and what follows it.
  abbrev pub went_then :
      (ClientOf P R → Thread (ClientOf P R))
      → Outcome (Result (Unit {0}) × ClientOf P R)
      → Thread (ClientOf P R)
  went_then f panics = crashed
  went_then f (done (err e, _)) = returned (some e)
  went_then f (done (ok _, c)) = f c

  -- From the producer on.
  abbrev pub publish_and_loop :
      Option (Outcome (Producer P)) → List Event → ClientOf P R → Thread (ClientOf P R)
  publish_and_loop none events c = loop (exited 1) events c
  publish_and_loop (some panics) events c = crashed
  publish_and_loop (some (done p)) events c = went_then (loop (exited 1) events) (publish p c)

  -- From the opening of the connection on. Where `NewClient` has failed the client is nil, and setting
  -- its `OnTrack` panics.
  abbrev pub opened_then :
      String
      → (ClientOf P R → Thread (ClientOf P R))
      → Result (ClientOf P R)
      → JsonRpcSignalClient P R
      → Thread (ClientOf P R)
  opened_then url f (err _) s =
      let (opened, s') = open_connection url s in
      elim opened [ err e ↦ returned (some e) | ok _ ↦ crashed ]
  opened_then url f (ok c) s =
      let (opened, s') = open_connection url c.signal in
      elim opened [ err e ↦ returned (some e) | ok _ ↦ f (record c { signal = s' }) ]

  abbrev pub joined_then :
      String
      → List (Message P)
      → (ClientOf P R → Thread (ClientOf P R))
      → ClientOf P R
      → Thread (ClientOf P R)
  joined_then sid received f c = went_then f (join sid received c)

  -- `clientThread`, over the messages that the client takes while its join waits and the events of its
  -- last loop so far; `first` and `second` are the peer connections that `NewClient` is given.
  unfoldable pub client_thread :
      Flags
      → (String → String → Outcome (Producer P))
      → (first second : Result (P.Pc)) → List String
      → List (Message P)
      → List Event
      → Thread (ClientOf P R)
  client_thread f producer first second args received events =
      opened_then (endpoint f)
        (joined_then f.sid received (publish_and_loop (produce producer args) events))
        (new_client new_jsonrpc_signal_client first second) new_jsonrpc_signal_client

  -- `compositeThread`: the thread and its compositor, which it makes once the connection is open, and
  -- stops when the connection has ended.
  abbrev pub composited :
      Flags → List (Message P) → List Event → ClientOf P R → Thread (ClientOf P R) × Compositor
  composited f received events c =
      let compositor : Compositor = play_compositor (new_compositor_pipeline (encode_pipeline f)) in
      let thread : Thread (ClientOf P R) =
        joined_then f.sid received (loop (returned none) events) c in
      (
        thread,
        elim thread [
          | returned none ↦ stop_compositor compositor
          | returned (some _) ↦ compositor
          | crashed ↦ compositor
          | exited _ ↦ compositor
          | waits _ ↦ compositor
        ],
      )

  unfoldable pub composite_thread :
      Flags
      → (first second : Result (P.Pc)) → List (Message P)
      → List Event
      → Thread (ClientOf P R) × Option Compositor
  composite_thread f first second received events =
      elim (new_client {G = jsonrpc_signal P R} new_jsonrpc_signal_client first second) [
        | err _ ↦
            let (opened, _) = open_connection {R = R} (endpoint f) new_jsonrpc_signal_client in
            elim opened [
              | err e ↦ (returned (some e), none)
              | ok _ ↦
                  (crashed, some (play_compositor (new_compositor_pipeline (encode_pipeline f))))
            ]
        | ok c ↦
            let (opened, s') = open_connection (endpoint f) c.signal in
            elim opened [
              | err e ↦ (returned (some e), none)
              | ok _ ↦
                  let (thread, compositor) =
                    composited f received events (record c { signal = s' }) in
                  (thread, some compositor)
            ]
      ]
