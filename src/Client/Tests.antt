-- ===== src/Client/Tests.antt =====
-- pkg/client: a client over a signal that is connected.
use ion_cluster.Base.{
  ◌++◌, text_discrete, ◌+◌, ◌≡◌, refl, String, Bool, true, false, none, some, List, [], ◌∷◌,
}
use ion_cluster.Base.Int.{pos}
use ion_cluster.Coordinator.{ok}
use ion_cluster.Rpc.{done}
use ion_cluster.Client.{
  Client, Transport, join, Message, receive_all, signal_on_trickle, receive_candidate, add_all,
}
use ion_cluster.Client.Signal.{
  jsonrpc_signal, new_jsonrpc_signal_client, JsonRpcSignalClient, Incoming, join as signal_join,
}
use ion_cluster.Client.MediaEngine.{MediaApi, get_producer_media_engine}
use ion_cluster.Client.Candidates.{count, receive_all-held}
use ion_cluster.Samples.{pcs, pc_laws, rpc}

abbrev transport : Transport pcs
transport = record { role = pos 1; api = false; pc = (none, []); candidates = "c1" ∷ "c2" ∷ [] }

abbrev client : Client pcs (jsonrpc_signal pcs rpc)
client = record {
  signal = new_jsonrpc_signal_client;
  publisher = record transport { role = pos 0 };
  subscriber = transport;
  hooked = true;
  renegotiates = true;
}

abbrev messages : List (Message pcs)
messages =
    Message.trickle_subscriber "c3"
    ∷ Message.negotiate "offer"
    ∷ Message.trickle_publisher "c4"
    ∷ Message.trickle_subscriber "c5"
    ∷ []

abbrev any : String → Bool
any x = true

receive_all-held_example :
    (c' : Client pcs (jsonrpc_signal pcs rpc)) × (receive_all messages client ≡ done c')
    × (count any c'.subscriber.pc.1 + count any c'.subscriber.candidates ≡ 4)
receive_all-held_example = receive_all-held pc_laws any messages client

abbrev offer : Incoming pcs rpc
offer = record { method = "offer"; params = some "d" }

abbrev hooked : JsonRpcSignalClient pcs rpc
hooked = record { jc = some 0; on_negotiate = true; on_trickle = true }

abbrev connected : Client pcs (jsonrpc_signal pcs rpc)
connected = record client { signal = hooked }

joins :
    join "room" (Message.trickle_publisher "c3" ∷ []) connected
    ≡ done (
      ok tt,
      record connected {
        signal = record hooked { jc = some 1 };
        publisher = record (connected.publisher) {
          pc = (some "answer", "c1" ∷ "c2" ∷ "c3" ∷ []);
          candidates = "c1" ∷ "c2" ∷ "c3" ∷ [];
        };
      },
    )
unfolding join signal_join signal_on_trickle receive_candidate add_all
joins = refl

-- An engine is the log of its registrations.
abbrev engines : MediaApi
engines = record {
  Engine = List (String × Bool);
  new = [];
  register_codec = λ codec video log. (ok tt, log ++ (codec.mime_type, video) ∷ []);
  register_header_extension = λ uri video log. (ok tt, log ++ (uri, video) ∷ []);
  sdes_mid_uri = "mid";
  sdes_rtp_stream_id_uri = "rid";
  transport_cc_uri = "cc";
}

registers :
    get_producer_media_engine engines
    ≡ ok (
        ("audio/opus", false)
        ∷ ("video/h264", true)
        ∷ ("mid", true)
        ∷ ("mid", false)
        ∷ ("rid", true)
        ∷ ("rid", false)
        ∷ ("cc", true)
        ∷ [])
unfolding get_producer_media_engine text_discrete
registers = refl
