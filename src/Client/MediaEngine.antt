-- ===== src/Client/MediaEngine.antt =====
-- pkg/client/mediaengine.go: the codecs and header extensions that a client registers.
use ion_cluster.Base.{ℕ, String, Bool, true, false, List, [], ◌∷◌, ite, text_discrete}
use ion_cluster.Coordinator.{Result, ok, err, Action, ◌>>◌, pure}

pub record Codec : Type 0 where
  pub mime_type : String
  pub clock_rate : ℕ
  pub channels : ℕ
  pub sdp_fmtp_line : String
  pub rtcp_feedback : List (String × String)
  pub payload_type : ℕ

-- `*webrtc.MediaEngine` with its registrations, which say whether they are for video, and the URIs that
-- the sdp package names.
pub record MediaApi : Type 1 where
  pub Engine : Type 0
  pub new : Engine
  pub register_codec : Codec → (video : Bool) → Action Engine (Unit {0})
  pub register_header_extension : String → (video : Bool) → Action Engine (Unit {0})
  pub sdes_mid_uri : String
  pub sdes_rtp_stream_id_uri : String
  pub transport_cc_uri : String

abbrev pub opus : Codec
opus = record {
  mime_type = "audio/opus";
  clock_rate = 48000;
  channels = 2;
  sdp_fmtp_line = "minptime=10;useinbandfec=1";
  rtcp_feedback = [];
  payload_type = 111;
}

abbrev pub h264 : Codec
h264 = record {
  mime_type = "video/h264";
  clock_rate = 90000;
  channels = 0;
  sdp_fmtp_line = "level-asymmetry-allowed=1;packetization-mode=1;profile-level-id=42001f";
  rtcp_feedback = ("goog-remb", "") ∷ ("ccm", "fir") ∷ ("nack", "") ∷ ("nack", "pli") ∷ [];
  payload_type = 102;
}

module _ (M : MediaApi) where
  -- The loop over the video codecs.
  abbrev pub register_codecs : List Codec → Action M.Engine (Unit {0})
  register_codecs [] = pure tt
  register_codecs (codec ∷ codecs) = M.register_codec codec true >> register_codecs codecs

  -- The loop over the extensions: transport-cc is for video only.
  abbrev pub register_extensions : List String → Action M.Engine (Unit {0})
  register_extensions [] = pure tt
  register_extensions (uri ∷ uris) =
      let rest : Action M.Engine (Unit {0}) = register_extensions uris in
      M.register_header_extension uri true
      >> ite (text_discrete uri M.transport_cc_uri) rest
          (M.register_header_extension uri false >> rest)

  abbrev pub register_all : Action M.Engine (Unit {0})
  register_all =
      M.register_codec opus false
      >> (register_codecs (h264 ∷ [])
          >> register_extensions
              (M.sdes_mid_uri ∷ M.sdes_rtp_stream_id_uri ∷ M.transport_cc_uri ∷ []))

  -- `getProducerMediaEngine`
  unfoldable pub get_producer_media_engine : Result M.Engine
  get_producer_media_engine =
      let (result, engine) = register_all M.new in elim result [ err e ↦ err e | ok _ ↦ ok engine ]
