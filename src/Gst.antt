-- ===== src/Gst.antt =====
-- pkg/client/gst/gst.go: pipelines of GStreamer, and the tracks that their sinks write to.
-- A pipeline is the log of the C functions called on it; what GStreamer does is not looked at. The
-- ids of tracks hold no NUL character, so they pass through C unchanged.
pub mod Compositor
pub mod Bins
pub mod Layout
pub mod Codecs
pub mod Producer
pub mod Feeding
mod Tests
use ion_cluster.Base.{
  ℕ, String, Bool, Option, none, some, List, [], ◌∷◌, ◌++◌, Map, lookup, insert, to_lower, decimal,
  sprintf, ite, text_discrete, if◌then◌else◌,
}
use ion_cluster.Base.Int.{ℤ}
use ion_cluster.Rpc.{Outcome, done, panics}

-- `*webrtc.TrackRemote`, by what the code reads of it; `is_video` says whether its kind is video.
pub record TrackRemote : Type 0 where
  pub id : String
  pub mime_type : String
  pub payload_type : ℕ
  pub ssrc : ℕ
  pub is_video : Bool

-- `*webrtc.TrackLocalStaticSample`
pub record TrackLocal : Type 0 where
  pub id : String

-- `*C.GstElement`; `none` is NULL.
abbrev pub Element : Type 0
Element = Option ℕ

pub record Sample : Type 0 where
  pub data_bytes : List ℕ
  pub duration : ℤ

-- The calls of the C functions of gst.h, without their first argument, the pipeline.
pub data Call : Type 0 where
  create_pipeline : String → Call
  start_pipeline play_pipeline pause_pipeline stop_pipeline : Call
  seek : ℤ → Call
  bind_appsink_track : String → String → Call
  push_buffer : List ℕ → String → Call
  add_input_track : String → String → Bool → Element → Call
  remove_input_track : Element → Bool → Call
  object_unref : Element → Call

pub record Pipeline : Type 0 where
  pub calls : List Call
  pub in_audio_track : Option TrackRemote
  pub in_video_track : Option TrackRemote

-- `darwin` says whether the program runs on macOS.
abbrev pub get_encoder_string : Bool → String
get_encoder_string darwin =
    if darwin
    then "vtenc_h264 realtime=true allow-frame-reordering=false max-keyframe-interval=60 ! video/x-h264, profile=baseline ! h264parse config-interval=1"
    else "x264enc bframes=0 speed-preset=ultrafast key-int-max=60 ! video/x-h264, profile=baseline ! h264parse config-interval=1"

abbrev pub get_decoder_string : String
get_decoder_string = "avdec_h264"

abbrev pub new_pipeline : String → Pipeline
new_pipeline pipeline_str = record {
  calls = create_pipeline pipeline_str ∷ [];
  in_audio_track = none;
  in_video_track = none;
}

-- `CreatePlayerPipeline`
abbrev pub create_player_pipeline : Bool → String → TrackLocal → TrackLocal → Pipeline
create_player_pipeline darwin container_path audio_track video_track = new_pipeline (
    sprintf (
      "\n"
      ∷ "\t\tfilesrc location=\""
      ∷ container_path
      ∷ "\" !\n"
      ∷ "\t\tdecodebin name=demux !\n"
      ∷ "\t\t\tqueue !\n"
      ∷ "\t\t\t"
      ∷ get_encoder_string darwin
      ∷ " ! \n"
      ∷ "\t\t\tvideo/x-h264,stream-format=byte-stream,profile=baseline !\n"
      ∷ "\t\t\tappsink name="
      ∷ video_track.id
      ∷ "\n"
      ∷ "\t\tdemux. ! \n"
      ∷ "\t\t\tqueue ! \n"
      ∷ "\t\t\taudioconvert ! \n"
      ∷ "\t\t\taudioresample ! \n"
      ∷ "\t\t\taudio/x-raw,rate=48000,channels=2 !\n"
      ∷ "\t\t\topusenc ! appsink name="
      ∷ audio_track.id
      ∷ "\n"
      ∷ "\t"
      ∷ []))

-- `CreateTestSrcPipeline`
abbrev pub create_test_src_pipeline : Bool → TrackLocal → TrackLocal → Pipeline
create_test_src_pipeline darwin audio_track video_track = new_pipeline (
    sprintf (
      "\n"
      ∷ "\t\tvideotestsrc ! \n"
      ∷ "\t\t\tvideo/x-raw,width=1280,height=720 !\n"
      ∷ "\t\t\tqueue !\n"
      ∷ "\t\t\t"
      ∷ get_encoder_string darwin
      ∷ " ! \n"
      ∷ "\t\t\tvideo/x-h264,stream-format=byte-stream,profile=baseline !\n"
      ∷ "\t\t\tappsink name="
      ∷ video_track.id
      ∷ " \n"
      ∷ "\t\taudiotestsrc wave=6 ! \n"
      ∷ "\t\t\tqueue ! \n"
      ∷ "\t\t\taudioconvert ! \n"
      ∷ "\t\t\taudioresample ! \n"
      ∷ "\t\t\taudio/x-raw,rate=48000,channels=2 !\n"
      ∷ "\t\t\topusenc ! appsink name="
      ∷ audio_track.id
      ∷ "\n"
      ∷ "\t"
      ∷ []))

-- The part of the pipeline for an audio track.
abbrev pub audio_pipe : TrackRemote → Outcome String
audio_pipe t =
    let pipe : String = sprintf (
      "appsrc format=time is-live=true do-timestamp=true name=" ∷ t.id ∷ " ! application/x-rtp"
      ∷ []) in
    ite (text_discrete (to_lower t.mime_type) "audio/opus")
      (done (
        sprintf (
          pipe ∷ ", encoding-name=OPUS, payload=96 ! rtpopusdepay ! decodebin ! autoaudiosink"
          ∷ "\n" ∷ [])))
      (ite (text_discrete (to_lower t.mime_type) "audio/g722")
        (done (
          sprintf
            (pipe ∷ " clock-rate=8000 ! rtpg722depay ! decodebin ! autoaudiosink" ∷ "\n" ∷ [])))
        panics)

-- The part of the pipeline for a video track.
abbrev pub video_pipe : TrackRemote → Outcome String
video_pipe t =
    let pipe : String = sprintf (
      "appsrc format=time is-live=true name="
      ∷ t.id
      ∷ " ! application/x-rtp, payload="
      ∷ decimal t.payload_type
      ∷ []) in
    ite (text_discrete (to_lower t.mime_type) "video/vp8")
      (done (
        sprintf (
          pipe ∷ ", encoding-name=VP8-DRAFT-IETF-01 ! rtpvp8depay ! decodebin ! autovideosink"
          ∷ "\n" ∷ [])))
      (ite (text_discrete (to_lower t.mime_type) "viode/vp9")
        (done (sprintf (pipe ∷ " ! rtpvp9depay ! decodebin ! autovideosink" ∷ "\n" ∷ [])))
        (ite (text_discrete (to_lower t.mime_type) "video/h264")
          (done (
            sprintf (
              pipe ∷ " ! rtph264depay ! h264parse config-interval=-1 ! " ∷ get_decoder_string
              ∷ " ! glimagesink sync=false" ∷ "\n" ∷ [])))
          panics))

-- The part for a track that may be nil.
abbrev pub pipe_of : (TrackRemote → Outcome String) → Option TrackRemote → Outcome String
pipe_of pipe none = done ""
pipe_of pipe (some t) = pipe t

-- `CreateClientPipeline`
abbrev pub create_client_pipeline : Option TrackRemote → Option TrackRemote → Outcome Pipeline
create_client_pipeline audio_track video_track = elim (pipe_of audio_pipe audio_track) [
  | panics ↦ panics
  | done audio ↦ elim (pipe_of video_pipe video_track) [
    | panics ↦ panics
    | done video ↦ done (record (new_pipeline (sprintf (audio ∷ video ∷ []))) {
      in_audio_track = audio_track;
      in_video_track = video_track;
    })
  ]
]

abbrev pub calling : Call → Pipeline → Pipeline
calling call p = record p { calls = p.calls ++ call ∷ [] }

-- `Start`, `Play`, `Pause`, `SeekToTime`, `Push`
abbrev pub start : Pipeline → Pipeline
start p = calling start_pipeline p

abbrev pub play : Pipeline → Pipeline
play p = calling play_pipeline p

abbrev pub pause : Pipeline → Pipeline
pause p = calling pause_pipeline p

abbrev pub seek_to_time : ℤ → Pipeline → Pipeline
seek_to_time seek_pos p = calling (seek seek_pos) p

abbrev pub push : List ℕ → String → Pipeline → Pipeline
push buffer appsrc p = calling (push_buffer buffer appsrc) p

-- `BindAppsinkToTrack`: the track in the program's table, and the sink of its name.
abbrev pub bind_appsink_to_track :
    TrackLocal → Map TrackLocal → Pipeline → Map TrackLocal × Pipeline
bind_appsink_to_track t bound_tracks p =
    (insert t.id t bound_tracks, calling (bind_appsink_track t.id t.id) p)

-- How `WriteSample` of a track ends.
pub data Written : Type 0 where
  wrote closed_pipe write_failed : Written

-- What becomes of a buffer that C has handed over.
pub data Handled : Type 0 where
  leaks : Handled
  writes_and_frees : TrackLocal → Sample → Handled
  write_panics : Handled

-- `goHandlePipelineBuffer`
unfoldable pub handle_pipeline_buffer :
    (TrackLocal → Sample → Written) → Sample → String → Map TrackLocal → Handled
handle_pipeline_buffer write sample local_track_id bound_tracks =
    elim (lookup local_track_id bound_tracks) [
      | none ↦ leaks
      | some track ↦ elim (write track sample) [
        | wrote ↦ writes_and_frees track sample
        | closed_pipe ↦ writes_and_frees track sample
        | write_failed ↦ write_panics
      ]
    ]
