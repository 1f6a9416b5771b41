-- ===== src/Gst/Compositor.antt =====
-- pkg/client/gst/compositor.go: a pipeline that mixes the tracks it is given, and the table of keyframe
-- callbacks that belongs to the program.
use ion_cluster.Base.{
  ℕ, ◌≡◌, String, none, some, List, [], ◌∷◌, ◌++◌, Map, lookup, insert, delete, to_lower, decimal,
  sprintf, ite, text_discrete, if◌then◌else◌,
}
use ion_cluster.Rpc.{Outcome, done, panics}
use ion_cluster.Gst.{
  TrackRemote, Element, Call, create_pipeline, start_pipeline, play_pipeline, stop_pipeline,
  push_buffer, add_input_track as c_add_input_track, remove_input_track, object_unref,
  get_decoder_string,
}

-- A callback asks the sender of a track for a keyframe: the peer connection and the SSRC.
pub record Keyframe : Type 0 where
  pub pc : ℕ
  pub ssrc : ℕ

-- The goroutine that reads a track, with what its track was added with.
pub record Reader : Type 0 where
  pub track : TrackRemote
  pub pc : ℕ
  pub bin : Element

-- `CompositorPipeline` with the callbacks, the C functions called so far, the goroutines that run, each
-- under its track's id, and the PictureLossIndications written.
pub record Compositor : Type 0 where
  pub calls : List Call
  pub track_bins : Map Element
  pub keyframe_callbacks : Map Keyframe
  pub readers : Map Reader
  pub plis : List Keyframe

abbrev pub calling : Call → Compositor → Compositor
calling call c = record c { calls = c.calls ++ call ∷ [] }

unfoldable pub new_compositor_pipeline : String → Compositor
new_compositor_pipeline extra_pipeline_str = record {
  calls =
      create_pipeline (
        sprintf (
          "\n"
          ∷ "\t\tcompositor name=vmix background=black ! video/x-raw,width=1920,height=1080,framerate=30/1,format=UYVY ! queue ! tee name=vtee \n"
          ∷ "\t\t\tvtee. ! queue ! glimagesink sync=false \n"
          ∷ "\t\taudiomixer name=amix ! queue ! tee name=atee \n"
          ∷ "\t\t\tatee. ! queue ! audioconvert ! autoaudiosink\n" ∷ "\t" ∷ extra_pipeline_str
          ∷ []))
      ∷ start_pipeline
      ∷ [];
  track_bins = [];
  keyframe_callbacks = [];
  readers = [];
  plis = [];
}

-- The description of a track's bin; a codec without one panics.
unfoldable pub input_bin : TrackRemote → Outcome String
input_bin t =
    let source : String = sprintf (
      "appsrc format=time is-live=true do-timestamp=true name=" ∷ t.id ∷ " ! application/x-rtp "
      ∷ []) in
    let mime : String = to_lower t.mime_type in
    ite (text_discrete mime "audio/opus")
      (done (
        sprintf
          (source ∷ ", encoding-name=OPUS, payload=96 ! rtpopusdepay ! queue ! opusdec " ∷ [])))
      (ite (text_discrete mime "audio/g722")
        (done (sprintf (source ∷ " clock-rate=8000 ! rtpg722depay ! decodebin " ∷ [])))
        (ite (text_discrete mime "video/vp8")
          (done (
            sprintf (source ∷ ", encoding-name=VP8-DRAFT-IETF-01 ! rtpvp8depay ! decodebin " ∷ [])))
          (ite (text_discrete mime "viode/vp9")
            (done (sprintf (source ∷ " ! rtpvp9depay ! decodebin " ∷ [])))
            (ite (text_discrete mime "video/h264")
              (done (
                sprintf (
                  source
                  ∷ ", payload="
                  ∷ decimal t.payload_type
                  ∷ " ! rtph264depay ! queue ! "
                  ∷ get_decoder_string
                  ∷ " !  videoconvert ! queue "
                  ∷ [])))
              panics))))

-- What follows the call of C, which has given the bin.
unfoldable pub register : TrackRemote → ℕ → Element → Compositor → Compositor
register t pc bin c = record c {
  track_bins = insert t.id bin c.track_bins;
  keyframe_callbacks =
      if t.is_video
      then insert t.id (record { pc = pc; ssrc = t.ssrc }) c.keyframe_callbacks
      else c.keyframe_callbacks;
  readers = insert t.id (record { track = t; pc = pc; bin = bin }) c.readers;
}

-- `AddInputTrack`
unfoldable pub add_input_track : TrackRemote → ℕ → Element → Compositor → Outcome Compositor
add_input_track t pc bin c = elim (input_bin t) [
  | panics ↦ panics
  | done description ↦
      done (register t pc bin (calling (c_add_input_track description t.id t.is_video bin) c))
]

abbrev pub play : Compositor → Compositor
play c = calling play_pipeline c

abbrev pub stop : Compositor → Compositor
stop c = calling stop_pipeline c

-- `c.trackBins[id]`, which is nil where there is no such key.
abbrev pub bin_at : String → Map Element → Element
bin_at id bins = elim (lookup id bins) [ none ↦ none | some bin ↦ bin ]

-- The end of a track in `bindTrackToAppsrc`.
unfoldable pub clean_up : TrackRemote → Compositor → Compositor
clean_up t c =
    let c' : Compositor = calling (remove_input_track (bin_at t.id c.track_bins) t.is_video) c in
    record c' {
      track_bins = delete t.id c.track_bins;
      keyframe_callbacks = delete t.id c.keyframe_callbacks;
      readers = delete t.id c.readers;
    }

-- `pushAppsrc`
abbrev pub push_appsrc : List ℕ → String → Compositor → Compositor
push_appsrc buffer appsrc c = calling (push_buffer buffer appsrc) c

-- What a read of a track gives.
pub data Read : Type 0 where
  packet : List ℕ → Read
  read_fails : Read

-- `bindTrackToAppsrc`, over what its reads give so far.
unfoldable pub bind_track_to_appsrc : TrackRemote → List Read → Compositor → Compositor
bind_track_to_appsrc t [] c = c
bind_track_to_appsrc t (packet buffer ∷ reads) c =
    bind_track_to_appsrc t reads (push_appsrc buffer t.id c)
bind_track_to_appsrc t (read_fails ∷ reads) c = clean_up t c

-- `goHandleAppsrcForceKeyUnit`
unfoldable pub handle_appsrc_force_key_unit : String → Compositor → Compositor
handle_appsrc_force_key_unit id c = elim (lookup id c.keyframe_callbacks) [
  | none ↦ c
  | some callback ↦ record c { plis = c.plis ++ callback ∷ [] }
]

abbrev unref_all : Map Element → List Call
unref_all [] = []
unref_all ((_, bin) ∷ bins) = object_unref bin ∷ unref_all bins

-- `destroy`, when the compositor is collected.
unfoldable pub destroy : Compositor → Compositor
destroy c = record c { calls = c.calls ++ unref_all c.track_bins }

-- A compositor at work. A track is added while none with its id is read.
pub data Step (c : Compositor) : Compositor → Type 0 where
  adds :
      (t : TrackRemote) (pc : ℕ) (bin : Element) (c' : Compositor)
      → lookup t.id c.readers ≡ none
      → add_input_track t pc bin c ≡ done c'
      → Step c c'
  reads :
      (r : Reader) (buffer : List ℕ)
      → lookup r.track.id c.readers ≡ some r
      → Step c (push_appsrc buffer r.track.id c)
  ends : (r : Reader) → lookup r.track.id c.readers ≡ some r → Step c (clean_up r.track c)
  forces : (id : String) → Step c (handle_appsrc_force_key_unit id c)
  plays : Step c (play c)
  stops : Step c (stop c)

pub data Reach (extra_pipeline_str : String) : Compositor → Type 0 where
  starts : Reach extra_pipeline_str (new_compositor_pipeline extra_pipeline_str)
  next : {c c' : Compositor} → Reach extra_pipeline_str c → Step c c' → Reach extra_pipeline_str c'
