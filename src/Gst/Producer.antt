-- ===== src/Gst/Producer.antt =====
-- pkg/client/producer.go: a producer of an audio and a video track from a pipeline.
use ion_cluster.Base.{ℕ, String, Bool, false, Map, ◌∷◌, [], sprintf, is_empty, if◌then◌else◌}
use ion_cluster.Base.Int.{ℤ}
use ion_cluster.Coordinator.{Result, ok, err}
use ion_cluster.Rpc.{Outcome, done, panics}
use ion_cluster.Gst.{
  TrackLocal, Pipeline, create_player_pipeline, create_test_src_pipeline, bind_appsink_to_track,
  start, play, pause, seek_to_time,
}

pub record GstProducer : Type 0 where
  pub name : String
  pub audio_track : TrackLocal
  pub video_track : TrackLocal
  pub pipeline : Pipeline
  pub paused : Bool

-- The pipeline of the tracks: a test source where no path is given.
abbrev pub producer_pipeline : Bool → String → TrackLocal → TrackLocal → Pipeline
producer_pipeline darwin path audio_track video_track =
    if is_empty path
    then create_test_src_pipeline darwin audio_track video_track
    else create_player_pipeline darwin path audio_track video_track

-- What follows the making of the tracks.
unfoldable pub with_tracks :
    Bool → String → TrackLocal → TrackLocal → Map TrackLocal → GstProducer × Map TrackLocal
with_tracks darwin path video_track audio_track bound_tracks =
    let p : Pipeline = producer_pipeline darwin path audio_track video_track in
    let (bound, p') = bind_appsink_to_track video_track bound_tracks p in
    let (bound', p'') = bind_appsink_to_track audio_track bound p' in
    (
      record {
        name = "";
        audio_track = audio_track;
        video_track = video_track;
        pipeline = p'';
        paused = false;
      },
      bound',
    )

-- `webrtc.NewTrackLocalStaticSample`: a codec with its clock rate, an id and a stream.
abbrev pub MakeTrack : Type 0
MakeTrack = String → ℕ → String → String → Result TrackLocal

-- `NewGSTProducer`; the cuids are those that `cuid.New` gives in turn.
unfoldable pub new_gst_producer :
    Bool
    → MakeTrack
    → (stream_cuid video_cuid audio_cuid : String) → (kind path : String) → Map TrackLocal
    → Outcome (GstProducer × Map TrackLocal)
new_gst_producer darwin make_track stream_cuid video_cuid audio_cuid kind path bound_tracks =
    let stream : String = sprintf ("gst-" ∷ kind ∷ "-" ∷ stream_cuid ∷ []) in
    elim (make_track "video/h264" 90000 video_cuid stream) [
      | err e ↦ panics
      | ok video_track ↦ elim (make_track "audio/opus" 48000 audio_cuid stream) [
        | err e ↦ panics
        | ok audio_track ↦ done (with_tracks darwin path video_track audio_track bound_tracks)
      ]
    ]

-- `SeekP`, `Pause`, `Start`, and `Stop`, which does nothing.
abbrev on_pipeline : (Pipeline → Pipeline) → GstProducer → GstProducer
on_pipeline f t = record t { pipeline = f t.pipeline }

abbrev pub seek_p : ℤ → GstProducer → GstProducer
seek_p ts t = on_pipeline (seek_to_time ts) t

abbrev pub pause_producer : Bool → GstProducer → GstProducer
pause_producer b t = if b then on_pipeline pause t else on_pipeline play t

abbrev pub start_producer : GstProducer → GstProducer
start_producer t = on_pipeline (λ p. play (start p)) t

abbrev pub stop_producer : GstProducer → GstProducer
stop_producer t = t
