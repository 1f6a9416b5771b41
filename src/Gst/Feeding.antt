-- ===== src/Gst/Feeding.antt =====
-- pkg/client/producer.go with the buffers of pkg/client/gst/gst.go: where the samples of a producer go.
use ion_cluster.Base.{
  ◌≡◌, ◌≢◌, refl, subst, String, Bool, some, Map, lookup, lookup-insert, insert, [], ◌∷◌, sprintf,
  arith,
}
use ion_cluster.Coordinator.{Result, ok, err}
use ion_cluster.Rpc.{done}
use ion_cluster.Gst.{
  TrackLocal, Sample, Written, wrote, closed_pipe, write_failed, writes_and_frees,
  handle_pipeline_buffer,
}
use ion_cluster.Gst.Producer.{GstProducer, MakeTrack, with_tracks, new_gst_producer}

-- A buffer is written to the track that its sink's id names.
found-writes :
    (write : TrackLocal → Sample → Written) (sample : Sample) (t : TrackLocal) (id : String)
    (bound : Map TrackLocal)
    → write t sample ≢ write_failed
    → lookup id bound ≡ some t
    → handle_pipeline_buffer write sample id bound ≡ writes_and_frees t sample
unfolding handle_pipeline_buffer
found-writes write sample t id bound fine e = by_end (write t sample) refl
  where
    by_end :
        (x : Written)
        → write t sample ≡ x
        → handle_pipeline_buffer write sample id bound ≡ writes_and_frees t sample
    by_end wrote h = rw (e, handle_pipeline_buffer, h) refl
    by_end closed_pipe h = rw (e, handle_pipeline_buffer, h) refl
    by_end write_failed h = absurd (fine h)

same-handles :
    (write : TrackLocal → Sample → Written) (sample : Sample) (id : String)
    (bound bound' : Map TrackLocal)
    → lookup id bound' ≡ lookup id bound
    → handle_pipeline_buffer write sample id bound' ≡ handle_pipeline_buffer write sample id bound
unfolding handle_pipeline_buffer
same-handles write sample id bound bound' e = rw (e, handle_pipeline_buffer) refl

record IsFed (bound : Map TrackLocal) (made : GstProducer × Map TrackLocal) : Type 0 where
  video : lookup made.0.video_track.id made.1 ≡ some made.0.video_track
  audio : lookup made.0.audio_track.id made.1 ≡ some made.0.audio_track
  others :
      (id : String)
      → made.0.video_track.id ≢ id
      → made.0.audio_track.id ≢ id
      → lookup id made.1 ≡ lookup id bound

with_tracks-IsFed :
    (darwin : Bool) (path : String) (v a : TrackLocal) (bound : Map TrackLocal)
    → v.id ≢ a.id
    → IsFed bound (with_tracks darwin path v a bound)
unfolding with_tracks
with_tracks-IsFed darwin path v a bound differ = record {
  video =
      ground
        (arith, lookup-insert a.id v.id a (insert v.id v bound), lookup-insert v.id v.id v bound);
  audio = ground (arith, lookup-insert a.id a.id a (insert v.id v bound));
  others = λ id nv na.
      ground (arith, lookup-insert a.id id a (insert v.id v bound), lookup-insert v.id id v bound);
}

new_gst_producer-IsFed :
    (darwin : Bool) (make_track : MakeTrack) (stream_cuid video_cuid audio_cuid kind path : String)
    (bound : Map TrackLocal) (made : GstProducer × Map TrackLocal)
    → new_gst_producer darwin make_track stream_cuid video_cuid audio_cuid kind path bound
      ≡ done made
    → made.0.video_track.id ≢ made.0.audio_track.id
    → IsFed bound made
unfolding new_gst_producer with_tracks
new_gst_producer-IsFed darwin make_track s vc ac kind path bound made e differ =
    by_video (make_track "video/h264" 90000 vc stream) refl
  where
    stream : String
    stream = sprintf ("gst-" ∷ kind ∷ "-" ∷ s ∷ [])

    by_audio :
        (v : TrackLocal) (x : Result TrackLocal)
        → make_track "video/h264" 90000 vc stream ≡ ok v
        → make_track "audio/opus" 48000 ac stream ≡ x
        → IsFed bound made
    by_audio v (err _) h h' = absurd (ground (arith, e, h, h'))
    by_audio v (ok a) h h' =
        let is : with_tracks darwin path v a bound ≡ made = ground (arith, e, h, h') in
        subst
          (λ (m : GstProducer × Map TrackLocal).
            m.0.video_track.id ≢ m.0.audio_track.id → IsFed bound m)
          is (with_tracks-IsFed darwin path v a bound) differ

    by_video :
        (x : Result TrackLocal) → make_track "video/h264" 90000 vc stream ≡ x → IsFed bound made
    by_video (err _) h = absurd (ground (arith, e, h))
    by_video (ok v) h = by_audio v (make_track "audio/opus" 48000 ac stream) h refl

-- A producer whose two tracks have different ids is fed: a buffer from the sink of either track is
-- written to that track and freed, provided that no write to a track fails but for a closed pipe; and
-- the buffers of sinks of other ids are handled as before.
pub new_gst_producer-feeds :
    (darwin : Bool) (make_track : MakeTrack) (stream_cuid video_cuid audio_cuid kind path : String)
    (bound : Map TrackLocal) (made : GstProducer × Map TrackLocal)
    (write : TrackLocal → Sample → Written) (sample : Sample)
    → new_gst_producer darwin make_track stream_cuid video_cuid audio_cuid kind path bound
      ≡ done made
    → made.0.video_track.id ≢ made.0.audio_track.id
    → ((t : TrackLocal) → write t sample ≢ write_failed)
    → (handle_pipeline_buffer write sample made.0.video_track.id made.1
        ≡ writes_and_frees made.0.video_track sample)
      × (handle_pipeline_buffer write sample made.0.audio_track.id made.1
          ≡ writes_and_frees made.0.audio_track sample)
      × ((id : String)
          → made.0.video_track.id ≢ id
          → made.0.audio_track.id ≢ id
          → handle_pipeline_buffer write sample id made.1
            ≡ handle_pipeline_buffer write sample id bound)
new_gst_producer-feeds darwin make_track s v a kind path bound made write sample e differ fine =
    let fed = new_gst_producer-IsFed darwin make_track s v a kind path bound made e differ in
    let video = made.0.video_track in
    let audio = made.0.audio_track in
    (
      found-writes write sample video video.id made.1 (fine video) fed.video,
      found-writes write sample audio audio.id made.1 (fine audio) fed.audio,
      λ id nv na. same-handles write sample id bound made.1 (fed.others id nv na),
    )
