-- ===== src/Gst/Tests.antt =====
-- pkg/client/gst: a compositor with one video track, and a track in a codec that is misspelt.
use ion_cluster.Base.{
  ◌≡◌, ◌≢◌, ◌∙◌, sym, Map, false, refl, ◌↔◌, String, true, false, some, none, [], ◌∷◌, ◌++◌, lookup,
  to_lower, text_discrete,
}
use ion_cluster.Rpc.{done, panics}
use ion_cluster.Gst.{
  TrackRemote, TrackLocal, Sample, Written, closed_pipe, write_failed, writes_and_frees,
  handle_pipeline_buffer, create_client_pipeline, remove_input_track,
}
use ion_cluster.Gst.Producer.{GstProducer, MakeTrack, with_tracks, new_gst_producer}
use ion_cluster.Gst.Feeding.{new_gst_producer-feeds}
use ion_cluster.Coordinator.{ok}
use ion_cluster.Base.Int.{pos}
use ion_cluster.Gst.Compositor.{
  Compositor, Reader, Step, Reach, starts, next, new_compositor_pipeline, add_input_track,
  input_bin, register, clean_up, handle_appsrc_force_key_unit,
}
use ion_cluster.Gst.Bins.{IsTracked, Reach-IsTracked, Reach-serves}
use ion_cluster.Gst.Codecs.{add_input_track-refuses}
use ion_cluster.Base.{arith, ◌⊎◌, ℕ, length, get_elem?, ◌+◌, ◌≤◌}
use ion_cluster.Gst.Layout.{
  Tile, relayout_videos, grid, tiles, compositor_video_width, compositor_video_height, Apart,
  relayout_videos-fit,
}

abbrev camera : TrackRemote
camera = record {
  id = "camera";
  mime_type = "video/VP8";
  payload_type = 96;
  ssrc = 7;
  is_video = true;
}

abbrev screen : TrackRemote
screen = record camera { id = "screen"; mime_type = "video/VP9" }

abbrev empty : Compositor
empty = new_compositor_pipeline ""

abbrev added : Compositor
added = elim (add_input_track camera 1 (some 5) empty) [ done c ↦ c | panics ↦ empty ]

abbrev reader : Reader
reader = record { track = camera; pc = 1; bin = some 5 }

adds_camera :
    (lookup "camera" empty.readers ≡ none)
    × (add_input_track camera 1 (some 5) empty ≡ done added)
    × (lookup "camera" added.readers ≡ some reader)
unfolding new_compositor_pipeline add_input_track input_bin register text_discrete
adds_camera = (refl, refl, refl)

playing : Reach "" added
playing = let (new, e, _) = adds_camera in next starts (Step.adds camera 1 (some 5) added new e)

Reach-IsTracked_example : IsTracked added
Reach-IsTracked_example = Reach-IsTracked "" added playing

Reach-serves_example :
    ((clean_up camera added).calls ≡ added.calls ++ remove_input_track (some 5) true ∷ [])
    × ((handle_appsrc_force_key_unit "camera" added).plis
        ≡ added.plis ++ record { pc = 1; ssrc = 7 } ∷ [])
Reach-serves_example = Reach-serves "" added reader playing (adds_camera.2)

vp9 : to_lower screen.mime_type ≡ "video/vp9"
vp9 = refl

add_input_track-refuses_example :
    ((add_input_track screen 1 (some 5) empty ≡ panics) ↔ (
      (create_client_pipeline (some screen) none ≡ panics)
      × (create_client_pipeline none (some screen) ≡ panics)))
    × (to_lower screen.mime_type ≡ "video/vp9" → add_input_track screen 1 (some 5) empty ≡ panics)
add_input_track-refuses_example = add_input_track-refuses screen 1 (some 5) empty

abbrev old : TrackLocal
old = record { id = "old" }

abbrev makes : MakeTrack
makes mime clock_rate id stream = ok (record { id = id })

abbrev write : TrackLocal → Sample → Written
write t sample = closed_pipe

abbrev sample : Sample
sample = record { data_bytes = 1 ∷ []; duration = pos 20 }

abbrev made : GstProducer × Map TrackLocal
made = elim (new_gst_producer false makes "c1" "c2" "c23" "video" "" (("old", old) ∷ [])) [
  | done m ↦ m
  | panics ↦ with_tracks false "" old old []
]

made-makes :
    (new_gst_producer false makes "c1" "c2" "c23" "video" "" (("old", old) ∷ []) ≡ done made)
    × (made.0.video_track.id ≡ "c2")
    × (made.0.audio_track.id ≡ "c23")
unfolding new_gst_producer with_tracks
made-makes = (refl, refl, refl)

two_ids : made.0.video_track.id ≢ made.0.audio_track.id
two_ids e = let (_, v, a) = made-makes in differ (sym v ∙ e ∙ a)
  where
    differ : ◌≢◌ {A = String} "c2" "c23"
    differ h = cc

written : (t : TrackLocal) → write t sample ≢ write_failed
written t e = cc

new_gst_producer-feeds_example :
    (handle_pipeline_buffer write sample made.0.video_track.id made.1
      ≡ writes_and_frees made.0.video_track sample)
    × (handle_pipeline_buffer write sample made.0.audio_track.id made.1
        ≡ writes_and_frees made.0.audio_track sample)
    × ((id : String)
        → made.0.video_track.id ≢ id
        → made.0.audio_track.id ≢ id
        → handle_pipeline_buffer write sample id made.1
          ≡ handle_pipeline_buffer write sample id (("old", old) ∷ []))
new_gst_producer-feeds_example =
    new_gst_producer-feeds false makes "c1" "c2" "c23" "video" "" (("old", old) ∷ []) made write
      sample made-makes.0 two_ids written

-- Five videos stand in a grid of three columns.
abbrev fourth_tile : Tile
fourth_tile = record { x = 0; y = 360; width = 640; height = 360 }

abbrev fifth_tile : Tile
fifth_tile = record { x = 640; y = 360; width = 640; height = 360 }

fourth_there : get_elem? (relayout_videos (0, 0) 5) 3 ≡ some fourth_tile
unfolding relayout_videos grid tiles
fourth_there = refl

fifth_there : get_elem? (relayout_videos (0, 0) 5) 4 ≡ some fifth_tile
unfolding relayout_videos grid tiles
fifth_there = refl

relayout_videos-fit_example :
    (length (relayout_videos (0, 0) 5) ≡ 5)
    × (fourth_tile.x + fourth_tile.width ≤ compositor_video_width)
    × (fourth_tile.y + fourth_tile.height ≤ compositor_video_height)
    × ((◌≡◌ {A = ℕ} 3 4) ⊎ Apart fourth_tile fifth_tile)
relayout_videos-fit_example =
    relayout_videos-fit (0, 0) 5 3 4 fourth_tile fifth_tile (omega arith) fourth_there fifth_there
