-- ===== src/Gst/Codecs.antt =====
-- pkg/client/gst: which codecs of a track the two pipelines refuse.
use ion_cluster.Base.{ℕ, ◌≡◌, refl, ◌↔◌, String, none, some, to_lower, arith, text_discrete}
use ion_cluster.Rpc.{Outcome, panics}
use ion_cluster.Gst.{TrackRemote, Element, audio_pipe, video_pipe, create_client_pipeline}
use ion_cluster.Gst.Compositor.{Compositor, input_bin, add_input_track}

abbrev Refused : {A : Type 0} → Outcome A → Type 0
Refused o = o ≡ panics

input_bin-Refused :
    (t : TrackRemote) → Refused (input_bin t) ↔ (Refused (audio_pipe t) × Refused (video_pipe t))
unfolding input_bin
input_bin-Refused t = ground arith

input_bin-vp9 : (t : TrackRemote) → to_lower t.mime_type ≡ "video/vp9" → Refused (input_bin t)
unfolding input_bin text_discrete
input_bin-vp9 t vp9 = rw (vp9, input_bin) refl

client-Refused :
    (t : TrackRemote)
    → (Refused (create_client_pipeline (some t) none) ↔ Refused (audio_pipe t))
      × (Refused (create_client_pipeline none (some t)) ↔ Refused (video_pipe t))
client-Refused t = (ground arith, ground arith)

add-Refused :
    (t : TrackRemote) (pc : ℕ) (bin : Element) (c : Compositor)
    → Refused (add_input_track t pc bin c) ↔ Refused (input_bin t)
unfolding add_input_track
add-Refused t pc bin c = by_bin (input_bin t) refl
  where
    by_bin :
        (o : Outcome String)
        → input_bin t ≡ o
        → Refused (add_input_track t pc bin c) ↔ Refused (input_bin t)
    by_bin o e = ground arith

-- The compositor panics on a track exactly if the client's pipeline panics on it both as an audio track
-- and as a video track; and all three panic on VP9, whichever letters of the MIME type are capitals.
pub add_input_track-refuses :
    (t : TrackRemote) (pc : ℕ) (bin : Element) (c : Compositor)
    → (Refused (add_input_track t pc bin c) ↔ (
        Refused (create_client_pipeline (some t) none)
        × Refused (create_client_pipeline none (some t))))
      × (to_lower t.mime_type ≡ "video/vp9" → Refused (add_input_track t pc bin c))
add_input_track-refuses t pc bin c =
    let (fwd, bwd) = add-Refused t pc bin c in
    let (split, both) = input_bin-Refused t in
    let ((audio, audio'), (video, video')) = client-Refused t in
    (
      (
        λ h. let (a, v) = split (fwd h) in (audio' a, video' v),
        λ h. bwd (both (audio h.0, video h.1)),
      ),
      λ vp9. bwd (input_bin-vp9 t vp9),
    )
