-- ===== src/Gst/Bins.antt =====
-- pkg/client/gst/compositor.go: the compositor's tables belong to the tracks that are read.
use ion_cluster.Base.{
  ℕ, suc, ◌+◌, ◌≡◌, refl, ◌∙◌, ap, subst, String, Option, none, some, List, [], ◌∷◌, ◌++◌, lookup,
  lookup-insert, lookup-delete, HasUniqueKeys, insert-HasUniqueKeys, delete-HasUniqueKeys, length,
  length-insert_new, length-delete_found, arith, if◌then◌else◌,
}
use ion_cluster.Rpc.{Outcome, done, panics}
use ion_cluster.Gst.{
  TrackRemote, Element, Call, add_input_track as c_add_input_track, remove_input_track,
}
use ion_cluster.Gst.Compositor.{
  Keyframe, Reader, Compositor, Step, Reach, starts, next, register, add_input_track, input_bin,
  clean_up, calling, bin_at, handle_appsrc_force_key_unit, new_compositor_pipeline,
}

abbrev pub count_added : List Call → ℕ
count_added [] = 0
count_added (c_add_input_track _ _ _ _ ∷ cs) = suc (count_added cs)
count_added (_ ∷ cs) = count_added cs

abbrev pub count_removed : List Call → ℕ
count_removed [] = 0
count_removed (remove_input_track _ _ ∷ cs) = suc (count_removed cs)
count_removed (_ ∷ cs) = count_removed cs

count_added-append : (cs ds : List Call) → count_added (cs ++ ds) ≡ count_added cs + count_added ds
count_added-append [] ds = omega arith
count_added-append (c ∷ cs) ds = ground (arith, count_added-append cs ds)

count_removed-append :
    (cs ds : List Call) → count_removed (cs ++ ds) ≡ count_removed cs + count_removed ds
count_removed-append [] ds = omega arith
count_removed-append (c ∷ cs) ds = ground (arith, count_removed-append cs ds)

-- What the tables hold of a track that a goroutine reads, or that none reads.
abbrev pub bin_of : Option Reader → Option Element
bin_of none = none
bin_of (some r) = some r.bin

abbrev pub callback_of : Option Reader → Option Keyframe
callback_of none = none
callback_of (some r) =
    if r.track.is_video then some (record { pc = r.pc; ssrc = r.track.ssrc }) else none

pub record IsTracked (c : Compositor) : Type 0 where
  pub bins : (id : String) → lookup id c.track_bins ≡ bin_of (lookup id c.readers)
  pub callbacks : (id : String) → lookup id c.keyframe_callbacks ≡ callback_of (lookup id c.readers)
  pub unique : HasUniqueKeys c.readers
  pub balanced : count_added c.calls ≡ count_removed c.calls + length c.readers

-- A call that adds and removes no track.
calling-IsTracked :
    (call : Call) (c : Compositor)
    → count_added (call ∷ []) ≡ 0
    → count_removed (call ∷ []) ≡ 0
    → IsTracked c
    → IsTracked (calling call c)
calling-IsTracked call c a b h = record {
  bins = h.bins;
  callbacks = h.callbacks;
  unique = h.unique;
  balanced = omega (
    arith,
    h.balanced,
    count_added-append c.calls (call ∷ []),
    count_removed-append c.calls (call ∷ []),
    a,
    b,
  );
}

callbacks-register :
    (t : TrackRemote) (pc : ℕ) (bin : Element) (c : Compositor)
    → IsTracked c
    → lookup t.id c.readers ≡ none
    → (id : String)
    → lookup id (register t pc bin c).keyframe_callbacks
      ≡ callback_of (lookup id (register t pc bin c).readers)
unfolding register
callbacks-register t pc bin c h new id = ground (
  arith,
  h.callbacks id,
  h.callbacks t.id,
  lookup-insert t.id id (record { pc = pc; ssrc = t.ssrc }) c.keyframe_callbacks,
  lookup-insert t.id id (record { track = t; pc = pc; bin = bin }) c.readers,
)

register-IsTracked :
    (t : TrackRemote) (pc : ℕ) (bin : Element) (description : String) (c : Compositor)
    → IsTracked c
    → lookup t.id c.readers ≡ none
    → IsTracked (register t pc bin (calling (c_add_input_track description t.id t.is_video bin) c))
unfolding register
register-IsTracked t pc bin description c h new =
    let r : Reader = record { track = t; pc = pc; bin = bin } in
    let call : Call = c_add_input_track description t.id t.is_video bin in
    record {
      bins = λ id. ground (
        arith,
        h.bins id,
        lookup-insert t.id id bin c.track_bins,
        lookup-insert t.id id r c.readers,
      );
      callbacks = callbacks-register t pc bin c h new;
      unique = insert-HasUniqueKeys t.id r c.readers h.unique;
      balanced = omega (
        arith,
        h.balanced,
        count_added-append c.calls (call ∷ []),
        count_removed-append c.calls (call ∷ []),
        length-insert_new t.id r c.readers new,
      );
    }

clean_up-IsTracked :
    (r : Reader) (c : Compositor)
    → IsTracked c
    → lookup r.track.id c.readers ≡ some r
    → IsTracked (clean_up r.track c)
unfolding clean_up
clean_up-IsTracked r c h runs =
    let t : TrackRemote = r.track in
    let call : Call = remove_input_track (bin_at t.id c.track_bins) t.is_video in
    record {
      bins = λ id.
          ground
            (arith, h.bins id, lookup-delete t.id id c.track_bins, lookup-delete t.id id c.readers);
      callbacks = λ id. ground (
        arith,
        h.callbacks id,
        lookup-delete t.id id c.keyframe_callbacks,
        lookup-delete t.id id c.readers,
      );
      unique = delete-HasUniqueKeys t.id c.readers h.unique;
      balanced = omega (
        arith,
        h.balanced,
        count_added-append c.calls (call ∷ []),
        count_removed-append c.calls (call ∷ []),
        length-delete_found t.id r c.readers h.unique runs,
      );
    }

add_input_track-IsTracked :
    (t : TrackRemote) (pc : ℕ) (bin : Element) (c c' : Compositor)
    → IsTracked c
    → lookup t.id c.readers ≡ none
    → add_input_track t pc bin c ≡ done c'
    → IsTracked c'
unfolding add_input_track
add_input_track-IsTracked t pc bin c c' h new e = by_codec (input_bin t) refl
  where
    by_codec : (o : Outcome String) → input_bin t ≡ o → IsTracked c'
    by_codec panics codec = absurd (ground (arith, e, codec))
    by_codec (done description) codec =
        subst IsTracked (ground (arith, e, codec)) (register-IsTracked t pc bin description c h new)

Step-IsTracked : (c c' : Compositor) → IsTracked c → Step c c' → IsTracked c'
unfolding handle_appsrc_force_key_unit
Step-IsTracked c c' h (Step.adds t pc bin _ new e) = add_input_track-IsTracked t pc bin c c' h new e
Step-IsTracked c c' h (Step.reads r buffer runs) = calling-IsTracked _ c refl refl h
Step-IsTracked c c' h (Step.ends r runs) = clean_up-IsTracked r c h runs
Step-IsTracked c c' h (Step.forces id) = by_callback (lookup id c.keyframe_callbacks) refl
  where
    by_callback :
        (o : Option Keyframe)
        → lookup id c.keyframe_callbacks ≡ o
        → IsTracked (handle_appsrc_force_key_unit id c)
    by_callback none e = rw (e, handle_appsrc_force_key_unit) h
    by_callback (some k) e =
        rw (e, handle_appsrc_force_key_unit)
          (record {
            bins = h.bins;
            callbacks = h.callbacks;
            unique = h.unique;
            balanced = h.balanced;
          })
Step-IsTracked c c' h Step.plays = calling-IsTracked _ c refl refl h
Step-IsTracked c c' h Step.stops = calling-IsTracked _ c refl refl h

-- In every state of a compositor to which a track is added only while none with its id is read, the
-- table of bins has an entry for exactly the tracks that are read, the bin that was made for the track;
-- the table of keyframe callbacks has one for exactly the video tracks among them, with the track's peer
-- connection and SSRC; and as many bins have been added as removed, and one more for each track that is
-- read.
pub Reach-IsTracked :
    (extra_pipeline_str : String) (c : Compositor) → Reach extra_pipeline_str c → IsTracked c
unfolding new_compositor_pipeline
Reach-IsTracked extra c starts = record {
  bins = λ id. refl;
  callbacks = λ id. refl;
  unique = tt;
  balanced = refl;
}
Reach-IsTracked extra c (next reached step) =
    Step-IsTracked _ c (Reach-IsTracked extra _ reached) step

-- In every state of a compositor to which a track is added only while none with its id is read: at
-- the end of a track that is read, GStreamer is handed the bin that was made for the track; a
-- request for a keyframe goes once to the track's own sender if it is a video track, and to nobody
-- otherwise.
pub Reach-serves :
    (extra_pipeline_str : String) (c : Compositor) (r : Reader)
    → Reach extra_pipeline_str c
    → lookup r.track.id c.readers ≡ some r
    → ((clean_up r.track c).calls ≡ c.calls ++ remove_input_track r.bin r.track.is_video ∷ [])
      × ((handle_appsrc_force_key_unit r.track.id c).plis ≡ (
          if r.track.is_video
          then c.plis ++ record { pc = r.pc; ssrc = r.track.ssrc } ∷ []
          else c.plis))
unfolding clean_up handle_appsrc_force_key_unit
Reach-serves extra c r reached runs =
    let h = Reach-IsTracked extra c reached in
    let bin : lookup r.track.id c.track_bins ≡ some r.bin = h.bins r.track.id ∙ ap bin_of runs in
    let callback : lookup r.track.id c.keyframe_callbacks ≡ callback_of (some r) =
      h.callbacks r.track.id ∙ ap callback_of runs in
    (ground (arith, bin), ground (arith, callback))
