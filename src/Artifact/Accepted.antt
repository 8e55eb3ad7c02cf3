-- ===== src/Artifact/Accepted.antt =====
-- mobile_nexarm_artifact.py: the artifact of an episode whose frames were all accepted.
use Prim.Native.String.{String}
use text.Mathlib.TextEquality.{eq_iff}
use lerobot_nexarm.Prelude.{
  ℕ, ◌≡◌, ◌≢◌, refl, sym, ap, ◌∙◌, subst, Bool, true, false, not, ◌&&◌, List, [], ◌∷◌, ◌++◌, map,
  Option, none, some, length, ◌==◌, append_assoc, append-nil, if◌then◌else◌, arith, All,
}
use lerobot_nexarm.Artifact.{
  Image, Streams, Writer, new_writer, Frame, has_stream, stream, is_camera, add_frame,
}
use lerobot_nexarm.Artifact.Arrays.{state_action_names}
use lerobot_nexarm.Artifact.Streams.{Distinct, Unique}
use lerobot_nexarm.Artifact.Store.{
  same_names, all_long, is_steady, all_count, validate_episode_artifact, written, invalid, Output,
  write_videos, artifact_of, finalize,
}
use lerobot_nexarm.Artifact.Valid.{IsSynchronized, add_frame-IsSynchronized}

-- A frame as a dict of cameras can be: each once, and at least one.
abbrev pub IsProper : Frame → Type 0
IsProper f = Distinct f.cameras × ((c : ℕ) × (is_camera c f.cameras ≡ true))

abbrev pub unless_raised : Writer × Bool → Option Writer
unless_raised (w, false) = some w
unless_raised (w, true) = none

-- The writer after frames of which none is refused.
abbrev pub add_frames : List Frame → Option Writer → Option Writer
add_frames fs none = none
add_frames [] (some w) = some w
add_frames (f ∷ fs) (some w) = add_frames fs (unless_raised (add_frame f w))

abbrev pub timestamps_of : List Frame → List ℕ
timestamps_of fs = map (λ (f : Frame). f.timestamp) fs

abbrev IsSynchronizedIf : List ℕ → Option Writer → Type 0
IsSynchronizedIf ts none = Unit
IsSynchronizedIf ts (some w) = IsSynchronized w × (w.timestamps ≡ ts)

add_frames-IsSynchronizedIf :
    (fs : List Frame) (ts : List ℕ) (w : Option Writer)
    → All IsProper fs
    → IsSynchronizedIf ts w
    → IsSynchronizedIf (ts ++ timestamps_of fs) (add_frames fs w)
add_frames-IsSynchronizedIf [] ts none p h = tt
add_frames-IsSynchronizedIf (f ∷ fs) ts none p h = tt
add_frames-IsSynchronizedIf [] ts (some w) p h = (h.0, h.1 ∙ sym (append-nil ts))
add_frames-IsSynchronizedIf (f ∷ fs) ts (some w) p h =
    subst (λ (x : List ℕ). IsSynchronizedIf x (add_frames fs (unless_raised (add_frame f w))))
      (append_assoc ts (f.timestamp ∷ []) (timestamps_of fs))
      (add_frames-IsSynchronizedIf fs (ts ++ f.timestamp ∷ []) (unless_raised (add_frame f w)) p.1
        (next (add_frame f w) (add_frame-IsSynchronized f w p.0.1.0 h.0 p.0.0 p.0.1.1)))
  where
    next :
        (r : Writer × Bool)
        → (r.1 ≡ false → IsSynchronized r.0 × (r.0.timestamps ≡ w.timestamps ++ f.timestamp ∷ []))
        → IsSynchronizedIf (ts ++ f.timestamp ∷ []) (unless_raised r)
    next (v, true) k = tt
    next (v, false) k = ((k refl).0, (k refl).1 ∙ ap (λ (x : List ℕ). x ++ f.timestamp ∷ []) h.1)

write_videos-all_count :
    (encode : List Image → Option ℕ) (n : ℕ) (frames : Streams)
    → ((images : List Image) → encode images ≡ some (length images))
    → Unique frames
    → ((name : ℕ) → has_stream name frames ≡ true → length (stream name frames) ≡ n)
    → (videos : List (ℕ × ℕ)) × (write_videos encode frames ≡ some videos)
      × (all_count n videos ≡ true)
unfolding write_videos all_count has_stream stream
write_videos-all_count encode n [] keeps u h = ([], refl, refl)
write_videos-all_count encode n ((m, images) ∷ frames) keeps u h =
    let rest =
      write_videos-all_count encode n frames keeps u.1 (λ name e. ground (arith, h name, e, u.0)) in
    ((m, length images) ∷ rest.0, rw (keeps images, rest.1) refl, ground (arith, h m, rest.2))

same_names_refl : (names : List String) → same_names names names ≡ true
same_names_refl [] = refl
same_names_refl (n ∷ names) = rw ((eq_iff n n).1 refl) (same_names_refl names)

validate-IsSynchronized :
    (o : Output) (w : Writer) (videos : List (ℕ × ℕ))
    → IsSynchronized w
    → o.schema_version ≡ 1
    → o.feature_names ≡ state_action_names
    → all_count (length w.timestamps) videos ≡ true
    → validate_episode_artifact (artifact_of o w videos) ≡ is_steady o.fps w.timestamps
unfolding validate_episode_artifact
validate-IsSynchronized o w videos h schema names counts =
    let named : same_names o.feature_names state_action_names ≡ true =
      rw names (same_names_refl state_action_names) in
    ground (arith, h.state_count, h.states, h.action_count, h.actions)

pub new_writer-IsSynchronized : IsSynchronized new_writer
unfolding has_stream all_long
new_writer-IsSynchronized = record {
  images = λ name e. absurd (ground arith);
  started = λ e. refl;
  unique = tt;
  state_count = refl;
  states = refl;
  action_count = refl;
  actions = refl;
}

timestamps_of-some : (fs : List Frame) → fs ≢ [] → (length (timestamps_of fs) == 0) ≡ false
timestamps_of-some [] n = absurd (n refl)
timestamps_of-some (f ∷ fs) n = ground arith

-- An episode of at least one frame, each accepted, and each with one or more cameras: where the
-- directory may be written, the metadata are the defaults and a video decodes to as many frames as
-- it was given, `finalize` writes an artifact with the frames' timestamps, and the validation lets
-- it through exactly if these are steady at the fps.
pub finalize-steady :
    (o : Output) (fs : List Frame) (w : Writer)
    → All IsProper fs
    → fs ≢ []
    → add_frames fs (some new_writer) ≡ some w
    → (o.has_files && not o.overwrite) ≡ false
    → o.schema_version ≡ 1
    → o.feature_names ≡ state_action_names
    → ((images : List Image) → o.encode images ≡ some (length images))
    → (videos : List (ℕ × ℕ)) × (w.timestamps ≡ timestamps_of fs)
      × (finalize o w ≡ (
          if is_steady o.fps (timestamps_of fs)
          then written (artifact_of o w videos)
          else invalid (artifact_of o w videos)))
unfolding finalize
finalize-steady o fs w proper some_frame accepted writable schema names keeps =
    let synced = subst (IsSynchronizedIf (timestamps_of fs)) accepted (
      add_frames-IsSynchronizedIf fs [] (some new_writer) proper
        (new_writer-IsSynchronized, refl)) in
    let videos =
      write_videos-all_count o.encode (length w.timestamps) w.frames keeps synced.0.unique
        synced.0.images in
    let valid =
      validate-IsSynchronized o w videos.0 synced.0 schema names videos.2
      ∙ ap (is_steady o.fps) synced.1 in
    let some_time =
      ap (λ (x : List ℕ). length x == 0) synced.1 ∙ timestamps_of-some fs some_frame in
    (videos.0, synced.1, rw (some_time, writable, videos.1, valid) refl)
