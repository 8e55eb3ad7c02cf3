-- ===== src/Artifact/Torn.antt =====
-- mobile_nexarm_artifact.py: a frame that is refused at its second camera.
use lerobot_nexarm.Prelude.{
  ℕ, suc, ◌<◌, ◌≡◌, ◌≢◌, inl, inr, refl, ap, ◌∙◌, Bool, true, false, List, [], ◌∷◌, Option, none,
  some, length, length-append, ◌==◌, if◌then◌else◌, arith, Bool-cases,
}
use lerobot_nexarm.Prelude.Int.{ℤ}
use lerobot_nexarm.Artifact.{
  Image, Streams, Cameras, Writer, Frame, has_stream, stream, is_camera, is_expected, add_image,
  fits, add_images, is_late, add_arrays, add_frame,
}
use lerobot_nexarm.Artifact.Arrays.{canonical_array}
use lerobot_nexarm.Artifact.Streams.{
  Adds, occurs-some, count-add_image, add_images-Adds, stream-absent, is_expected-has,
}
use lerobot_nexarm.Artifact.Store.{
  Artifact, all_count, validate_episode_artifact, written, Output, write_videos, artifact_of,
  video_before, finalize_videos, finalize,
}
use lerobot_nexarm.Artifact.Valid.{IsSynchronized}

-- A camera has more images than there are timestamps.
abbrev pub IsAhead : ℕ → Writer → Type 0
IsAhead name w = length w.timestamps < length (stream name w.frames)

has_stream-IsAhead : (name : ℕ) (w : Writer) → IsAhead name w → has_stream name w.frames ≡ true
has_stream-IsAhead name w h = elim (Bool-cases (has_stream name w.frames)) [
  | inl e ↦ e
  | inr e ↦
      absurd (omega (arith, h, ap (λ (x : List Image). length x) (stream-absent name w.frames e)))
]

add_arrays-IsAhead :
    (name : ℕ) (f : Frame) (w : Writer) (state action : Option (List ℤ)) (images : Streams × Bool)
    → IsAhead name w
    → is_camera name f.cameras ≡ true
    → Adds f.cameras w.frames images
    → IsAhead name (add_arrays f w state action images).0
add_arrays-IsAhead name f w none action images h c adds = h
add_arrays-IsAhead name f w (some state) none images h c adds = h
add_arrays-IsAhead name f w (some state) (some action) (frames, true) h c adds =
    omega (arith, h, adds.grows name)
add_arrays-IsAhead name f w (some state) (some action) (frames, false) h c adds = omega (
  arith,
  h,
  adds.counts refl name,
  occurs-some name f.cameras c,
  length-append w.timestamps (f.timestamp ∷ []),
)

add_frame-IsAhead :
    (name : ℕ) (f : Frame) (w : Writer) → IsAhead name w → IsAhead name (add_frame f w).0
unfolding add_frame
add_frame-IsAhead name f w h = elim (Bool-cases (is_late f.timestamp w.timestamps)) [
  | inl late ↦ rw late h
  | inr late ↦ rw late (elim (Bool-cases (is_expected f.cameras w.frames)) [
    | inr x ↦ rw x h
    | inl x ↦ rw x (
        add_arrays-IsAhead name f w (canonical_array f.state) (canonical_array f.action)
          (add_images f.cameras w.frames) h
          (is_expected-has name f.cameras w.frames x (has_stream-IsAhead name w h))
          (add_images-Adds f.cameras w.frames))
  ])
]

-- The writer after more frames, where the caller goes on after a ValueError.
abbrev pub add_rest : List Frame → Writer → Writer
add_rest [] w = w
add_rest (f ∷ fs) w = add_rest fs (add_frame f w).0

add_rest-IsAhead :
    (name : ℕ) (fs : List Frame) (w : Writer) → IsAhead name w → IsAhead name (add_rest fs w)
add_rest-IsAhead name [] w h = h
add_rest-IsAhead name (f ∷ fs) w h =
    add_rest-IsAhead name fs (add_frame f w).0 (add_frame-IsAhead name f w h)

all_count-write_videos :
    (encode : List Image → Option ℕ) (name n : ℕ) (frames : Streams) (videos : List (ℕ × ℕ))
    → ((images : List Image) → encode images ≡ some (length images))
    → has_stream name frames ≡ true
    → write_videos encode frames ≡ some videos
    → all_count n videos ≡ true
    → length (stream name frames) ≡ n
unfolding write_videos all_count has_stream stream
all_count-write_videos encode name n [] videos keeps h e c = absurd (ground arith)
all_count-write_videos encode name n ((m, images) ∷ frames) videos keeps h e c =
    entry (write_videos encode frames)
      (λ tail. all_count-write_videos encode name n frames tail keeps) (rw⁻¹ (keeps images) e)
  where
    videos_in : Option (List (ℕ × ℕ)) → List (ℕ × ℕ)
    videos_in none = []
    videos_in (some found) = found

    entry :
        (rest : Option (List (ℕ × ℕ)))
        → ((tail : List (ℕ × ℕ))
            → has_stream name frames ≡ true
            → rest ≡ some tail
            → all_count n tail ≡ true
            → length (stream name frames) ≡ n)
        → video_before m (some (length images)) rest ≡ some videos
        → length (if m == name then images else stream name frames) ≡ n
    entry none ih f = absurd (ground arith)
    entry (some tail) ih f =
        let counted : all_count n ((m, length images) ∷ tail) ≡ true =
          ap (λ (v : Option (List (ℕ × ℕ))). all_count n (videos_in v)) f ∙ c in
        ground (arith, counted, ih tail)

-- An artifact that passes has as many frames in each video as timestamps.
validate-all_count :
    (a : Artifact)
    → validate_episode_artifact a ≡ true
    → all_count (length a.timestamps) a.videos ≡ true
unfolding validate_episode_artifact
validate-all_count a h = ground arith

finalize-IsAhead :
    (o : Output) (name : ℕ) (w : Writer) (a : Artifact)
    → ((images : List Image) → o.encode images ≡ some (length images))
    → IsAhead name w
    → finalize o w ≢ written a
unfolding finalize
finalize-IsAhead o name w a keeps h =
    let refused = videos (write_videos o.encode w.frames) refl in ground (arith, refused)
  where
    videos :
        (found : Option (List (ℕ × ℕ)))
        → write_videos o.encode w.frames ≡ found
        → finalize_videos o w found ≢ written a
    videos none e = ground arith
    videos (some found) e = elim (Bool-cases (validate_episode_artifact (artifact_of o w found))) [
      | inl v ↦ absurd (
          omega (
            arith,
            h,
            all_count-write_videos o.encode name (length w.timestamps) w.frames found keeps
                (has_stream-IsAhead name w h) e (validate-all_count (artifact_of o w found) v),
          ))
      | inr v ↦ rw v (ground arith)
    ]

-- In an episode with a camera, a frame that comes in time, has the arrays and the cameras of the
-- episode, and fits at its first camera but not at its second is refused; yet the image of the first
-- stays in the stream, so that however many frames are added after it, no `finalize` of the
-- episode returns an artifact, if a video decodes to as many frames as it was given.
pub add_frame-finalize :
    (w : Writer) (f : Frame) (n m : ℕ) (i j : Image) (cameras : Cameras) (state action : List ℤ)
    (later : List Frame) (o : Output) (a : Artifact)
    → IsSynchronized w
    → has_stream n w.frames ≡ true
    → is_late f.timestamp w.timestamps ≡ false
    → canonical_array f.state ≡ some state
    → canonical_array f.action ≡ some action
    → is_expected f.cameras w.frames ≡ true
    → f.cameras ≡ (n, i) ∷ (m, j) ∷ cameras
    → fits i (stream n w.frames) ≡ true
    → fits j (stream m (add_image n i w.frames)) ≡ false
    → ((images : List Image) → o.encode images ≡ some (length images))
    → ((add_frame f w).1 ≡ true) × (finalize o (add_rest later (add_frame f w).0) ≢ written a)
unfolding add_frame add_images
add_frame-finalize w f n m i j cameras state action later o a h stored late s t x c fi fj keeps =
    let images : add_images f.cameras w.frames ≡ (add_image n i w.frames, true) =
      rw (c, fi, fj) refl in
    let torn : add_frame f w ≡ (record w { frames = add_image n i w.frames }, true) =
      rw (late, s, t, x, images) refl in
    let ahead : IsAhead n (add_frame f w).0 = rw torn (omega (arith, h.images n stored, count n)) in
    (
      ap (λ (r : Writer × Bool). r.1) torn,
      finalize-IsAhead o n (add_rest later (add_frame f w).0) a keeps
          (add_rest-IsAhead n later (add_frame f w).0 ahead),
    )
  where
    count :
        (name : ℕ)
        → length (stream name (add_image name i w.frames)) ≡ suc (length (stream name w.frames))
    count name = ground (arith, count-add_image name name i w.frames)
