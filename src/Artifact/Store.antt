-- ===== src/Artifact/Store.antt =====
-- mobile_nexarm_artifact.py: `finalize` and `validate_episode_artifact`.
use Prim.Native.String.{String}
use text.Mathlib.Text.{◌==◌ as str_eq}
use lerobot_nexarm.Prelude.{
  ℕ, ◌+◌, ◌*◌, Bool, true, false, not, ◌&&◌, List, [], ◌∷◌, Option, none, some, length, leb, ◌==◌,
  if◌then◌else◌,
}
use lerobot_nexarm.Prelude.Int.{ℤ}
use lerobot_nexarm.Artifact.Arrays.{state_action_names}
use lerobot_nexarm.Artifact.{Image, Streams, Writer}

-- The artifact on disk: of each camera's video the number of frames that it decodes to.
pub record Artifact : Type 0 where
  pub schema_version : ℕ
  pub feature_names : List String
  pub fps : ℕ
  pub timestamps : List ℕ
  pub states : List (List ℤ)
  pub actions : List (List ℤ)
  pub videos : List (ℕ × ℕ)

abbrev pub same_names : List String → List String → Bool
same_names [] [] = true
same_names (x ∷ xs) (y ∷ ys) = let rest = same_names xs ys in if str_eq x y then rest else false
same_names _ _ = false

unfoldable pub all_long : ℕ → List (List ℤ) → Bool
all_long n [] = true
all_long n (row ∷ rows) = let rest = all_long n rows in if length row == n then rest else false

abbrev pub has_shape : ℕ → ℕ → List (List ℤ) → Bool
has_shape rows columns array = length array == rows && all_long columns array

-- `timestamp_tolerance_s`, in microseconds.
abbrev pub timestamp_tolerance : ℕ
timestamp_tolerance = 2000

-- The distance of a step from a second by `fps` is compared in units of 1 / fps microseconds.
abbrev pub is_near : ℕ → ℕ → ℕ → Bool
is_near fps t u =
    let allowed = fps * timestamp_tolerance in
    leb (fps * u) (fps * t + 1000000 + allowed) && leb (fps * t + 1000000) (fps * u + allowed)

-- No step of the timestamps drifts; with an `fps` of 0 a second timestamp raises as well.
unfoldable pub is_steady : ℕ → List ℕ → Bool
is_steady fps [] = true
is_steady fps (t ∷ []) = true
is_steady fps (t ∷ u ∷ ts) =
    let rest = is_steady fps (u ∷ ts) in if is_near fps t u then rest else false

unfoldable pub all_count : ℕ → List (ℕ × ℕ) → Bool
all_count n [] = true
all_count n ((name, count) ∷ videos) =
    let rest = all_count n videos in if count == n then rest else false

-- `validate_episode_artifact`; false for its ValueError.
unfoldable pub validate_episode_artifact : Artifact → Bool
unfolding is_steady all_count all_long
validate_episode_artifact a =
    let n = length a.timestamps in
    a.schema_version == 1
    && same_names a.feature_names state_action_names
    && has_shape n (length state_action_names) a.states
    && has_shape n (length state_action_names) a.actions
    && is_steady a.fps a.timestamps
    && all_count n a.videos

pub data Finalized : Type 0 where
  empty_episode not_empty encoder_failed : Finalized
  invalid : Artifact → Finalized
  written : Artifact → Finalized

-- The writer's metadata, and what the directory and the video encoder do: `encode` is the number of
-- frames that the written video decodes to, or the RuntimeError.
pub record Output : Type 0 where
  pub schema_version : ℕ
  pub feature_names : List String
  pub fps : ℕ
  pub overwrite : Bool
  pub has_files : Bool
  pub encode : List Image → Option ℕ

abbrev pub video_before : ℕ → Option ℕ → Option (List (ℕ × ℕ)) → Option (List (ℕ × ℕ))
video_before name (some count) (some videos) = some ((name, count) ∷ videos)
video_before name _ _ = none

unfoldable pub write_videos : (List Image → Option ℕ) → Streams → Option (List (ℕ × ℕ))
write_videos encode [] = some []
write_videos encode ((name, images) ∷ frames) =
    video_before name (encode images) (write_videos encode frames)

abbrev pub artifact_of : Output → Writer → List (ℕ × ℕ) → Artifact
artifact_of o w videos = record {
  schema_version = o.schema_version;
  feature_names = o.feature_names;
  fps = o.fps;
  timestamps = w.timestamps;
  states = w.states;
  actions = w.actions;
  videos = videos;
}

abbrev pub validated : Artifact → Finalized
validated a = if validate_episode_artifact a then written a else invalid a

abbrev pub finalize_videos : Output → Writer → Option (List (ℕ × ℕ)) → Finalized
finalize_videos o w none = encoder_failed
finalize_videos o w (some videos) = validated (artifact_of o w videos)

unfoldable pub finalize : Output → Writer → Finalized
unfolding write_videos
finalize o w =
    let done = finalize_videos o w (write_videos o.encode w.frames) in
    if length w.timestamps == 0
    then empty_episode
    else if o.has_files && not o.overwrite
    then not_empty
    else done
