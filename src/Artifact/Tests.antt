-- ===== src/Artifact/Tests.antt =====
-- The writer of an artifact on concrete frames.
use lerobot_nexarm.Prelude.{
  ℕ, ◌≡◌, ◌≢◌, refl, ap, subst, Bool, true, false, List, [], ◌∷◌, some, length, arith,
  if◌then◌else◌,
}
use lerobot_nexarm.Prelude.Int.{ℤ, pos}
use lerobot_nexarm.Artifact.Arrays.{
  Value, finite, sequence, all_finite, canonical_array, state_action_names,
}
use lerobot_nexarm.Artifact.{
  Image, Writer, new_writer, Frame, has_stream, stream, add_image, add_images, is_expected, is_late,
  add_frame,
}
use lerobot_nexarm.Artifact.Store.{Output, is_steady, written, invalid, artifact_of, finalize}
use lerobot_nexarm.Artifact.Valid.{IsSynchronized, add_frame-IsSynchronized}
use lerobot_nexarm.Artifact.Accepted.{
  add_frames, unless_raised, timestamps_of, new_writer-IsSynchronized, finalize-steady,
}
use lerobot_nexarm.Artifact.Torn.{add_rest, add_frame-finalize}

abbrev vector : List Value
vector =
    finite (pos 1)
    ∷ finite (pos 2)
    ∷ finite (pos 3)
    ∷ finite (pos 4)
    ∷ finite (pos 5)
    ∷ finite (pos 6)
    ∷ finite (pos 1)
    ∷ finite (pos 2)
    ∷ finite (pos 3)
    ∷ finite (pos 4)
    ∷ finite (pos 5)
    ∷ finite (pos 6)
    ∷ finite (pos 0)
    ∷ finite (pos 0)
    ∷ finite (pos 0)
    ∷ finite (pos 300)
    ∷ []

abbrev ticks : List ℤ
ticks =
    pos 1
    ∷ pos 2
    ∷ pos 3
    ∷ pos 4
    ∷ pos 5
    ∷ pos 6
    ∷ pos 1
    ∷ pos 2
    ∷ pos 3
    ∷ pos 4
    ∷ pos 5
    ∷ pos 6
    ∷ pos 0
    ∷ pos 0
    ∷ pos 0
    ∷ pos 300
    ∷ []

abbrev small : Image
small = record { is_valid = true; height = 48; width = 64; pixels = 0 }

abbrev wide : Image
wide = record { is_valid = true; height = 48; width = 80; pixels = 0 }

abbrev frame_at : ℕ → Image → Frame
frame_at t second = record {
  timestamp = t;
  state = sequence vector;
  action = sequence vector;
  cameras = (1, small) ∷ (2, second) ∷ [];
}

abbrev output : Output
output = record {
  schema_version = 1;
  feature_names = state_action_names;
  fps = 30;
  overwrite = false;
  has_files = false;
  encode = λ images. some (length images);
}

abbrev first : Writer
first = record {
  timestamps = 0 ∷ [];
  states = ticks ∷ [];
  actions = ticks ∷ [];
  frames = (1, small ∷ []) ∷ (2, small ∷ []) ∷ [];
}

first_frame : add_frame (frame_at 0 small) new_writer ≡ (first, false)
unfolding add_frame is_expected all_finite add_images stream add_image
first_frame = refl

finalize-steady_example :
    (videos : List (ℕ × ℕ)) × (first.timestamps ≡ timestamps_of (frame_at 0 small ∷ []))
    × (finalize output first ≡ (
        if is_steady 30 (timestamps_of (frame_at 0 small ∷ []))
        then written (artifact_of output first videos)
        else invalid (artifact_of output first videos)))
finalize-steady_example =
    finalize-steady output (frame_at 0 small ∷ []) first (((refl, (refl, tt)), (1, refl)), tt)
      (ground arith) (ap (λ (r : Writer × Bool). add_frames [] (unless_raised r)) first_frame) refl
      refl refl (λ images. refl)

first-IsSynchronized : IsSynchronized first
first-IsSynchronized =
    subst IsSynchronized (ap (λ (r : Writer × Bool). r.0) first_frame)
      (add_frame-IsSynchronized (frame_at 0 small) new_writer 1 new_writer-IsSynchronized
        (refl, (refl, tt)) refl (ap (λ (r : Writer × Bool). r.1) first_frame)).0

vector_run : canonical_array (sequence vector) ≡ some ticks
unfolding canonical_array all_finite
vector_run = refl

-- The second camera's frame is wider than before.
add_frame-finalize_example :
    ((add_frame (frame_at 33333 wide) first).1 ≡ true)
    × (finalize output
          (add_rest (frame_at 33333 small ∷ []) (add_frame (frame_at 33333 wide) first).0)
        ≢ written (artifact_of output first []))
unfolding has_stream is_late is_expected stream add_image
add_frame-finalize_example =
    add_frame-finalize first (frame_at 33333 wide) 1 2 small wide [] ticks ticks
      (frame_at 33333 small ∷ []) output (artifact_of output first []) first-IsSynchronized refl
      refl vector_run vector_run refl refl refl refl (λ images. refl)
