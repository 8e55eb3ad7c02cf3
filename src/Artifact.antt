-- ===== src/Artifact.antt =====
-- packages/lerobot_robot_nexarm/src/lerobot_robot_nexarm/mobile_nexarm_artifact.py: the writer of an
-- episode's artifact. Times are in microseconds; a camera's name is a number, an image its shape and
-- a number for its pixels; a dict is the list of its entries.
pub mod Arrays
pub mod Store
pub mod Streams
pub mod Valid
pub mod Accepted
pub mod Torn
mod Tests
use lerobot_nexarm.Prelude.{
  ℕ, zero, suc, ◌+◌, ◌-◌, ◌*◌, Bool, true, false, not, ◌&&◌, ◌||◌, List, [], ◌∷◌, ◌++◌, map, Option,
  none, some, length, ltb, leb, ◌==◌, if◌then◌else◌,
}
use lerobot_nexarm.Prelude.Int.{ℤ}
use lerobot_nexarm.Artifact.Arrays.{Values, canonical_array}

-- `is_valid` tells that it is uint8 of shape [H, W, 3].
pub record Image : Type 0 where
  pub is_valid : Bool
  pub height : ℕ
  pub width : ℕ
  pub pixels : ℕ

abbrev pub Streams : Type 0
Streams = List (ℕ × List Image)

abbrev pub Cameras : Type 0
Cameras = List (ℕ × Image)

-- `EpisodeArtifactWriter`, without its metadata.
pub record Writer : Type 0 where
  pub timestamps : List ℕ
  pub states : List (List ℤ)
  pub actions : List (List ℤ)
  pub frames : Streams

abbrev pub new_writer : Writer
new_writer = record { timestamps = []; states = []; actions = []; frames = [] }

unfoldable pub has_stream : ℕ → Streams → Bool
has_stream name [] = false
has_stream name ((n, images) ∷ frames) = if n == name then true else has_stream name frames

unfoldable pub stream : ℕ → Streams → List Image
stream name [] = []
stream name ((n, images) ∷ frames) = if n == name then images else stream name frames

abbrev pub is_camera : ℕ → Cameras → Bool
is_camera name [] = false
is_camera name ((n, image) ∷ cameras) = if n == name then true else is_camera name cameras

abbrev pub cameras_among : Cameras → Streams → Bool
cameras_among [] frames = true
cameras_among ((n, image) ∷ cameras) frames =
    let rest = cameras_among cameras frames in if has_stream n frames then rest else false

abbrev pub streams_among : Streams → Cameras → Bool
streams_among [] cameras = true
streams_among ((n, images) ∷ frames) cameras =
    let rest = streams_among frames cameras in if is_camera n cameras then rest else false

-- `set(cameras) == expected_cameras`: any cameras while there is no stream.
pub is_expected : Cameras → Streams → Bool
is_expected cameras [] = true
is_expected cameras (f ∷ frames) =
    cameras_among cameras (f ∷ frames) && streams_among (f ∷ frames) cameras

-- `prior = self._frames.setdefault(name, [])` and `prior.append(image)`.
unfoldable pub add_image : ℕ → Image → Streams → Streams
add_image name image [] = (name, image ∷ []) ∷ []
add_image name image ((n, images) ∷ frames) =
    if n == name
    then (n, images ++ image ∷ []) ∷ frames
    else (n, images) ∷ add_image name image frames

-- A valid image of the shape of the first one of its stream.
abbrev pub fits : Image → List Image → Bool
fits image [] = image.is_valid
fits image (first ∷ images) =
    image.is_valid && image.height == first.height && image.width == first.width

-- The loop over the cameras, and whether it raises; the images before the one that raises stay.
unfoldable pub add_images : Cameras → Streams → Streams × Bool
add_images [] frames = (frames, false)
add_images ((name, image) ∷ cameras) frames =
    let rest = add_images cameras (add_image name image frames) in
    if fits image (stream name frames) then rest else (frames, true)

pub record Frame : Type 0 where
  pub timestamp : ℕ
  pub state : Values
  pub action : Values
  pub cameras : Cameras

-- `self._timestamps and timestamp <= self._timestamps[-1]`.
unfoldable pub is_late : ℕ → List ℕ → Bool
is_late timestamp [] = false
is_late timestamp (t ∷ []) = leb timestamp t
is_late timestamp (t ∷ u ∷ ts) = is_late timestamp (u ∷ ts)

-- The writer after a frame, and whether `add_frame` raised.
abbrev pub add_arrays :
    Frame → Writer → Option (List ℤ) → Option (List ℤ) → Streams × Bool → Writer × Bool
add_arrays f w none action images = (w, true)
add_arrays f w (some state) none images = (w, true)
add_arrays f w (some state) (some action) (frames, true) = (record w { frames = frames }, true)
add_arrays f w (some state) (some action) (frames, false) = (
  record {
    timestamps = w.timestamps ++ f.timestamp ∷ [];
    states = w.states ++ state ∷ [];
    actions = w.actions ++ action ∷ [];
    frames = frames;
  },
  false,
)

abbrev pub checked_images : Cameras → Streams → Option (Streams × Bool)
checked_images cameras frames =
    let added = add_images cameras frames in if is_expected cameras frames then some added else none

abbrev pub add_checked :
    Frame → Writer → Option (List ℤ) → Option (List ℤ) → Option (Streams × Bool) → Writer × Bool
add_checked f w state action none = (w, true)
add_checked f w state action (some images) = add_arrays f w state action images

unfoldable pub add_frame : Frame → Writer → Writer × Bool
unfolding is_late canonical_array
add_frame f w =
    let added =
      add_checked f w (canonical_array f.state) (canonical_array f.action)
        (checked_images f.cameras w.frames) in
    if is_late f.timestamp w.timestamps then (w, true) else added
