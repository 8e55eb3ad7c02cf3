-- ===== src/Artifact/Streams.antt =====
-- mobile_nexarm_artifact.py: how the images of a frame go to the streams.
use lerobot_nexarm.Prelude.{
  ℕ, suc, ◌+◌, ◌≤◌, ◌≡◌, ◌⊎◌, inl, inr, refl, Bool, true, false, ◌||◌, [], ◌∷◌, length,
  length-append, ◌==◌, if◌then◌else◌, arith, Bool-cases,
}
use lerobot_nexarm.Artifact.{
  Image, Streams, Cameras, has_stream, stream, is_camera, cameras_among, streams_among, is_expected,
  add_image, fits, add_images,
}

-- How often a camera occurs in a frame.
abbrev pub occurs : ℕ → Cameras → ℕ
occurs name [] = 0
occurs name ((n, image) ∷ cameras) =
    let rest = occurs name cameras in if n == name then suc rest else rest

-- A dict has each key once.
abbrev pub Distinct : Cameras → Type 0
Distinct [] = Unit
Distinct ((n, image) ∷ cameras) = (is_camera n cameras ≡ false) × Distinct cameras

abbrev pub Unique : Streams → Type 0
Unique [] = Unit
Unique ((n, images) ∷ frames) = (has_stream n frames ≡ false) × Unique frames

occurs-none :
    (name : ℕ) (cameras : Cameras) → is_camera name cameras ≡ false → occurs name cameras ≡ 0
occurs-none name [] h = refl
occurs-none name ((n, image) ∷ cameras) h = ground (arith, occurs-none name cameras)

pub occurs-some :
    (name : ℕ) (cameras : Cameras) → is_camera name cameras ≡ true → 1 ≤ occurs name cameras
occurs-some name [] h = ground arith
occurs-some name ((n, image) ∷ cameras) h = ground (arith, occurs-some name cameras)

pub occurs-one :
    (name : ℕ) (cameras : Cameras)
    → Distinct cameras
    → is_camera name cameras ≡ true
    → occurs name cameras ≡ 1
occurs-one name [] d h = ground arith
occurs-one name ((n, image) ∷ cameras) d h =
    ground (arith, occurs-one name cameras d.1, occurs-none name cameras, d.0)

pub count-add_image :
    (name n : ℕ) (image : Image) (frames : Streams)
    → length (stream name (add_image n image frames))
      ≡ (if n == name then suc (length (stream name frames)) else length (stream name frames))
unfolding stream add_image
count-add_image name n image [] = ground arith
count-add_image name n image ((m, images) ∷ frames) =
    ground (arith, count-add_image name n image frames, length-append images (image ∷ []))

has_stream-add_image :
    (name n : ℕ) (image : Image) (frames : Streams)
    → has_stream name (add_image n image frames)
      ≡ (if n == name then true else has_stream name frames)
unfolding has_stream add_image
has_stream-add_image name n image [] = ground arith
has_stream-add_image name n image ((m, images) ∷ frames) =
    ground (arith, has_stream-add_image name n image frames)

Unique-add_image :
    (n : ℕ) (image : Image) (frames : Streams) → Unique frames → Unique (add_image n image frames)
unfolding add_image has_stream
Unique-add_image n image [] u = (refl, tt)
Unique-add_image n image ((m, images) ∷ frames) u = elim (Bool-cases (m == n)) [
  | inl e ↦ rw e u
  | inr e ↦ rw e (
    ground (arith, has_stream-add_image m n image frames, u.0),
    Unique-add_image n image frames u.1,
  )
]

-- What the loop over the cameras does to a stream.
pub record Adds (cameras : Cameras) (frames : Streams) (added : Streams × Bool) : Type 0 where
  pub grows : (name : ℕ) → length (stream name frames) ≤ length (stream name added.0)
  pub counts :
      added.1 ≡ false
      → (name : ℕ)
      → length (stream name added.0) ≡ length (stream name frames) + occurs name cameras
  pub has :
      added.1 ≡ false
      → (name : ℕ) → has_stream name added.0 ≡ (is_camera name cameras || has_stream name frames)
  pub unique : Unique frames → Unique added.0

pub add_images-Adds :
    (cameras : Cameras) (frames : Streams) → Adds cameras frames (add_images cameras frames)
unfolding add_images
add_images-Adds [] frames = record {
  grows = λ name. omega arith;
  counts = λ e name. omega arith;
  has = λ e name. refl;
  unique = λ u. u;
}
add_images-Adds ((n, image) ∷ cameras) frames =
    let rest = add_images-Adds cameras (add_image n image frames) in
    elim (Bool-cases (fits image (stream n frames))) [
      | inl e ↦ rw e (record {
        grows = λ name. ground (arith, rest.grows name, count-add_image name n image frames);
        counts = λ f name. ground (arith, rest.counts f name, count-add_image name n image frames);
        has = λ f name. ground (arith, rest.has f name, has_stream-add_image name n image frames);
        unique = λ u. rest.unique (Unique-add_image n image frames u);
      })
      | inr e ↦ rw e (record {
        grows = λ name. omega arith;
        counts = λ f. absurd (ground arith);
        has = λ f. absurd (ground arith);
        unique = λ u. u;
      })
    ]

pub stream-absent :
    (name : ℕ) (frames : Streams) → has_stream name frames ≡ false → stream name frames ≡ []
unfolding has_stream stream
stream-absent name [] h = refl
stream-absent name ((n, images) ∷ frames) h = ground (arith, stream-absent name frames)

streams_among-has :
    (name : ℕ) (frames : Streams) (cameras : Cameras)
    → streams_among frames cameras ≡ true
    → has_stream name frames ≡ true
    → is_camera name cameras ≡ true
unfolding has_stream
streams_among-has name [] cameras s h = ground arith
streams_among-has name ((n, images) ∷ frames) cameras s h =
    ground (arith, streams_among-has name frames cameras)

cameras_among-has :
    (name : ℕ) (cameras : Cameras) (frames : Streams)
    → cameras_among cameras frames ≡ true
    → is_camera name cameras ≡ true
    → has_stream name frames ≡ true
cameras_among-has name [] frames s h = ground arith
cameras_among-has name ((n, image) ∷ cameras) frames s h =
    ground (arith, cameras_among-has name cameras frames)

-- Once there are streams, a frame that is accepted has exactly their cameras.
pub is_expected-has :
    (name : ℕ) (cameras : Cameras) (frames : Streams)
    → is_expected cameras frames ≡ true
    → has_stream name frames ≡ true
    → is_camera name cameras ≡ true
unfolding is_expected has_stream
is_expected-has name cameras [] e h = ground arith
is_expected-has name cameras (f ∷ frames) e h =
    streams_among-has name (f ∷ frames) cameras (ground arith) h

pub is_expected-camera :
    (name : ℕ) (cameras : Cameras) (frames : Streams)
    → is_expected cameras frames ≡ true
    → is_camera name cameras ≡ true
    → (frames ≡ []) ⊎ (has_stream name frames ≡ true)
unfolding is_expected
is_expected-camera name cameras [] e h = inl refl
is_expected-camera name cameras (f ∷ frames) e h =
    inr (cameras_among-has name cameras (f ∷ frames) (ground arith) h)
