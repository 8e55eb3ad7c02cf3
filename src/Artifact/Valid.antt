-- ===== src/Artifact/Valid.antt =====
-- mobile_nexarm_artifact.py: an episode whose frames were all accepted.
use lerobot_nexarm.Prelude.{
  ℕ, suc, ◌≡◌, inl, inr, refl, ap, Bool, true, false, List, [], ◌∷◌, ◌++◌, Option, none, some,
  length, length-append, arith, Bool-cases,
}
use lerobot_nexarm.Prelude.Int.{ℤ}
use lerobot_nexarm.Artifact.Arrays.{
  Value, Values, mapping, sequence, finite, non_finite, finite_before, all_finite, values_of,
  of_shape, canonical_array, state_action_names,
}
use lerobot_nexarm.Artifact.{
  Image, Streams, Writer, Frame, has_stream, stream, is_camera, is_expected, add_images, is_late,
  add_arrays, checked_images, add_checked, add_frame,
}
use lerobot_nexarm.Artifact.Streams.{
  Distinct, Unique, occurs-one, occurs-some, Adds, add_images-Adds, stream-absent, is_expected-has,
  is_expected-camera,
}
use lerobot_nexarm.Artifact.Store.{all_long}

-- Every stream has an image for each timestamp, and there are streams once there are timestamps;
-- there is a state and an action of the canonical length for each timestamp.
pub record IsSynchronized (w : Writer) : Type 0 where
  pub images :
      (name : ℕ)
      → has_stream name w.frames ≡ true
      → length (stream name w.frames) ≡ length w.timestamps
  pub started : w.frames ≡ [] → length w.timestamps ≡ 0
  pub unique : Unique w.frames
  pub state_count : length w.states ≡ length w.timestamps
  pub states : all_long 16 w.states ≡ true
  pub action_count : length w.actions ≡ length w.timestamps
  pub actions : all_long 16 w.actions ≡ true

all_long-append :
    (n : ℕ) (rows : List (List ℤ)) (row : List ℤ)
    → all_long n rows ≡ true
    → length row ≡ n
    → all_long n (rows ++ row ∷ []) ≡ true
unfolding all_long
all_long-append n [] row h e = ground arith
all_long-append n (r ∷ rows) row h e = ground (arith, all_long-append n rows row)

length-all_finite :
    (vs : List Value) (found : List ℤ) → all_finite vs ≡ some found → length found ≡ length vs
unfolding all_finite
length-all_finite [] found e = ground arith
length-all_finite (v ∷ vs) found e = entry v (all_finite vs) (length-all_finite vs) e
  where
    entry :
        (v : Value) (rest : Option (List ℤ))
        → ((tail : List ℤ) → rest ≡ some tail → length tail ≡ length vs)
        → finite_before v rest ≡ some found
        → length found ≡ suc (length vs)
    entry non_finite rest h e = ground arith
    entry (finite t) none h e = ground arith
    entry (finite t) (some tail) h e = ground (arith, h tail refl)

length-of_shape : (vs : List Value) (found : List ℤ) → of_shape vs ≡ some found → length found ≡ 16
length-of_shape vs found e = ground (arith, length-all_finite vs found)

-- A canonical array has the 16 features.
pub length-canonical_array :
    (values : Values) (found : List ℤ) → canonical_array values ≡ some found → length found ≡ 16
unfolding canonical_array
length-canonical_array (mapping entries) found e =
    ground (arith, length-of_shape (values_of state_action_names entries) found)
length-canonical_array (sequence vs) found e = length-of_shape vs found e

added-IsSynchronized :
    (f : Frame) (w : Writer) (state action : List ℤ) (c : ℕ) (frames : Streams)
    → IsSynchronized w
    → Distinct f.cameras
    → is_camera c f.cameras ≡ true
    → length state ≡ 16
    → length action ≡ 16
    → is_expected f.cameras w.frames ≡ true
    → Adds f.cameras w.frames (frames, false)
    → IsSynchronized (add_arrays f w (some state) (some action) (frames, false)).0
unfolding stream
added-IsSynchronized f w state action c frames h d some_camera ls la x adds = record {
  images = λ name e. images name e;
  started = λ e. absurd (
      omega (
        arith,
        adds.counts refl c,
        occurs-some c f.cameras some_camera,
        ap (λ (y : Streams). length (stream c y)) e,
      ));
  unique = adds.unique h.unique;
  state_count = omega (
    arith,
    h.state_count,
    length-append w.states (state ∷ []),
    length-append w.timestamps (f.timestamp ∷ []),
  );
  states = all_long-append 16 w.states state h.states ls;
  action_count = omega (
    arith,
    h.action_count,
    length-append w.actions (action ∷ []),
    length-append w.timestamps (f.timestamp ∷ []),
  );
  actions = all_long-append 16 w.actions action h.actions la;
}
  where
    stamped : length (w.timestamps ++ f.timestamp ∷ []) ≡ suc (length w.timestamps)
    stamped = omega (arith, length-append w.timestamps (f.timestamp ∷ []))

    one_more :
        (name : ℕ)
        → is_camera name f.cameras ≡ true
        → length (stream name w.frames) ≡ length w.timestamps
        → length (stream name frames) ≡ length (w.timestamps ++ f.timestamp ∷ [])
    one_more name k e =
        omega (arith, adds.counts refl name, occurs-one name f.cameras d k, e, stamped)

    images :
        (name : ℕ)
        → has_stream name frames ≡ true
        → length (stream name frames) ≡ length (w.timestamps ++ f.timestamp ∷ [])
    images name e = elim (Bool-cases (has_stream name w.frames)) [
      | inl old ↦ one_more name (is_expected-has name f.cameras w.frames x old) (h.images name old)
      | inr new ↦
          let k : is_camera name f.cameras ≡ true = ground (arith, adds.has refl name) in
          elim (is_expected-camera name f.cameras w.frames x k) [
            | inl empty ↦ one_more name k (
                omega (
                  arith,
                  h.started empty,
                  ap (λ (y : List Image). length y) (stream-absent name w.frames new),
                ))
            | inr old ↦ absurd (ground arith)
          ]
    ]

pub add_frame-IsSynchronized :
    (f : Frame) (w : Writer) (c : ℕ)
    → IsSynchronized w
    → Distinct f.cameras
    → is_camera c f.cameras ≡ true
    → (add_frame f w).1 ≡ false
    → IsSynchronized (add_frame f w).0
      × ((add_frame f w).0.timestamps ≡ w.timestamps ++ f.timestamp ∷ [])
unfolding add_frame
add_frame-IsSynchronized f w c h d k = elim (Bool-cases (is_late f.timestamp w.timestamps)) [
  | inl late ↦ rw late (λ e. absurd (ground arith))
  | inr late ↦ rw late (
      checked (canonical_array f.state) refl (canonical_array f.action) refl
        (is_expected f.cameras w.frames) refl)
]
  where
    Added : Option (List ℤ) → Option (List ℤ) → Option (Streams × Bool) → Type 0
    Added state action images =
        let r = add_checked f w state action images in
        r.1 ≡ false → IsSynchronized r.0 × (r.0.timestamps ≡ w.timestamps ++ f.timestamp ∷ [])

    with_images :
        (state action : List ℤ)
        → length state ≡ 16
        → length action ≡ 16
        → is_expected f.cameras w.frames ≡ true
        → (images : Streams × Bool) → Adds f.cameras w.frames images
        → Added (some state) (some action) (some images)
    with_images state action ls la x (frames, true) adds e = absurd (ground arith)
    with_images state action ls la x (frames, false) adds e =
        (added-IsSynchronized f w state action c frames h d k ls la x adds, refl)

    checked :
        (state : Option (List ℤ))
        → canonical_array f.state ≡ state
        → (action : Option (List ℤ)) → canonical_array f.action ≡ action
        → (b : Bool) → is_expected f.cameras w.frames ≡ b
        → Added
            (canonical_array f.state)
            (canonical_array f.action)
            (checked_images f.cameras w.frames)
    checked state s action a false x = rw x (λ e. absurd (ground arith))
    checked none s action a true x = rw (x, s) (λ e. absurd (ground arith))
    checked (some state) s none a true x = rw (x, s, a) (λ e. absurd (ground arith))
    checked (some state) s (some action) a true x =
        rw (x, s, a)
          (with_images state action (length-canonical_array f.state state s)
            (length-canonical_array f.action action a) x (add_images f.cameras w.frames)
            (add_images-Adds f.cameras w.frames))
