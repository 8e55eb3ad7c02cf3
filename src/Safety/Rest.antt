-- ===== src/Safety/Rest.antt =====
-- safety.py: `capture_rest`. `read i` is what the i-th read returns, `none` a TimeoutError; the
-- window is kept latest first.
pub mod Laws
pub mod Settles
use lerobot_nexarm.Prelude.{
  ℕ, zero, suc, ◌+◌, ◌*◌, ◌/◌, ◌%◌, ◌&&◌, List, [], ◌∷◌, map, Option, none, some, length, get_or,
  sum, ltb, leb, ◌==◌, if◌then◌else◌,
}
use lerobot_nexarm.Safety.{is_valid_read, all_within, Pose, positions_of}

-- `round(total / count)`: to the nearest integer, and a half to the even one.
pub round_mean : ℕ → ℕ → ℕ
round_mean total count =
    let q = total / count in
    let r = total % count in
    if ltb (r + r) count then q else if r + r == count then q + q % 2 else q + 1

pub column : ℕ → List Pose → List ℕ
column i window = map (λ row. get_or row i 0) window

-- One rounded mean for each of the six joints.
pub column_means : List Pose → Pose
unfolding round_mean column
column_means window =
    map (λ i. round_mean (sum (column i window)) (length window)) (0 ∷ 1 ∷ 2 ∷ 3 ∷ 4 ∷ 5 ∷ [])

pub data Progress : Type 0 where
  captured : Pose → Progress
  window_is : List Pose → Progress

-- The pose that a new read is held against: the last one of the window, or itself.
abbrev pub last_or : Pose → List Pose → Pose
last_or positions [] = positions
last_or positions (w ∷ window) = w

-- The body of the loop.
pub take_read : ℕ → ℕ → List Pose → Pose → Progress
take_read samples tolerance window positions =
    if is_valid_read positions && all_within tolerance positions (last_or positions window)
    then if leb samples (length (positions ∷ window))
      then captured (column_means (positions ∷ window))
      else window_is (positions ∷ window)
    else window_is (if is_valid_read positions then positions ∷ [] else [])

-- The attempts left, the number of the next one and the window; `none` is the RuntimeError.
pub capture_from : ℕ → ℕ → ℕ → ℕ → (ℕ → Option Pose) → List Pose → Option Pose
capture_from samples tolerance zero attempt read window = none
capture_from samples tolerance (suc left) attempt read window =
    elim (take_read samples tolerance window (positions_of (read attempt))) [
      | captured rest ↦ some rest
      | window_is window' ↦ capture_from samples tolerance left (suc attempt) read window'
    ]

pub capture_rest : ℕ → ℕ → ℕ → (ℕ → Option Pose) → Option Pose
capture_rest samples tolerance attempts read = capture_from samples tolerance attempts 0 read []
