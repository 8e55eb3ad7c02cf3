-- ===== src/Safety/Rest/Settles.antt =====
-- safety.py: `capture_rest` returns as soon as the arm holds still.
use native.Mathlib.Decide.{dec_lt}
use lerobot_nexarm.Prelude.{
  ℕ, zero, suc, ◌+◌, ◌≤◌, ◌<◌, ◌≡◌, ◌≢◌, true, List, [], ◌∷◌, Option, none, some, Option-cases,
  arith, length, inl, inr,
}
use lerobot_nexarm.Safety.{is_valid_read, all_within, Pose, positions_of}
use lerobot_nexarm.Safety.Rest.{
  Progress, captured, window_is, take_read, capture_from, capture_rest,
}

abbrev Captures : Option Pose → Type 0
Captures o = o ≢ none

-- The window is captured before it could be full.
abbrev IsShort : ℕ → Progress → Type 0
IsShort samples (captured rest) = Unit
IsShort samples (window_is ws) = length ws < samples

take_read-IsShort :
    (samples tolerance : ℕ) (ws : List Pose) (p : Pose)
    → 1 < samples
    → IsShort samples (take_read samples tolerance ws p)
unfolding take_read
take_read-IsShort samples tolerance ws p h = ground arith

-- After a valid read the window starts with it.
abbrev StartsWith : ℕ → Pose → Progress → Type 0
StartsWith samples p (captured rest) = Unit
StartsWith samples p (window_is []) = ⊥
StartsWith samples p (window_is (w ∷ ws)) = (w ≡ p) × (length (w ∷ ws) < samples)

take_read-StartsWith :
    (samples tolerance : ℕ) (ws : List Pose) (p : Pose)
    → 1 < samples
    → is_valid_read p ≡ true
    → StartsWith samples p (take_read samples tolerance ws p)
unfolding take_read
take_read-StartsWith samples tolerance ws p h v = ground arith

-- The rest of the loop, by what one read does.
abbrev resume : ℕ → ℕ → ℕ → ℕ → (ℕ → Option Pose) → Progress → Option Pose
resume samples tolerance left attempt read progress = elim progress [
  | captured rest ↦ some rest
  | window_is ws ↦ capture_from samples tolerance left (suc attempt) read ws
]

resume-Captures :
    (samples tolerance left attempt : ℕ) (read : ℕ → Option Pose) (progress : Progress)
    → IsShort samples progress
    → ((ws : List Pose)
        → length ws < samples
        → Captures (capture_from samples tolerance left (suc attempt) read ws))
    → Captures (resume samples tolerance left attempt read progress)
resume-Captures samples tolerance left attempt read (captured rest) h later = λ e. cc
resume-Captures samples tolerance left attempt read (window_is ws) h later = later ws h

resume-Captures_from :
    (samples tolerance left attempt : ℕ) (read : ℕ → Option Pose) (p : Pose) (progress : Progress)
    → StartsWith samples p progress
    → ((ws : List Pose)
        → length (p ∷ ws) < samples
        → Captures (capture_from samples tolerance left (suc attempt) read (p ∷ ws)))
    → Captures (resume samples tolerance left attempt read progress)
resume-Captures_from samples tolerance left attempt read p (captured rest) h later = λ e. cc
resume-Captures_from samples tolerance left attempt read p (window_is []) h later = absurd h
resume-Captures_from samples tolerance left attempt read p (window_is (w ∷ ws)) h later =
    rw (h.0) (later ws h.1)

module _ (samples tolerance start : ℕ) (read : ℕ → Option Pose) (pose : ℕ → Pose)
    (many : 1 < samples)
    (reads : (n : ℕ) → start ≤ n → n < start + samples → read n ≡ some (pose n))
    (valid : (n : ℕ) → start ≤ n → n < start + samples → is_valid_read (pose n) ≡ true)
    (still : (n : ℕ)
      → start ≤ n
      → suc n < start + samples
      → all_within tolerance (pose (suc n)) (pose n) ≡ true) where
  within_run :
      (left n : ℕ) (ws : List Pose)
      → start ≤ n
      → n < start + samples
      → start + samples ≤ suc n + left
      → suc n ≤ start + length (pose n ∷ ws)
      → length (pose n ∷ ws) < samples
      → Captures (capture_from samples tolerance left (suc n) read (pose n ∷ ws))
  unfolding capture_from take_read
  within_run zero n ws a b c d e = absurd (omega arith)
  within_run (suc left) n ws a b c d e =
      let later = within_run left (suc n) (pose n ∷ ws) in
      ground (
        arith,
        reads (suc n) (omega arith) (omega arith),
        valid (suc n) (omega arith) (omega arith),
        still n a (omega arith),
        later,
      )

  -- From any window before the run, up to its first read.
  before_run :
      (left attempt : ℕ) (ws : List Pose)
      → attempt ≤ start
      → start + samples ≤ attempt + left
      → length ws < samples
      → Captures (capture_from samples tolerance left attempt read ws)
  unfolding capture_from
  before_run zero attempt ws a b c = absurd (omega arith)
  before_run (suc left) attempt ws a b c = elim (dec_lt attempt start) [
    | yes early ↦
        resume-Captures samples tolerance left attempt read
          (take_read samples tolerance ws (positions_of (read attempt)))
          (take_read-IsShort samples tolerance ws (positions_of (read attempt)) many)
          (λ ws' short. before_run left (suc attempt) ws' (omega arith) (omega arith) short)
    | no now ↦
        let same : attempt ≡ start = omega arith in
        let first : read attempt ≡ some (pose attempt) =
          reads attempt (omega arith) (omega arith) in
        rw (first, capture_from)
          (resume-Captures_from samples tolerance left attempt read (pose attempt)
            (take_read samples tolerance ws (pose attempt))
            (take_read-StartsWith samples tolerance ws (pose attempt) many
              (valid attempt (omega arith) (omega arith)))
            (λ ws' short.
              within_run left attempt ws' (omega arith) (omega arith) (omega arith) (omega arith)
                short))
  ]

  -- If the reads from `start` on are valid and steady for `samples` reads, at least 2, that lie within the
  -- attempts, a rest pose is returned, whatever the other reads are.
  pub capture_rest-settles :
      (attempts : ℕ)
      → start + samples ≤ attempts
      → (rest : Pose) × (capture_rest samples tolerance attempts read ≡ some rest)
  unfolding capture_rest
  capture_rest-settles attempts h =
      elim (Option-cases (capture_from samples tolerance attempts 0 read [])) [
        | inl e ↦ absurd (before_run attempts 0 [] (omega arith) (omega arith) (omega arith) e)
        | inr found ↦ found
      ]
