-- ===== src/Safety/Rest/Laws.antt =====
-- safety.py: what `capture_rest` returns, and when it returns.
use native.Mathlib.Decide.{dec_lt}
use native.Mathlib.Nat.{mul-le-mul_left, le-div_iff_mul-le, div-le_of_le-mul, mul_comm}
use lerobot_nexarm.Prelude.{
  ℕ, zero, suc, ◌+◌, ◌*◌, ◌/◌, ◌%◌, ◌≤◌, ◌<◌, ◌≡◌, refl, subst, true, false, List, [], ◌∷◌, Option,
  none, some, arith, length, get_or, sum, inl, inr, leb, leb→le, Bool-cases, All,
}
use lerobot_nexarm.Safety.{
  is_uncorrupted, all_uncorrupted, is_valid_read, all_within, Pose, positions_of,
}
use lerobot_nexarm.Safety.Rest.{
  round_mean, column, column_means, Progress, captured, window_is, last_or, take_read, capture_from,
  capture_rest,
}

quotient-lt : (hi total count : ℕ) → total ≤ count * hi → 0 < total % count → total / count < hi
quotient-lt hi total count a r = elim (dec_lt (total / count) hi) [
  | yes p ↦ p
  | no p ↦ absurd (omega (arith, mul-le-mul_left {m = hi} {n = total / count} count (omega arith)))
]

-- A rounded mean of values from `lo` to `hi` is from `lo` to `hi`.
round_mean-bounds :
    (lo hi total count : ℕ)
    → 0 < count
    → count * lo ≤ total
    → total ≤ count * hi
    → (lo ≤ round_mean total count) × (round_mean total count ≤ hi)
unfolding round_mean
round_mean-bounds lo hi total count h a b = ground (
  arith,
  (le-div_iff_mul-le {k = count} {x = lo} {y = total} h).1 (rw (mul_comm lo count) a),
  div-le_of_le-mul count b,
  quotient-lt hi total count b,
)

-- The window holds the reads before the `stop`-th, latest first: each valid, and each within the
-- tolerance of the one before it.
abbrev pub IsRun : (ℕ → Option Pose) → ℕ → ℕ → List Pose → Type 0
IsRun read tolerance stop [] = Unit
IsRun read tolerance zero (w ∷ ws) = ⊥
IsRun read tolerance (suc stop) (w ∷ ws) =
    (read stop ≡ some w)
    × (is_valid_read w ≡ true)
    × (all_within tolerance w (last_or w ws) ≡ true)
    × IsRun read tolerance stop ws

-- The mean of valid reads.
abbrev AllValid : List Pose → Type 0
AllValid ws = All (λ w. is_valid_read w ≡ true) ws

IsRun-AllValid :
    (read : ℕ → Option Pose) (tolerance stop : ℕ) (ws : List Pose)
    → IsRun read tolerance stop ws
    → AllValid ws
IsRun-AllValid read tolerance stop [] r = tt
IsRun-AllValid read tolerance zero (w ∷ ws) r = absurd r
IsRun-AllValid read tolerance (suc stop) (w ∷ ws) r =
    (r.1, IsRun-AllValid read tolerance stop ws r.3)

uncorrupted-get_or :
    (w : Pose) (i : ℕ)
    → all_uncorrupted w ≡ true
    → i < length w
    → (6 ≤ get_or w i 0) × (get_or w i 0 ≤ 4089)
unfolding all_uncorrupted
uncorrupted-get_or [] i v h = elim h [ ]
uncorrupted-get_or (p ∷ ps) zero v h = ground arith
uncorrupted-get_or (p ∷ ps) (suc i) v h = uncorrupted-get_or ps i (ground arith) (omega arith)

valid-get_or :
    (w : Pose) (i : ℕ) → is_valid_read w ≡ true → i < 6 → (6 ≤ get_or w i 0) × (get_or w i 0 ≤ 4089)
unfolding is_valid_read
valid-get_or w i v h = uncorrupted-get_or w i (ground (arith, v)) (ground (arith, v))

column-bounds :
    (i : ℕ) (ws : List Pose)
    → i < 6
    → AllValid ws
    → (length (column i ws) ≡ length ws)
      × (length ws * 6 ≤ sum (column i ws))
      × (sum (column i ws) ≤ length ws * 4089)
unfolding column sum
column-bounds i [] h v = (refl, omega arith, omega arith)
column-bounds i (w ∷ ws) h v =
    let rest = column-bounds i ws h v.1 in
    let first = valid-get_or w i v.0 h in (omega arith, omega arith, omega arith)

mean-uncorrupted :
    (i : ℕ) (ws : List Pose)
    → i < 6
    → 0 < length ws
    → AllValid ws
    → is_uncorrupted (round_mean (sum (column i ws)) (length ws)) ≡ true
unfolding is_uncorrupted
mean-uncorrupted i ws h n v =
    let (_, low, high) = column-bounds i ws h v in
    let mean = round_mean-bounds 6 4089 (sum (column i ws)) (length ws) n low high in
    ground (arith, mean)

column_means-valid :
    (ws : List Pose) → 0 < length ws → AllValid ws → is_valid_read (column_means ws) ≡ true
unfolding column_means is_valid_read
column_means-valid ws n v = rw (
  mean-uncorrupted 0 ws (omega arith) n v,
  mean-uncorrupted 1 ws (omega arith) n v,
  mean-uncorrupted 2 ws (omega arith) n v,
  mean-uncorrupted 3 ws (omega arith) n v,
  mean-uncorrupted 4 ws (omega arith) n v,
  mean-uncorrupted 5 ws (omega arith) n v,
)

all_within_refl : (tolerance : ℕ) (p : Pose) → all_within tolerance p p ≡ true
unfolding all_within
all_within_refl tolerance [] = refl
all_within_refl tolerance (x ∷ xs) = ground (arith, all_within_refl tolerance xs)

-- What one read does: the window grows by it, starts again with it, or is emptied.
abbrev Keeps : (ℕ → Option Pose) → ℕ → ℕ → ℕ → Progress → Type 0
Keeps read samples tolerance stop (captured rest) =
    (ws : List Pose) × IsRun read tolerance stop ws
    × (samples ≤ length ws)
    × (0 < length ws)
    × (rest ≡ column_means ws)
Keeps read samples tolerance stop (window_is ws) = IsRun read tolerance stop ws

not_valid_nil : is_valid_read [] ≡ false
unfolding is_valid_read
not_valid_nil = refl

take_read-Keeps :
    (read : ℕ → Option Pose) (samples tolerance stop : ℕ) (ws : List Pose)
    → IsRun read tolerance stop ws
    → (p : Option Pose) → read stop ≡ p
    → Keeps read samples tolerance (suc stop) (take_read samples tolerance ws (positions_of p))
unfolding take_read
take_read-Keeps read samples tolerance stop ws run none e = ground (arith, not_valid_nil)
take_read-Keeps read samples tolerance stop ws run (some p) e =
    elim (Bool-cases (is_valid_read p)) [
      | inr corrupt ↦ rw corrupt tt
      | inl valid ↦ elim (Bool-cases (all_within tolerance p (last_or p ws))) [
        | inr far ↦ rw (valid, far) (e, valid, all_within_refl tolerance p, tt)
        | inl near ↦ elim (Bool-cases (leb samples (length (p ∷ ws)))) [
          | inr few ↦ rw (valid, near, few) (e, valid, near, run)
          | inl enough ↦
              rw (valid, near, enough)
                (p ∷ ws, (e, valid, near, run), leb→le _ _ enough, omega arith, refl)
        ]
      ]
    ]

-- The rounded mean, joint by joint, of a run of at least `samples` reads within the attempts, that
-- would itself pass for a valid read.
abbrev pub IsRestPose : (ℕ → Option Pose) → ℕ → ℕ → ℕ → Pose → Type 0
IsRestPose read samples tolerance attempts rest =
    (stop : ℕ) × (ws : List Pose) × (stop ≤ attempts)
    × IsRun read tolerance stop ws
    × (samples ≤ length ws)
    × (rest ≡ column_means ws)
    × (is_valid_read rest ≡ true)

capture_from-IsRestPose :
    (samples tolerance left attempt : ℕ) (read : ℕ → Option Pose) (ws : List Pose)
    → IsRun read tolerance attempt ws
    → (rest : Pose) → capture_from samples tolerance left attempt read ws ≡ some rest
    → IsRestPose read samples tolerance (attempt + left) rest
unfolding capture_from
capture_from-IsRestPose samples tolerance zero attempt read ws run rest e = cc
capture_from-IsRestPose samples tolerance (suc left) attempt read ws run rest e =
    split (take_read samples tolerance ws (positions_of (read attempt)))
      (take_read-Keeps read samples tolerance attempt ws run (read attempt) refl) e
      (λ ws' run'. capture_from-IsRestPose samples tolerance left (suc attempt) read ws' run' rest)
  where
    split :
        (p : Progress)
        → Keeps read samples tolerance (suc attempt) p
        → (elim p [
          | captured found ↦ some found
          | window_is ws' ↦ capture_from samples tolerance left (suc attempt) read ws'
        ])
          ≡ some rest
        → ((ws' : List Pose)
            → IsRun read tolerance (suc attempt) ws'
            → capture_from samples tolerance left (suc attempt) read ws' ≡ some rest
            → IsRestPose read samples tolerance (suc attempt + left) rest)
        → IsRestPose read samples tolerance (attempt + suc left) rest
    split (captured found) (ws', run', enough, some_reads, mean) e' later =
        let same : rest ≡ column_means ws' = cc in
        (
          suc attempt,
          ws',
          omega arith,
          run',
          enough,
          same,
          rw same (
              column_means-valid ws' some_reads
                (IsRun-AllValid read tolerance (suc attempt) ws' run')),
        )
    split (window_is ws') run' e' later =
        subst (λ n. IsRestPose read samples tolerance n rest)
          (let same : suc attempt + left ≡ attempt + suc left = omega arith in same)
          (later ws' run' e')

-- A returned pose is the rounded mean, joint by joint, of a run of at least `samples` consecutive
-- valid reads, each within the tolerance of the one before it, made within the attempts; and it
-- would itself pass for a valid read.
pub capture_rest-IsRestPose :
    (samples tolerance attempts : ℕ) (read : ℕ → Option Pose) {rest : Pose}
    → capture_rest samples tolerance attempts read ≡ some rest
    → IsRestPose read samples tolerance attempts rest
unfolding capture_rest
capture_rest-IsRestPose samples tolerance attempts read {rest = rest} e =
    subst (λ n. IsRestPose read samples tolerance n rest)
      (let same : 0 + attempts ≡ attempts = omega arith in same)
      (capture_from-IsRestPose samples tolerance attempts 0 read [] tt rest e)
