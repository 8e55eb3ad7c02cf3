-- ===== src/Safety/Tests.antt =====
-- safety.py: the theorems at concrete inputs.
use lerobot_nexarm.Prelude.{
  ℕ, zero, suc, ◌+◌, ◌≤◌, ◌<◌, ◌≡◌, refl, true, false, [], ◌∷◌, Option, none, some, arith,
}
use lerobot_nexarm.Prelude.Int.{pos, negsuc}
use lerobot_nexarm.Safety.{
  is_uncorrupted, all_uncorrupted, is_valid_read, all_within, Pose, positions_of,
}
use lerobot_nexarm.Safety.Limits.{Action, lookup, clamp_action}
use lerobot_nexarm.Safety.Limits.Laws.{clamp_action-total}
use lerobot_nexarm.Safety.Rest.{capture_rest}
use lerobot_nexarm.Safety.Rest.Laws.{IsRestPose, capture_rest-IsRestPose}
use lerobot_nexarm.Safety.Rest.Settles.{capture_rest-settles}
use lerobot_nexarm.Safety.Ramp.{Params, ramp_to}
use lerobot_nexarm.Safety.Ramp.Laws.{IsSafeRamp, ramp_to-IsSafeRamp, Arrives}
use lerobot_nexarm.Safety.Ramp.Arrives.{ramp_to-Arrives}

abbrev asked : Action
asked =
    ("shoulder_pan.pos", pos 2048)
    ∷ ("shoulder_lift.pos", pos 9000)
    ∷ ("elbow_flex.pos", negsuc 5)
    ∷ ("wrist_flex.pos", pos 2000)
    ∷ ("wrist_roll.pos", pos 4095)
    ∷ ("gripper.pos", pos 1500)
    ∷ []

asked_clamped : (out : Action) × (clamp_action asked ≡ some out)
unfolding lookup
asked_clamped =
    clamp_action-total asked (λ e. cc, (λ e. cc, (λ e. cc, (λ e. cc, (λ e. cc, (λ e. cc, tt))))))

abbrev centre : Pose
centre = 2048 ∷ 2048 ∷ 2048 ∷ 2048 ∷ 2048 ∷ 2000 ∷ []

-- The first read times out and the arm then holds still.
abbrev still_reads : ℕ → Option Pose
still_reads zero = none
still_reads (suc i) = some centre

still_reads-some : (n : ℕ) → 1 ≤ n → n < 1 + 3 → still_reads n ≡ some centre
still_reads-some zero h k = absurd (omega arith)
still_reads-some (suc n) h k = refl

centre_valid : is_valid_read centre ≡ true
unfolding is_valid_read all_uncorrupted is_uncorrupted
centre_valid = refl

centre_still : all_within 4 centre centre ≡ true
unfolding all_within
centre_still = refl

still_captured : (rest : Pose) × (capture_rest 3 4 9 still_reads ≡ some rest)
still_captured =
    capture_rest-settles 3 4 1 still_reads (λ n. centre) (omega arith) still_reads-some
      (λ n h k. centre_valid) (λ n h k. centre_still) 9 (omega arith)

capture_rest-settles_example : (rest : Pose) × (capture_rest 3 4 9 still_reads ≡ some rest)
capture_rest-settles_example =
    capture_rest-settles 3 4 1 still_reads (λ n. centre) (omega arith) still_reads-some
      (λ n h k. centre_valid) (λ n h k. centre_still) 9 (omega arith)

capture_rest-IsRestPose_example : IsRestPose still_reads 3 4 9 still_captured.0
capture_rest-IsRestPose_example =
    capture_rest-IsRestPose 3 4 9 still_reads {rest = still_captured.0} still_captured.1

abbrev to_centre : Params
to_centre = record {
  max_step = 30;
  tolerance = 15;
  give_up = 2;
  read = still_reads;
  clock = λ i. 0;
  target = centre;
}

ramp_to-IsSafeRamp_example : IsSafeRamp to_centre (ramp_to to_centre 400)
ramp_to-IsSafeRamp_example = ramp_to-IsSafeRamp to_centre 400

first_corrupt : (n : ℕ) → n < 1 → is_valid_read (positions_of (still_reads n)) ≡ false
unfolding is_valid_read
first_corrupt zero h = refl
first_corrupt (suc n) h = absurd (omega arith)

ramp_to-Arrives_example : Arrives centre (ramp_to to_centre 400)
ramp_to-Arrives_example =
    ramp_to-Arrives to_centre 136 1 centre refl
      (omega arith, (omega arith, (omega arith, (omega arith, (omega arith, (omega arith, tt))))))
      (omega arith) (λ i j. omega arith) refl centre_valid first_corrupt 400 (omega arith)
