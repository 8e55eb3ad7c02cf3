-- ===== src/Devices/Leader.antt =====
-- packages/lerobot_teleoperator_nexarm/src/lerobot_teleoperator_nexarm/nexarm_leader.py: the actions and
-- the feedback of the leader arm, on whole positions. A calibration is given for each joint, or is
-- none; `map_leader_to_follower` and its reverse are in Motors.Mapping.
pub mod Laws
use lerobot_nexarm.Prelude.{
  ℕ, suc, ◌+◌, Bool, true, false, List, [], ◌∷◌, map, Option, none, some, ◌==◌, if◌then◌else◌,
}
use lerobot_nexarm.Prelude.Int.{ℤ, pos, ◌+ℤ◌, ◌-ℤ◌, clamp}
use lerobot_nexarm.Motors.Positions.{position_max}
use lerobot_nexarm.Motors.Mapping.{position_center, map_leader_to_follower, map_follower_to_leader}

-- `MotorCalibration`, as far as it is used.
pub record Calibration : Type 0 where
  pub drive_mode : ℕ
  pub homing_offset : ℤ

abbrev pub offset : Calibration → ℤ
offset cal = cal.homing_offset -ℤ pos position_center

-- The loop of `get_action` at one joint.
pub calibrated : Option Calibration → ℕ → ℤ
calibrated none p = pos p
calibrated (some cal) p =
    let turned = if cal.drive_mode == 1 then pos 4096 -ℤ pos p else pos p in
    clamp (pos 0) (pos position_max) (turned +ℤ offset cal)

abbrev pub calibrated_all : List (Option Calibration) → List ℕ → List ℤ
unfolding calibrated
calibrated_all (c ∷ cs) (p ∷ ps) = calibrated c p ∷ calibrated_all cs ps
calibrated_all _ _ = []

pub get_action : List (Option Calibration) → List ℕ → List ℤ
unfolding calibrated_all
get_action calibration leader_pos =
    calibrated_all calibration (map_leader_to_follower (map pos leader_pos))

-- The loop of `send_feedback` at one joint.
unfoldable pub uncalibrated : Option Calibration → ℤ → ℤ
uncalibrated none v = v
uncalibrated (some cal) v =
    let shifted = v -ℤ offset cal in if cal.drive_mode == 1 then pos 4096 -ℤ shifted else shifted

abbrev pub uncalibrated_all : List (Option Calibration) → List ℤ → List ℤ
unfolding uncalibrated
uncalibrated_all (c ∷ cs) (v ∷ vs) = uncalibrated c v ∷ uncalibrated_all cs vs
uncalibrated_all _ _ = []

-- `send_feedback`: the positions that are written.
pub send_feedback : List (Option Calibration) → List ℤ → List ℕ
unfolding uncalibrated_all
send_feedback calibration feedback = map_follower_to_leader (uncalibrated_all calibration feedback)
