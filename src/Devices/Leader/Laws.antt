-- ===== src/Devices/Leader/Laws.antt =====
-- nexarm_leader.py: a pose that the leader is driven to is the action that it then gives.
use lerobot_nexarm.Prelude.{ℕ, ◌≤◌, ◌≡◌, refl, [], ◌∷◌, Option, none, some, arith}
use lerobot_nexarm.Prelude.Int.{ℤ, pos, negsuc, ◌+ℤ◌, ◌-ℤ◌, clamp}
use lerobot_nexarm.Motors.Mapping.{
  to_leader, to_follower, map_leader_to_follower, map_follower_to_leader,
}
use lerobot_nexarm.Motors.Mapping.Laws.{plain_joint, shoulder_joint}
use lerobot_nexarm.Devices.Leader.{
  Calibration, offset, calibrated, get_action, uncalibrated, send_feedback,
}

-- A position that the calibration moves to another one within the range of the servo, but for 0.
abbrev pub IsReached : Option Calibration → ℕ → Type 0
IsReached c v = (v ≤ 4095) × ((n : ℕ) × (uncalibrated c (pos v) ≡ pos n) × (1 ≤ n) × (n ≤ 4095))

shift_back :
    (v n : ℕ) (o : ℤ)
    → v ≤ 4095
    → pos v -ℤ o ≡ pos n
    → clamp (pos 0) (pos 4095) (pos n +ℤ o) ≡ pos v
unfolding ◌+ℤ◌ ◌-ℤ◌ clamp
shift_back v n (pos o) h e = ground arith
shift_back v n (negsuc o) h e = ground arith

turn_back :
    (v n : ℕ) (o : ℤ)
    → v ≤ 4095
    → pos 4096 -ℤ (pos v -ℤ o) ≡ pos n
    → clamp (pos 0) (pos 4095) ((pos 4096 -ℤ pos n) +ℤ o) ≡ pos v
unfolding ◌+ℤ◌ ◌-ℤ◌ clamp
turn_back v n (pos o) h e = ground arith
turn_back v n (negsuc o) h e = ground arith

calibrated-uncalibrated :
    (c : Option Calibration) (v n : ℕ)
    → v ≤ 4095
    → uncalibrated c (pos v) ≡ pos n
    → calibrated c n ≡ pos v
unfolding calibrated uncalibrated
calibrated-uncalibrated none v n h e = ground arith
calibrated-uncalibrated (some cal) v n h e =
    ground (arith, shift_back v n (offset cal), turn_back v n (offset cal))

joint_round_trip :
    (c : Option Calibration) (v : ℕ) (idx : ℕ)
    → ((n : ℕ) → 1 ≤ n → n ≤ 4095 → to_follower idx (pos (to_leader idx (pos n))) ≡ n)
    → IsReached c v
    → calibrated c (to_follower idx (pos (to_leader idx (uncalibrated c (pos v))))) ≡ pos v
joint_round_trip c v idx same (h, (n, e, lo, hi)) =
    rw e (rw (same n lo hi) (calibrated-uncalibrated c v n h e))

-- The leader, driven to a pose and read there, gives the same action in the five joints before the
-- gripper, whatever its calibration turns and shifts, if the calibration moves none of them out of
-- the range of the servo or to 0.
pub get_action-send_feedback :
    (a b c d e : ℕ) (ca cb ck cd ce cg : Option Calibration) (g : ℤ)
    → IsReached ca a
    → IsReached cb b
    → IsReached ck c
    → IsReached cd d
    → IsReached ce e
    → let calibration = ca ∷ cb ∷ ck ∷ cd ∷ ce ∷ cg ∷ [] in
      let pose = pos a ∷ pos b ∷ pos c ∷ pos d ∷ pos e ∷ g ∷ [] in
      (h : ℤ) × (get_action calibration (send_feedback calibration pose)
        ≡ pos a ∷ pos b ∷ pos c ∷ pos d ∷ pos e ∷ h ∷ [])
unfolding get_action send_feedback map_leader_to_follower map_follower_to_leader
get_action-send_feedback a b c d e ca cb ck cd ce cg g ha hb hc hd he = (
  calibrated cg (to_follower 5 (pos (to_leader 5 (uncalibrated cg g)))),
  cc (
    joint_round_trip ca a 0 (λ n lo hi. plain_joint 0 n refl refl hi) ha,
    joint_round_trip cb b 1 shoulder_joint hb,
    joint_round_trip ck c 2 (λ n lo hi. plain_joint 2 n refl refl hi) hc,
    joint_round_trip cd d 3 (λ n lo hi. plain_joint 3 n refl refl hi) hd,
    joint_round_trip ce e 4 (λ n lo hi. plain_joint 4 n refl refl hi) he,
  ),
)
