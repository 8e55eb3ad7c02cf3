-- ===== src/Motors/Mapping/Laws.antt =====
-- motors/nexarm.py: the two mappings between the arms keep the ranges and are nearly inverse.
use lerobot_nexarm.Prelude.{
  ℕ, ◌+◌, ◌-◌, ◌*◌, max, ◌≤◌, ◌≡◌, refl, List, [], ◌∷◌, map, arith, length, All, get_or, false,
  ◌==◌,
}
use lerobot_nexarm.Prelude.Int.{ℤ, pos}
use lerobot_nexarm.Prelude.Int.{◌+ℤ◌, ◌-ℤ◌, clamp}
use lerobot_nexarm.Motors.Positions.{clamp_position}
use lerobot_nexarm.Motors.Positions.Laws.{clamp_position-le, clamp_position-pos}
use lerobot_nexarm.Motors.Mapping.{
  mirrored, gripper_to_follower, gripper_to_leader, round_quarters, to_follower, to_follower_from,
  map_leader_to_follower, to_leader, map_follower_to_leader,
}

gripper_to_follower-bounds :
    (p : ℕ) → let q = clamp_position (gripper_to_follower p) in (1195 ≤ q) × (q ≤ 2833)
unfolding gripper_to_follower clamp clamp_position
gripper_to_follower-bounds p = ground arith

mirrored-twice :
    (n : ℕ) → 1 ≤ n → n ≤ 4095 → clamp_position (mirrored (clamp_position (mirrored n))) ≡ n
unfolding mirrored ◌-ℤ◌ clamp_position
mirrored-twice n h k = ground arith

gripper_to_follower-near :
    (n p : ℕ)
    → 1195 ≤ n
    → n ≤ 2833
    → p ≡ gripper_to_leader n
    → (p ≤ 2048) × (1638 ≤ p) × (n ≤ 4 * p + 2833 + 2 - 8192) × (4 * p + 2833 ≤ n + 8192 + 2)
unfolding gripper_to_leader round_quarters clamp
gripper_to_follower-near n p h k e = ground arith

gripper_to_follower-between :
    (p : ℕ) → 1638 ≤ p → p ≤ 2048 → gripper_to_follower p ≡ pos (max 1195 (4 * p + 2833 - 8192))
unfolding gripper_to_follower clamp ◌+ℤ◌ ◌-ℤ◌
gripper_to_follower-between p h k = ground arith

-- A joint other than the shoulder lift and the gripper is passed on.
pub plain_joint :
    (idx n : ℕ)
    → (idx == 1) ≡ false
    → (idx == 5) ≡ false
    → n ≤ 4095
    → to_follower idx (pos (to_leader idx (pos n))) ≡ n
unfolding to_follower to_leader
plain_joint idx n h1 h5 h = ground (arith, clamp_position-pos n h)

pub shoulder_joint : (n : ℕ) → 1 ≤ n → n ≤ 4095 → to_follower 1 (pos (to_leader 1 (pos n))) ≡ n
unfolding to_follower to_leader
shoulder_joint n h k =
    let m = clamp_position (mirrored n) in
    rw (clamp_position-pos n k, clamp_position-pos m (clamp_position-le (mirrored n)))
      (mirrored-twice n h k)

gripper_joint :
    (n : ℕ)
    → 1195 ≤ n
    → n ≤ 2833
    → let m = to_follower 5 (pos (to_leader 5 (pos n))) in (n ≤ m + 2) × (m ≤ n + 2)
unfolding to_follower to_leader
gripper_joint n h k =
    let p = gripper_to_leader n in
    let near = gripper_to_follower-near n p h k refl in
    rw
      (
        clamp_position-pos n (omega arith),
        clamp_position-pos p (omega arith),
        clamp_position-pos p (omega arith),
        gripper_to_follower-between p near.1 near.0,
        clamp_position-pos (max 1195 (4 * p + 2833 - 8192)) (omega arith),
      )
      (omega arith, omega arith)

-- A follower pose of positions up to 4095, with the shoulder lift at 1 or more and the gripper from
-- 1195 to 2833, is the same in five joints and within 2 ticks in the gripper when it is sent to
-- the leader and back.
pub follower_round_trip :
    (a b c d e g : ℕ)
    → (a ≤ 4095) × (1 ≤ b) × (b ≤ 4095) × (c ≤ 4095) × (d ≤ 4095) × (e ≤ 4095)
    → 1195 ≤ g
    → g ≤ 2833
    → let leader = map_follower_to_leader (map pos (a ∷ b ∷ c ∷ d ∷ e ∷ g ∷ [])) in
      (h : ℕ) × (map_leader_to_follower (map pos leader) ≡ a ∷ b ∷ c ∷ d ∷ e ∷ h ∷ [])
      × (g ≤ h + 2)
      × (h ≤ g + 2)
unfolding map_leader_to_follower map_follower_to_leader
follower_round_trip a b c d e g (ha, hb, hb', hc, hd, he) hg hg' = (
  to_follower 5 (pos (to_leader 5 (pos g))),
  cc (
    plain_joint 0 a refl refl ha,
    shoulder_joint b hb hb',
    plain_joint 2 c refl refl hc,
    plain_joint 3 d refl refl hd,
    plain_joint 4 e refl refl he,
  ),
  (gripper_joint g hg hg').0,
  (gripper_joint g hg hg').1,
)

to_follower_from-le : (idx : ℕ) (ps : List ℤ) → All (λ p. p ≤ 4095) (to_follower_from idx ps)
unfolding to_follower_from to_follower
to_follower_from-le idx [] = tt
to_follower_from-le idx (p ∷ ps) = (clamp_position-le _, to_follower_from-le (idx + 1) ps)

-- Whatever the leader reads, the follower is sent positions from 0 to 4095, and the gripper one
-- from 1195 to 2833.
pub map_leader_to_follower-bounds :
    (a b c d e g : ℤ)
    → let out = map_leader_to_follower (a ∷ b ∷ c ∷ d ∷ e ∷ g ∷ []) in
      (length out ≡ 6) × All (λ p. p ≤ 4095) out × (1195 ≤ get_or out 5 0) × (get_or out 5 0 ≤ 2833)
unfolding map_leader_to_follower to_follower
map_leader_to_follower-bounds a b c d e g =
    let within = gripper_to_follower-bounds (clamp_position g) in
    (refl, to_follower_from-le 0 (a ∷ b ∷ c ∷ d ∷ e ∷ g ∷ []), within.0, within.1)
