-- ===== src/Motors/Mapping.antt =====
-- motors/nexarm.py: `map_leader_to_follower` and `map_follower_to_leader`, on whole positions.
pub mod Laws
use lerobot_nexarm.Prelude.{
  ℕ, suc, ◌+◌, ◌-◌, ◌*◌, ◌/◌, ◌%◌, List, [], ◌∷◌, ltb, ◌==◌, if◌then◌else◌,
}
use lerobot_nexarm.Prelude.Int.{ℤ, pos, ◌+ℤ◌, ◌-ℤ◌, pos_part, clamp}
use lerobot_nexarm.Motors.Positions.{clamp_position}

abbrev pub gripper_open_pos : ℕ
gripper_open_pos = 1195

abbrev pub gripper_closed_pos : ℕ
gripper_closed_pos = 2833

abbrev pub position_center : ℕ
position_center = 2048

-- Four times an integer.
abbrev pub times_four : ℤ → ℤ
times_four a = a +ℤ a +ℤ (a +ℤ a)

pub mirrored : ℕ → ℤ
mirrored p = pos 4096 -ℤ pos p

pub gripper_to_follower : ℕ → ℤ
gripper_to_follower p =
    clamp (pos gripper_open_pos) (pos gripper_closed_pos)
      (pos gripper_closed_pos +ℤ times_four (pos p -ℤ pos position_center))

-- One position of the leader, by the number of its joint.
pub to_follower : ℕ → ℤ → ℕ
to_follower idx position =
    let p = clamp_position position in
    clamp_position
      (if idx == 1 then mirrored p else if idx == 5 then gripper_to_follower p else pos p)

pub to_follower_from : ℕ → List ℤ → List ℕ
to_follower_from idx [] = []
to_follower_from idx (p ∷ ps) = to_follower idx p ∷ to_follower_from (idx + 1) ps

unfoldable pub map_leader_to_follower : List ℤ → List ℕ
unfolding to_follower_from
map_leader_to_follower leader_pos = to_follower_from 0 leader_pos

-- `int(round(n / 4))`: to the nearest integer, and a half to the even one.
pub round_quarters : ℕ → ℕ
round_quarters n =
    if ltb (n % 4) 2 then n / 4 else if n % 4 == 2 then n / 4 + n / 4 % 2 else n / 4 + 1

-- The gripper's place is counted in quarters of a tick: 4 * 2048 + (p - 2833) is positive, since
-- p is at least 1195.
pub gripper_to_leader : ℕ → ℕ
gripper_to_leader p =
    let q = pos_part (clamp (pos gripper_open_pos) (pos gripper_closed_pos) (pos p)) in
    round_quarters (4 * position_center + q - gripper_closed_pos)

-- One position of the follower, by the number of its joint.
pub to_leader : ℕ → ℤ → ℕ
to_leader idx position =
    let p = clamp_position position in
    clamp_position
      (if idx == 1 then mirrored p else if idx == 5 then pos (gripper_to_leader p) else pos p)

pub to_leader_from : ℕ → List ℤ → List ℕ
to_leader_from idx [] = []
to_leader_from idx (p ∷ ps) = to_leader idx p ∷ to_leader_from (idx + 1) ps

unfoldable pub map_follower_to_leader : List ℤ → List ℕ
unfolding to_leader_from
map_follower_to_leader follower_pos = to_leader_from 0 follower_pos
