-- ===== src/Safety/Limits.antt =====
-- safety.py: the soft limits and `clamp_action`. An action maps keys such as "gripper.pos" to ticks.
pub mod Laws
use Prim.Native.String.{String}
use text.Mathlib.Text.{◌==◌ as str_eq}
use lerobot_nexarm.Prelude.{
  ℕ, ◌+◌, ◌-◌, ◌*◌, ◌/◌, ◌^◌, min, max, List, [], ◌∷◌, Option, none, some, if◌then◌else◌, ◌≡◌, refl,
}
use lerobot_nexarm.Prelude.Int.{ℤ, pos, clamp}
use lerobot_nexarm.Safety.{corrupt_margin, position_max}

abbrev pub Action : Type 0
Action = List (String × ℤ)

unfoldable pub lookup : String → Action → Option ℤ
lookup key [] = none
lookup key ((k, v) ∷ action) = if str_eq k key then some v else lookup key action

-- How far the centre is from the place of an angle in 10 ^ -5 rad, in whole ticks: the floor of
-- rad * 4096 / (2 * pi), with pi to 15 places.
abbrev pub ticks_of_angle : ℕ → ℕ
ticks_of_angle rad = rad * 2048 * 10 ^ 10 / 3141592653589793

pub record Limit : Type 0 where
  pub key : String
  pub low : ℕ
  pub high : ℕ

-- The ceiling of 2048 - x is 2048 less the floor of x; no limit reaches into the corrupt margin.
abbrev pub limit_of_angle : String → ℕ → Limit
limit_of_angle key rad = record {
  key = key;
  low = max (corrupt_margin + 1) (2048 - ticks_of_angle rad);
  high = min (position_max - corrupt_margin - 1) (2048 + ticks_of_angle rad);
}

abbrev pub soft_limits : List Limit
soft_limits =
    limit_of_angle "shoulder_pan.pos" 235619
    ∷ limit_of_angle "shoulder_lift.pos" 209440
    ∷ limit_of_angle "elbow_flex.pos" 235619
    ∷ limit_of_angle "wrist_flex.pos" 174533
    ∷ limit_of_angle "wrist_roll.pos" 314159
    ∷ record { key = "gripper.pos"; low = 1195; high = 2833 }
    ∷ []

-- One entry of the result, before those of the later joints.
abbrev pub clamp_entry : Limit → Option ℤ → Option Action → Option Action
clamp_entry l (some v) (some out) = some ((l.key, clamp (pos l.low) (pos l.high) v) ∷ out)
clamp_entry l (some v) none = none
clamp_entry l none rest = none

-- The loop of `clamp_action` over the joints; `none` is the KeyError of a missing joint.
pub clamp_joints : List Limit → Action → Option Action
clamp_joints [] action = some []
clamp_joints (l ∷ ls) action = clamp_entry l (lookup l.key action) (clamp_joints ls action)

pub clamp_action : Action → Option Action
unfolding clamp_joints
clamp_action action = clamp_joints soft_limits action

limits_run :
    soft_limits
    ≡ record { key = "shoulder_pan.pos"; low = 513; high = 3583 }
      ∷ record { key = "shoulder_lift.pos"; low = 683; high = 3413 }
      ∷ record { key = "elbow_flex.pos"; low = 513; high = 3583 }
      ∷ record { key = "wrist_flex.pos"; low = 911; high = 3185 }
      ∷ record { key = "wrist_roll.pos"; low = 6; high = 4089 }
      ∷ record { key = "gripper.pos"; low = 1195; high = 2833 }
      ∷ []
limits_run = refl
