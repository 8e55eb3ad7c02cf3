-- ===== src/Artifact/Arrays.antt =====
-- mobile_nexarm_artifact.py: `_canonical_array`, and the names of contract.py.
use Prim.Native.String.{String}
use text.Mathlib.Text.{◌==◌ as str_eq}
use lerobot_nexarm.Prelude.{
  Bool, true, false, List, [], ◌∷◌, Option, none, some, length, ◌==◌, if◌then◌else◌,
}
use lerobot_nexarm.Prelude.Int.{ℤ}

-- `contract.py`'s STATE_ACTION_NAMES.
abbrev pub state_action_names : List String
state_action_names =
    "left_shoulder_pan.pos" ∷ "left_shoulder_lift.pos" ∷ "left_elbow_flex.pos"
    ∷ "left_wrist_flex.pos" ∷ "left_wrist_roll.pos" ∷ "left_gripper.pos" ∷ "right_shoulder_pan.pos"
    ∷ "right_shoulder_lift.pos" ∷ "right_elbow_flex.pos" ∷ "right_wrist_flex.pos"
    ∷ "right_wrist_roll.pos" ∷ "right_gripper.pos" ∷ "x.vel" ∷ "y.vel" ∷ "theta.vel"
    ∷ "lift_axis.height_mm" ∷ []

pub data Value : Type 0 where
  finite : ℤ → Value
  non_finite : Value

pub data Values : Type 0 where
  mapping : List (String × Value) → Values
  sequence : List Value → Values

abbrev pub is_one_of : String → List String → Bool
is_one_of name [] = false
is_one_of name (n ∷ names) = if str_eq n name then true else is_one_of name names

abbrev pub all_among : List String → List String → Bool
all_among [] names = true
all_among (k ∷ ks) names =
    let rest = all_among ks names in if is_one_of k names then rest else false

abbrev pub keys_of : {A : Type 0} → List (String × A) → List String
keys_of [] = []
keys_of ((k, v) ∷ entries) = k ∷ keys_of entries

abbrev pub value_of : String → List (String × Value) → Value
value_of name [] = non_finite
value_of name ((k, v) ∷ entries) = if str_eq k name then v else value_of name entries

abbrev pub values_of : List String → List (String × Value) → List Value
values_of [] entries = []
values_of (n ∷ names) entries = value_of n entries ∷ values_of names entries

abbrev pub finite_before : Value → Option (List ℤ) → Option (List ℤ)
finite_before (finite v) (some vs) = some (v ∷ vs)
finite_before _ _ = none

unfoldable pub all_finite : List Value → Option (List ℤ)
all_finite [] = some []
all_finite (v ∷ vs) = finite_before v (all_finite vs)

abbrev pub of_shape : List Value → Option (List ℤ)
of_shape vs =
    let found = all_finite vs in if length vs == length state_action_names then found else none

-- `_canonical_array`; `none` is the ValueError.
unfoldable pub canonical_array : Values → Option (List ℤ)
canonical_array (mapping entries) =
    let vs = of_shape (values_of state_action_names entries) in
    if all_among state_action_names (keys_of entries)
    then if all_among (keys_of entries) state_action_names then vs else none
    else none
canonical_array (sequence vs) = of_shape vs
