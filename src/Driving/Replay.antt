-- ===== src/Driving/Replay.antt =====
-- replay.py: `ReplayWorker._prepare`, `_ready` and `_run`. The names and rows are what
-- `DatasetStore.joints` returns; a value is a whole tick.
pub mod Laws
use Prim.Native.String.{String}
use text.Mathlib.Text.{◌==◌ as str_eq}
use lerobot_nexarm.Prelude.{
  ℕ, zero, suc, Bool, true, false, List, [], ◌∷◌, map, Option, none, some, if◌then◌else◌,
}
use lerobot_nexarm.Prelude.Int.{ℤ}
use lerobot_nexarm.Safety.Limits.{Action, Limit, lookup, soft_limits, clamp_action}
use lerobot_nexarm.Driving.{
  Round, Ending, played, stopped, device_failed, key_error, Driven, ended, sends,
}

-- The keys of a dict with the number of the column of each.
abbrev pub Index : Type 0
Index = List (String × ℕ)

-- A key that is there keeps its place and takes the new number.
unfoldable pub put : String → ℕ → Index → Index
put key i [] = (key, i) ∷ []
put key i ((k, j) ∷ index) = if str_eq k key then (k, i) ∷ index else (k, j) ∷ put key i index

-- `{name: i for i, name in enumerate(names)}`, from a number and the entries before it.
unfoldable pub index_names : ℕ → List String → Index → Index
index_names i [] index = index
index_names i (name ∷ names) index = index_names (suc i) names (put name i index)

unfoldable pub has_key : String → Index → Bool
has_key key [] = false
has_key key ((k, i) ∷ index) = if str_eq k key then true else has_key key index

-- The keys of the joints, in their order.
abbrev pub joint_keys : List Limit → List String
joint_keys ls = map (λ (l : Limit). l.key) ls

unfoldable pub missing_keys : List String → Index → List String
missing_keys [] index = []
missing_keys (key ∷ keys) index =
    let rest = missing_keys keys index in if has_key key index then rest else key ∷ rest

-- `row[i]`.
unfoldable pub cell : ℕ → List ℤ → Option ℤ
cell i [] = none
cell zero (v ∷ row) = some v
cell (suc i) (v ∷ row) = cell i row

abbrev pub action_entry : String → Option ℤ → Option Action → Option Action
action_entry key (some v) (some rest) = some ((key, v) ∷ rest)
action_entry key _ _ = none

-- `{k: row[i] for k, i in index.items()}`; `none` is the IndexError.
unfoldable pub action_of : Index → List ℤ → Option Action
action_of [] row = some []
action_of ((key, i) ∷ index) row = action_entry key (cell i row) (action_of index row)

abbrev pub action_before : Option Action → Option (List Action) → Option (List Action)
action_before (some action) (some rest) = some (action ∷ rest)
action_before _ _ = none

unfoldable pub actions_of : Index → List (List ℤ) → Option (List Action)
actions_of index [] = some []
actions_of index (row ∷ rows) = action_before (action_of index row) (actions_of index rows)

-- The worker's actions, or why it does not start.
pub data Prepared : Type 0 where
  prepared : List Action → Prepared
  lacks_joints : List String → Prepared
  short_row no_frames : Prepared

abbrev pub prepare_actions : Option (List Action) → Prepared
prepare_actions none = short_row
prepare_actions (some []) = no_frames
prepare_actions (some (action ∷ actions)) = prepared (action ∷ actions)

abbrev pub prepare_from : List String → Option (List Action) → Prepared
prepare_from [] actions = prepare_actions actions
prepare_from (key ∷ missing) actions = lacks_joints (key ∷ missing)

unfoldable pub prepare : List String → List (List ℤ) → Prepared
unfolding index_names missing_keys actions_of
prepare names rows =
    let index = index_names 0 names [] in
    prepare_from (missing_keys (joint_keys soft_limits) index) (actions_of index rows)

abbrev pub pose_entry : Option ℤ → Option (List ℤ) → Option (List ℤ)
pose_entry (some v) (some rest) = some (v ∷ rest)
pose_entry _ _ = none

-- `[first[f"{n}.pos"] for n in JOINT_NAMES]`.
unfoldable pub pose_of : List String → Action → Option (List ℤ)
pose_of [] action = some []
pose_of (key ∷ keys) action = pose_entry (lookup key action) (pose_of keys action)

abbrev pub clamped_pose : Option Action → Option (List ℤ)
clamped_pose none = none
clamped_pose (some out) = pose_of (joint_keys soft_limits) out

-- The pose that `_ready` has `ramp_to` go to; `none` is an IndexError or a KeyError.
pub ready : List Action → Option (List ℤ)
unfolding pose_of
ready [] = none
ready (action ∷ actions) = clamped_pose (clamp_action action)

abbrev pub play_round : Round → Option Action → ℕ → Driven → Driven
play_round r action ticks rest =
    if r.is_stopped
    then ended stopped ticks
    else if r.observe_fails
    then ended device_failed ticks
    else send action
  where
    send : Option Action → Driven
    send none = ended key_error ticks
    send (some out) = if r.send_fails then ended device_failed ticks else sends out (suc ticks) rest

-- `_run`, with the ticks so far; the round of a frame is the one with the number of its ticks.
unfoldable pub play : (ℕ → Round) → ℕ → List Action → Driven
play rounds ticks [] = ended played ticks
play rounds ticks (action ∷ actions) =
    play_round (rounds ticks) (clamp_action action) ticks (play rounds (suc ticks) actions)
