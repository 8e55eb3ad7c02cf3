-- ===== src/Driving/Tests.antt =====
-- Replays and teleoperation on concrete rounds.
use Prim.Native.String.{String}
use lerobot_nexarm.Prelude.{ℕ, ◌≡◌, ◌≢◌, refl, false, List, [], ◌∷◌, none}
use lerobot_nexarm.Prelude.Int.{ℤ, pos}
use lerobot_nexarm.Safety.Limits.{Action}
use lerobot_nexarm.Driving.{Round}
use lerobot_nexarm.Driving.Replay.{prepare, prepared, ready, play, has_key, put, action_of, cell}
use lerobot_nexarm.Driving.Replay.Laws.{Clamps, SendsFrom, play-prepare}

abbrev quiet : ℕ → Round
quiet i = record { is_stopped = false; observe_fails = false; send_fails = false }

-- One column is no joint's.
abbrev columns : List String
columns =
    "gripper.pos" ∷ "shoulder_pan.pos" ∷ "shoulder_lift.pos" ∷ "elbow_flex.pos" ∷ "wrist_flex.pos"
    ∷ "wrist_roll.pos" ∷ "speed" ∷ []

abbrev frames : List (List ℤ)
frames = (pos 9 ∷ pos 0 ∷ pos 2000 ∷ pos 2001 ∷ pos 2002 ∷ pos 4095 ∷ pos 1 ∷ []) ∷ []

abbrev frame_actions : List Action
frame_actions =
    (("gripper.pos", pos 9)
      ∷ ("shoulder_pan.pos", pos 0)
      ∷ ("shoulder_lift.pos", pos 2000)
      ∷ ("elbow_flex.pos", pos 2001)
      ∷ ("wrist_flex.pos", pos 2002)
      ∷ ("wrist_roll.pos", pos 4095)
      ∷ ("speed", pos 1)
      ∷ [])
    ∷ []

frames_prepare : prepare columns frames ≡ prepared frame_actions
unfolding prepare has_key put action_of cell
frames_prepare = refl

play-prepare_example :
    (ready frame_actions ≢ none)
    × ((outs : List Action) × Clamps frame_actions outs
        × SendsFrom 0 outs (play quiet 0 frame_actions))
play-prepare_example = play-prepare columns frames frame_actions quiet frames_prepare
