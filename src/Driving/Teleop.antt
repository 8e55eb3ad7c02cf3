-- ===== src/Driving/Teleop.antt =====
-- teleop.py: `TeleopWorker._run`.
pub mod Laws
use lerobot_nexarm.Prelude.{ℕ, suc, List, [], ◌∷◌, Option, none, some, if◌then◌else◌}
use lerobot_nexarm.Safety.Limits.{Action, clamp_action}
use lerobot_nexarm.Driving.{Round, Ending, stopped, device_failed, key_error, Driven, ended, sends}

-- A round, and the leader's action in it: `none` where its read raises.
pub record Turn : Type 0 where
  pub round : Round
  pub asked : Option Action

abbrev pub drive_turn : Turn → ℕ → Driven → Driven
drive_turn t ticks rest = if t.round.is_stopped then ended stopped ticks else read t.asked
  where
    act : Option Action → Driven
    act none = ended key_error ticks
    act (some out) =
        if t.round.observe_fails
        then ended device_failed ticks
        else if t.round.send_fails
        then ended device_failed ticks
        else sends out (suc ticks) rest

    read : Option Action → Driven
    read none = ended device_failed ticks
    read (some action) = act (clamp_action action)

-- The loop over the turns until the stop event is set, which it is after the last of them.
unfoldable pub drive : ℕ → List Turn → Driven
drive ticks [] = ended stopped ticks
drive ticks (t ∷ turns) = drive_turn t ticks (drive (suc ticks) turns)
