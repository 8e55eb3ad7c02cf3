-- ===== src/Driving.antt =====
-- packages/nexarm_service/src/nexarm_service/replay.py and teleop.py: the two loops that drive the
-- follower by actions, one from an episode of a dataset and one from the leader. What the hardware
-- does in a round is an argument.
pub mod Replay
pub mod Teleop
mod Tests
use lerobot_nexarm.Prelude.{ℕ, ◌%◌, Bool, List, [], ◌∷◌, ◌==◌, if◌then◌else◌}
use lerobot_nexarm.Safety.Limits.{Action}

-- `arm_worker.py`'s JOINT_PUBLISH_EVERY.
abbrev pub joint_publish_every : ℕ
joint_publish_every = 2

-- Whether the stop event is set when a round begins, and which calls of the follower raise in it.
pub record Round : Type 0 where
  pub is_stopped : Bool
  pub observe_fails : Bool
  pub send_fails : Bool

-- A loop returns, at its end or at a stop, raises what a device raised, or a KeyError of
-- `clamp_action`.
pub data Ending : Type 0 where
  played stopped device_failed key_error : Ending

-- The actions that the follower was sent and the counts of ticks at which joints were published,
-- in order.
pub record Driven : Type 0 where
  pub sent : List Action
  pub published : List ℕ
  pub ticks : ℕ
  pub ending : Ending

abbrev pub ended : Ending → ℕ → Driven
ended ending ticks = record { sent = []; published = []; ticks = ticks; ending = ending }

-- What a round sends and publishes, before the later rounds.
abbrev pub sends : Action → ℕ → Driven → Driven
sends action ticks rest = record rest {
  sent = action ∷ rest.sent;
  published = if ticks % joint_publish_every == 0 then ticks ∷ rest.published else rest.published;
}
