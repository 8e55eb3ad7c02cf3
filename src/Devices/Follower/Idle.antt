-- ===== src/Devices/Follower/Idle.antt =====
-- nexarm_follower.py: the protection of an idle arm.
use lerobot_nexarm.Prelude.{ℕ, ◌-◌, ◌≡◌, Bool, false, not, ◌&&◌, ◌||◌, List, [], ◌∷◌, ltb, arith}
use lerobot_nexarm.Devices.Follower.{Attempt, returned, Follower, get_observation, wake}

-- An observation or an action, with its time and what becomes of a change of the torque.
pub data Op : Type 0 where
  observes : ℕ → Attempt → List ℕ → Op
  acts : ℕ → Attempt → Op

abbrev pub run : ℕ → List Op → Follower → Follower
run timeout [] s = s
run timeout (observes now a raw ∷ ops) s = run timeout ops (get_observation timeout now a raw s)
run timeout (acts now a ∷ ops) s = run timeout ops (wake now a s)

-- Whether the arm is idle after some operations: an observation came more than the timeout after
-- the last action; from the time of the last action and from whether it is idle before them.
abbrev pub is_idle : ℕ → ℕ → Bool → List Op → Bool
is_idle timeout last idle [] = idle
is_idle timeout last idle (observes now a raw ∷ ops) =
    is_idle timeout last (idle || (ltb 0 timeout && ltb timeout (now - last))) ops
is_idle timeout last idle (acts now a ∷ ops) = is_idle timeout now false ops

-- The calls of the bus that change the torque return.
abbrev pub AllReturn : List Op → Type 0
AllReturn [] = Unit
AllReturn (observes now a raw ∷ ops) = (a ≡ returned) × AllReturn ops
AllReturn (acts now a ∷ ops) = (a ≡ returned) × AllReturn ops

-- With a bus whose torque calls return, a configured arm holds its torque exactly while it is not
-- idle: it is let go by the first observation more than the timeout after the last action, never
-- without a timeout, and is held again from the next action on.
pub run-is_idle :
    (timeout : ℕ) (ops : List Op) (s : Follower)
    → AllReturn ops
    → s.bus.torque ≡ not s.is_idle_relaxed
    → (run timeout ops s).bus.torque
      ≡ not (is_idle timeout s.last_action_time s.is_idle_relaxed ops)
unfolding get_observation wake
run-is_idle timeout [] s h t = t
run-is_idle timeout (observes now a raw ∷ ops) s h t =
    let s' = get_observation timeout now a raw s in
    let step : (s'.bus.torque ≡ not s'.is_idle_relaxed)
        × (s'.last_action_time ≡ s.last_action_time)
        × (s'.is_idle_relaxed
            ≡ (s.is_idle_relaxed || (ltb 0 timeout && ltb timeout (now - s.last_action_time)))) =
      ground arith in
    ground (arith, run-is_idle timeout ops s' h.1 step.0)
run-is_idle timeout (acts now a ∷ ops) s h t =
    let s' = wake now a s in
    let step : (s'.bus.torque ≡ not s'.is_idle_relaxed)
        × (s'.last_action_time ≡ now)
        × (s'.is_idle_relaxed ≡ false) =
      ground arith in
    ground (arith, run-is_idle timeout ops s' h.1 step.0)
