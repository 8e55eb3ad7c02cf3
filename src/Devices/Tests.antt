-- ===== src/Devices/Tests.antt =====
-- nexarm_follower.py, nexarm_leader.py: the theorems at concrete inputs.
use lerobot_nexarm.Prelude.{
  ℕ, ◌≡◌, ◌⊎◌, refl, not, true, false, List, [], ◌∷◌, Option, none, some, get_or, arith,
}
use lerobot_nexarm.Prelude.Int.{ℤ, pos, negsuc, ◌-ℤ◌}
use lerobot_nexarm.Devices.Follower.{
  returned, raised_before, raised_after, Follower, Connecting, connect, Disconnecting, disconnect,
  shut_down,
}
use lerobot_nexarm.Devices.Follower.Connection.{disconnect_lem, connect-shut_down}
use lerobot_nexarm.Devices.Follower.Reads.{
  Read, observe_all, last_good, rev_onto, get_observation-last_good,
}
use lerobot_nexarm.Devices.Follower.Idle.{Op, observes, acts, run, is_idle, run-is_idle}
use lerobot_nexarm.Devices.Leader.{Calibration, get_action, send_feedback, uncalibrated}
use lerobot_nexarm.Devices.Leader.Laws.{IsReached, get_action-send_feedback}

abbrev new_follower : Follower
new_follower = record {
  bus = record { is_open = false; in_mode = false; torque = false };
  cameras = false ∷ false ∷ [];
  is_idle_relaxed = false;
  last_action_time = 0;
  prev_positions = none;
}

abbrev driven : Follower
driven = record new_follower {
  bus = record { is_open = true; in_mode = true; torque = true };
  cameras = true ∷ true ∷ [];
}

-- A camera and the torque call raise.
abbrev leaving : Disconnecting
leaving = record {
  cameras = raised_before ∷ returned ∷ [];
  holds = true;
  torque_off = raised_after;
  exit_mode = returned;
}

disconnect_lem_example :
    let r = disconnect leaving driven in
    (r.raised ≡ false)
    × (r.follower.bus.is_open ≡ false)
    × ((true ≡ false) ⊎ (raised_after ≡ raised_before) ⊎ (r.follower.bus.torque ≡ false))
    × ((returned ≡ raised_before) ⊎ (r.follower.bus.in_mode ≡ false))
disconnect_lem_example = disconnect_lem leaving driven refl

-- The second camera is not there.
abbrev second_camera_fails : Connecting
second_camera_fails = record {
  open_port = returned;
  enter_mode = returned;
  load_calibration = returned;
  cameras = returned ∷ raised_before ∷ [];
  motion_params = returned;
  torque_on = returned;
}

connect-shut_down_example :
    let r = connect second_camera_fails 5 new_follower in
    let down = shut_down leaving r.follower in
    (r.raised ≡ true)
    × (down.raised ≡ false)
    × (down.follower.bus.is_open ≡ true)
    × (down.follower.bus.in_mode ≡ true)
connect-shut_down_example =
    connect-shut_down second_camera_fails (returned ∷ []) [] (false ∷ []) [] leaving 5 new_follower
      refl refl refl refl refl refl

abbrev read : List ℕ → Read
read raw = record { now = 0; torque_off = returned; raw = raw }

abbrev later_reads : List Read
later_reads = read (0 ∷ 900 ∷ []) ∷ read (4093 ∷ 950 ∷ []) ∷ []

get_observation-last_good_example :
    (out : List ℕ) × ((observe_all 20
        (read (800 ∷ 4 ∷ []) ∷ later_reads)
        new_follower).prev_positions
      ≡ some out)
    × (get_or out 0 0 ≡ last_good 800 (rev_onto later_reads []) 0)
get_observation-last_good_example =
    get_observation-last_good 20 0 (read (800 ∷ 4 ∷ [])) later_reads new_follower refl
      (refl, (refl, tt))

abbrev some_ops : List Op
some_ops = acts 3 returned ∷ observes 30 returned [] ∷ observes 31 returned [] ∷ []

run-is_idle_example : (run 20 some_ops driven).bus.torque ≡ not (is_idle 20 0 false some_ops)
run-is_idle_example = run-is_idle 20 some_ops driven (refl, (refl, (refl, tt))) refl

abbrev shifted : Option Calibration
shifted = some (record { drive_mode = 0; homing_offset = pos 2050 })

abbrev turned : Option Calibration
turned = some (record { drive_mode = 1; homing_offset = pos 2040 })

shifted-IsReached : IsReached shifted 1000
unfolding uncalibrated ◌-ℤ◌
shifted-IsReached = (omega arith, (998, refl, omega arith, omega arith))

turned-IsReached : IsReached turned 1000
unfolding uncalibrated ◌-ℤ◌
turned-IsReached = (omega arith, (3088, refl, omega arith, omega arith))

plain-IsReached : IsReached none 7
unfolding uncalibrated ◌-ℤ◌
plain-IsReached = (omega arith, (7, refl, omega arith, omega arith))

get_action-send_feedback_example :
    let calibration = shifted ∷ turned ∷ none ∷ none ∷ shifted ∷ none ∷ [] in
    let pose = pos 1000 ∷ pos 1000 ∷ pos 7 ∷ pos 7 ∷ pos 1000 ∷ negsuc 3 ∷ [] in
    (h : ℤ) × (get_action calibration (send_feedback calibration pose)
      ≡ pos 1000 ∷ pos 1000 ∷ pos 7 ∷ pos 7 ∷ pos 1000 ∷ h ∷ [])
get_action-send_feedback_example =
    get_action-send_feedback 1000 1000 7 7 1000 shifted turned none none shifted none (negsuc 3)
      shifted-IsReached turned-IsReached plain-IsReached plain-IsReached shifted-IsReached
