-- ===== src/Rollout/Tests.antt =====
-- Workers of a policy that start and stop on concrete faults.
use lerobot_nexarm.Prelude.{◌≡◌, ◌≢◌, ◌⊎◌, refl, true, false, [], ◌∷◌, none, some, if◌then◌else◌}
use lerobot_nexarm.Arm.{Guard}
use lerobot_nexarm.Arm
use lerobot_nexarm.Rollout.{coaching, join_thread, Faults, Worker, new_worker, stop}
use lerobot_nexarm.Rollout.Start.{start}
use lerobot_nexarm.Rollout.Laws.{
  rests_first, IsUnbuilt, IsReleased, start-IsReleased, stop-IsReleased,
}

abbrev arm_quiet : Arm.Faults
arm_quiet = record {
  prepare = none;
  make_follower = none;
  make_leader = none;
  connect_follower = none;
  connect_leader = none;
  capture_rest = none;
  ready = none;
  ramp_home = none;
  torque_off = none;
  disconnect_follower = none;
  disconnect_leader = none;
  finalize = none;
  follower_stays = false;
  leader_stays = false;
  follower_counts = true;
  leader_counts = true;
}

-- The strategy's setup raises once it has the leader's torque on, and its teardown leaves the arm.
abbrev failing_setup : Faults
failing_setup = record {
  check_robot_type = none;
  make_config = none;
  build_context = none;
  capture_rest = none;
  capture_leader_rest = none;
  create_strategy = none;
  setup = some "no policy";
  after_setup = none;
  ramp_leader = none;
  leader_torque_off = none;
  arm = arm_quiet;
  teardown = some "no dataset";
  disconnect_follower = none;
  disconnect_leader = none;
  has_leader = true;
  setup_torque = true;
  follower_stays = true;
  leader_stays = false;
  follower_counts = true;
  leader_counts = true;
  built_follower = none;
  built_leader = none;
}

abbrev running_guard : Guard
running_guard = record { has_rest = true; error = none }

abbrev running : Worker
running = record (new_worker coaching) {
  has_context = true;
  follower = some true;
  leader = some true;
  has_strategy = true;
  guard = some running_guard;
  leader_rest = true;
  leader_torque = true;
  has_monitor = true;
  has_thread = true;
}

start-IsReleased_example :
    let r = start failing_setup (new_worker coaching) in
    ((r.raised ≡ none)
      × (r.worker.has_thread ≡ true)
      × (r.worker.has_strategy ≡ true)
      × (r.worker.follower ≡ some true)
      × (r.worker.guard ≡ some running_guard))
    ⊎ ((r.raised ≢ none)
        × (r.worker.has_thread ≡ false)
        × (IsUnbuilt failing_setup r.worker
            ⊎ ((rests_first r.calls ≡ true) × IsReleased failing_setup r.worker r.calls)))
start-IsReleased_example = start-IsReleased failing_setup coaching

stop-IsReleased_example :
    let s = stop failing_setup running in
    (rests_first s.1 ≡ true)
    × IsReleased failing_setup s.0 s.1
    × ((stop failing_setup s.0).1 ≡ (if running.has_thread then join_thread ∷ [] else []))
stop-IsReleased_example =
    stop-IsReleased failing_setup failing_setup running running_guard refl refl

-- The follower is still connected, and nothing disconnects it.
failing_setup_run : (start failing_setup (new_worker coaching)).worker.follower ≡ some true
unfolding start
failing_setup_run = refl
