-- ===== src/Arm/Tests.antt =====
-- arm_worker.py: the theorems at concrete inputs.
use lerobot_nexarm.Prelude.{true, false, ◌≡◌, ◌≢◌, ◌⊎◌, refl, none, some}
use lerobot_nexarm.Arm.{Faults, new_worker, start}
use lerobot_nexarm.Arm.Laws.{IsGivenBack, start-IsGivenBack}

abbrev no_faults : Faults
no_faults = record {
  prepare = none;
  make_follower = none;
  make_leader = none;
  connect_follower = none;
  connect_leader = none;
  capture_rest = none;
  ready = none;
  ramp_home = none;
  torque_off = none;
  disconnect_follower = none;
  disconnect_leader = none;
  finalize = none;
  follower_stays = false;
  leader_stays = false;
  follower_counts = true;
  leader_counts = true;
}

-- No valid rest pose could be captured.
abbrev no_rest : Faults
no_rest = record no_faults { capture_rest = some "no valid reads" }

start-IsGivenBack_example :
    let r = start no_rest (new_worker true) in
    ((r.raised ≡ none)
      × ((r.worker.has_thread ≡ true)
          × ((r.worker.follower ≡ some true)
              × (r.worker.guard ≡ some (record { has_rest = true; error = none })))))
    ⊎ ((r.raised ≢ none) × ((r.worker.has_thread ≡ false) × IsGivenBack no_rest r.worker r.calls))
start-IsGivenBack_example = start-IsGivenBack no_rest true refl
