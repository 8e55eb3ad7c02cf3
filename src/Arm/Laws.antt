-- ===== src/Arm/Laws.antt =====
-- arm_worker.py: whatever a call raises, the arm is given back.
use lerobot_nexarm.Prelude.{
  Bool, true, false, ◌||◌, List, [], ◌∷◌, none, some, ◌≡◌, ◌≢◌, ◌⊎◌, arith,
}
use lerobot_nexarm.Arm.{
  Call, torque_off, Faults, Guard, Worker, new_worker, release, disconnect, release_guard,
  shutdown_hardware, finalize_quietly, shut_down, stop, guard_arm, connect_arms, take_arm,
  end_start, start,
}

abbrev pub is_torque_off : Call → Bool
is_torque_off torque_off = true
is_torque_off _ = false

abbrev pub sends_torque_off : List Call → Bool
sends_torque_off [] = false
sends_torque_off (c ∷ cs) = is_torque_off c || sends_torque_off cs

-- The worker has given the arm back: torque off was sent if there was a guard, and no port is open
-- but that of a device whose disconnect raised or which did not count as connected.
pub record IsGivenBack (f : Faults) (w : Worker) (calls : List Call) : Type 0 where
  pub torque : (w.guard ≡ none) ⊎ (sends_torque_off calls ≡ true)
  pub follower :
      (f.disconnect_follower ≢ none) ⊎ (f.follower_counts ≡ false) ⊎ (w.follower ≢ some true)
  pub leader : (f.disconnect_leader ≢ none) ⊎ (f.leader_counts ≡ false) ⊎ (w.leader ≢ some true)

-- A start of a new worker whose preparation does not raise either returns, with a thread, the
-- follower's port open and a rest pose; or it raises and has no thread, torque off was sent if the
-- follower's guard was made, and no port is open but that of a device whose disconnect raised or
-- which did not count as connected, such as a follower with a failed camera.
pub start-IsGivenBack :
    (f : Faults) (needs_leader : Bool)
    → f.prepare ≡ none
    → let r = start f (new_worker needs_leader) in
      ((r.raised ≡ none)
        × ((r.worker.has_thread ≡ true)
            × ((r.worker.follower ≡ some true)
                × (r.worker.guard ≡ some (record { has_rest = true; error = none })))))
      ⊎ ((r.raised ≢ none) × ((r.worker.has_thread ≡ false) × IsGivenBack f r.worker r.calls))
unfolding start take_arm connect_arms guard_arm end_start shut_down shutdown_hardware
    finalize_quietly release_guard release disconnect
start-IsGivenBack f needs_leader prepared = ground arith

-- A stop of a worker with a guard sends torque off and leaves no port open but that of a device whose
-- disconnect raised or which did not count as connected, whichever other calls raise.
pub stop-IsGivenBack :
    (f : Faults) (w : Worker) (g : Guard)
    → w.guard ≡ some g
    → IsGivenBack f (stop f w).0 (stop f w).1
unfolding stop shut_down shutdown_hardware finalize_quietly release_guard release disconnect
stop-IsGivenBack f w g guarded = ground arith

-- A stop of a worker with a guard loses no error of the rest return, of torque off or of the
-- finalization: where the worker has no error after it, none of them raised, nor was there an
-- error before.
pub stop-Reports :
    (f : Faults) (w : Worker) (g : Guard)
    → w.guard ≡ some g
    → (stop f w).0.error ≡ none
    → ((w.error ≡ none) × (g.error ≡ none))
      × ((f.torque_off ≡ none)
          × ((f.finalize ≡ none) × ((g.has_rest ≡ false) ⊎ (f.ramp_home ≡ none))))
unfolding stop shut_down shutdown_hardware finalize_quietly release_guard release disconnect
stop-Reports f w g guarded silent = ground arith
