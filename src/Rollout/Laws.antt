-- ===== src/Rollout/Laws.antt =====
-- rollout.py, coaching.py: whatever a call raises, the arm is given back once.
use lerobot_nexarm.Prelude.{
  ◌≡◌, ◌≢◌, ◌⊎◌, Bool, true, false, ◌||◌, List, [], ◌∷◌, none, some, if◌then◌else◌, arith,
}
use lerobot_nexarm.Arm
use lerobot_nexarm.Arm.{Guard, release}
use lerobot_nexarm.Rollout.{
  Kind, Call, guard_call, teardown, disconnect_follower, disconnect_leader, join_thread, Faults,
  Worker, new_worker, free_leader, release_leader, before_release, release_guard, disconnect,
  tear_down, disconnect_devices, release_devices, release_all, stop,
}
use lerobot_nexarm.Rollout.Start.{finish_setup, set_up, after_context, take_arm, end_start, start}

-- Torque off is sent, and nothing is torn down or disconnected before it.
abbrev pub rests_first : List Call → Bool
rests_first [] = false
rests_first (guard_call Arm.torque_off ∷ cs) = true
rests_first (teardown ∷ cs) = false
rests_first (disconnect_follower ∷ cs) = false
rests_first (disconnect_leader ∷ cs) = false
rests_first (c ∷ cs) = rests_first cs

abbrev pub is_teardown : Call → Bool
is_teardown teardown = true
is_teardown _ = false

abbrev pub tears_down : List Call → Bool
tears_down [] = false
tears_down (c ∷ cs) = is_teardown c || tears_down cs

-- The worker has no context, strategy or guard left. A port is open only if a teardown was called and
-- left it open, or none was called and the device's disconnect raised or the device did not count as
-- connected.
pub record IsReleased (f : Faults) (w : Worker) (calls : List Call) : Type 0 where
  pub context : w.has_context ≡ false
  pub strategy : w.has_strategy ≡ false
  pub guard : w.guard ≡ none
  pub follower :
      (w.follower ≢ some true)
      ⊎ ((tears_down calls ≡ true) × (f.follower_stays ≡ true))
      ⊎ ((tears_down calls ≡ false)
          × ((f.disconnect_follower ≢ none) ⊎ (f.follower_counts ≡ false)))
  pub leader :
      (w.leader ≢ some true)
      ⊎ ((tears_down calls ≡ true) × (f.leader_stays ≡ true))
      ⊎ ((tears_down calls ≡ false) × ((f.disconnect_leader ≢ none) ⊎ (f.leader_counts ≡ false)))

-- A start that raises before the context is there has made no device, or those that the building
-- of the context made before it raised.
abbrev pub IsUnbuilt : Faults → Worker → Type 0
IsUnbuilt f w =
    (((f.check_robot_type ≢ none) ⊎ (f.make_config ≢ none))
      × (w.follower ≡ none)
      × (w.leader ≡ none))
    ⊎ ((f.build_context ≢ none) × (w.follower ≡ f.built_follower) × (w.leader ≡ f.built_leader))

-- A start of a new worker either returns, with a thread, a strategy, the follower's port open and
-- its rest pose; or it raises without a thread. Then it has raised before the context was there,
-- with the devices that the building of the context made; or it has sent torque off before it tore
-- down or disconnected anything, and has no context, strategy or guard, and a port is open only if a
-- teardown was called and left it open, or none was called and the device's disconnect raised or
-- the device did not count as connected.
pub start-IsReleased :
    (f : Faults) (kind : Kind)
    → let r = start f (new_worker kind) in
      ((r.raised ≡ none)
        × (r.worker.has_thread ≡ true)
        × (r.worker.has_strategy ≡ true)
        × (r.worker.follower ≡ some true)
        × (r.worker.guard ≡ some (record { has_rest = true; error = none })))
      ⊎ ((r.raised ≢ none)
          × (r.worker.has_thread ≡ false)
          × (IsUnbuilt f r.worker ⊎ ((rests_first r.calls ≡ true) × IsReleased f r.worker r.calls)))
unfolding start take_arm after_context set_up finish_setup end_start release_all before_release
    release_leader free_leader release_guard release release_devices tear_down disconnect_devices
    disconnect
start-IsReleased f kind = ground arith

-- A stop of a worker with a guard sends torque off before it tears down or disconnects anything. It
-- leaves no context, strategy or guard, and a port open only if a teardown was called and left it
-- open, or none was called and the device's disconnect raised or the device did not count as
-- connected; and whatever raises, another stop only joins the thread again.
pub stop-IsReleased :
    (f g : Faults) (w : Worker) (guard : Guard)
    → w.guard ≡ some guard
    → w.has_context ≡ true
    → let s = stop f w in
      (rests_first s.1 ≡ true)
      × IsReleased f s.0 s.1
      × ((stop g s.0).1 ≡ (if w.has_thread then join_thread ∷ [] else []))
unfolding stop release_all before_release release_leader free_leader release_guard release
    release_devices tear_down disconnect_devices disconnect
stop-IsReleased f g w guard h c = ground arith
