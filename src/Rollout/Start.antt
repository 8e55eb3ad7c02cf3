-- ===== src/Rollout/Start.antt =====
-- rollout.py: `RolloutWorker.start`, and the hooks of coaching.py that it calls.
use Prim.Native.String.{String}
use lerobot_nexarm.Prelude.{
  Bool, true, false, List, [], ◌∷◌, ◌++◌, Option, none, some, if◌then◌else◌,
}
use lerobot_nexarm.Rollout.{
  plain, coaching, Call, check_robot_type, make_config, build_context, capture_rest,
  capture_leader_rest, create_strategy, setup, after_setup, begin_thread, Faults, Worker,
  release_all,
}

-- The state after some calls, the calls, and the exception that ended them.
pub record Result : Type 0 where
  pub worker : Worker
  pub calls : List Call
  pub raised : Option String

-- One call: what it changes when it raises, when it returns, and what follows.
abbrev pub attempt :
    Call
    → Option String
    → (Worker → Worker)
    → (Worker → Worker)
    → (Worker → Result)
    → Worker
    → Result
attempt call none on_raise on_return next w =
    let r = next (on_return w) in
    record { worker = r.worker; calls = call ∷ r.calls; raised = r.raised }
attempt call (some exc) on_raise on_return next w = record {
  worker = on_raise w;
  calls = call ∷ [];
  raised = some exc;
}

abbrev pub same : Worker → Worker
same w = w

abbrev pub returned : Worker → Result
returned w = record { worker = w; calls = []; raised = none }

-- `_after_setup`: the monitor's thread is begun last.
unfoldable pub finish_setup : Faults → Worker → Result
finish_setup f w = elim w.kind [
  | plain ↦ returned w
  | coaching ↦
      attempt after_setup f.after_setup same (λ w'. record w' { has_monitor = true }) returned w
]

abbrev pub set_leader_torque : Bool → Worker → Worker
set_leader_torque is_on w = record w { leader_torque = is_on }

unfoldable pub set_up : Faults → Worker → Result
unfolding finish_setup
set_up f w =
    attempt create_strategy f.create_strategy same (λ w'. record w' { has_strategy = true })
      (attempt setup f.setup (set_leader_torque f.setup_torque) (set_leader_torque f.setup_torque)
        (finish_setup f))
      w

-- `_after_context`, and what follows it.
unfoldable pub after_context : Faults → Worker → Result
unfolding set_up
after_context f w = elim w.kind [
  | plain ↦ set_up f w
  | coaching ↦ elim w.leader [
    | none ↦ record {
      worker = w;
      calls = [];
      raised = some "coaching needs the leader arm: set leader_port on the robot profile";
    }
    | some connected ↦
        attempt capture_leader_rest f.capture_leader_rest same
          (λ w'. record w' { leader_rest = true }) (set_up f) w
  ]
]

abbrev pub set_guard : Bool → Worker → Worker
set_guard has_rest w = record w { guard = some (record { has_rest = has_rest; error = none }) }

-- The try block of `start`.
unfoldable pub take_arm : Faults → Worker → Result
unfolding after_context
take_arm f w =
    attempt capture_rest f.capture_rest (set_guard false) (set_guard true) (after_context f) w

-- What `start` does once its try block has ended.
unfoldable pub end_start : Faults → Result → Result
unfolding release_all
end_start f r = elim r.raised [
  | none ↦ record r {
    worker = record (r.worker) { has_thread = true };
    calls = r.calls ++ begin_thread ∷ [];
  }
  | some exc ↦
      let down = release_all f r.worker in record r { worker = down.0; calls = r.calls ++ down.1 }
]

-- What a `build_context` that raises leaves: the worker has no context to release it by.
abbrev pub set_built : Faults → Worker → Worker
set_built f w = record w { follower = f.built_follower; leader = f.built_leader }

-- The context's devices are connected.
abbrev pub set_context : Faults → Worker → Worker
set_context f w = record w {
  has_context = true;
  follower = some true;
  leader = if f.has_leader then some true else none;
}

unfoldable pub start : Faults → Worker → Result
unfolding take_arm end_start
start f w =
    attempt check_robot_type f.check_robot_type same same
      (attempt make_config f.make_config same same (
        attempt build_context f.build_context (set_built f) (set_context f)
          (λ w'. end_start f (take_arm f w'))))
      w
