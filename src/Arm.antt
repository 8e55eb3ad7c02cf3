-- ===== src/Arm.antt =====
-- packages/nexarm_service/src/nexarm_service/arm_worker.py: how a session worker takes the arm and
-- gives it back. What each call of the hardware or of a subclass's hook raises is an argument, and
-- every function returns the calls it made, in order. The control loop itself is a subclass's.
pub mod Laws
mod Tests
use Prim.Native.String.{String, ◌++◌ as str_append}
use lerobot_nexarm.Prelude.{
  Bool, true, false, List, [], ◌∷◌, ◌++◌, Option, none, some, if◌then◌else◌,
}

pub data Call : Type 0 where
  prepare make_follower make_leader connect_follower connect_leader capture_rest ready : Call
  begin_thread join_thread ramp_home torque_off : Call
  disconnect_follower disconnect_leader finalize : Call

-- The exception of each call; whether the port of a device is open after its connect raised; and
-- whether a device whose port is open counts as connected when it is shut down: `is_connected` of the
-- follower asks for every camera as well.
pub record Faults : Type 0 where
  pub prepare : Option String
  pub make_follower : Option String
  pub make_leader : Option String
  pub connect_follower : Option String
  pub connect_leader : Option String
  pub capture_rest : Option String
  pub ready : Option String
  pub ramp_home : Option String
  pub torque_off : Option String
  pub disconnect_follower : Option String
  pub disconnect_leader : Option String
  pub finalize : Option String
  pub follower_stays : Bool
  pub leader_stays : Bool
  pub follower_counts : Bool
  pub leader_counts : Bool

-- `FollowerGuard`: whether it has a rest pose, and its error.
pub record Guard : Type 0 where
  pub has_rest : Bool
  pub error : Option String

-- `ArmWorker`: a device is there once it is made, with whether its port is open.
pub record Worker : Type 0 where
  pub needs_leader : Bool
  pub error : Option String
  pub follower : Option Bool
  pub leader : Option Bool
  pub guard : Option Guard
  pub has_thread : Bool
  pub is_stopping : Bool

abbrev pub new_worker : Bool → Worker
new_worker needs_leader = record {
  needs_leader = needs_leader;
  error = none;
  follower = none;
  leader = none;
  guard = none;
  has_thread = false;
  is_stopping = false;
}

-- Python's `a or b` where no text is empty.
abbrev pub or_else : Option String → Option String → Option String
or_else none d = d
or_else (some s) d = some s

abbrev pub prefixed : String → Option String → Option String
prefixed s none = none
prefixed s (some exc) = some (str_append s exc)

-- `FollowerGuard.release`.
unfoldable pub release : Faults → Guard → Guard × List Call
release f guard =
    let returned =
      if guard.has_rest
      then or_else (prefixed "rest return failed: " f.ramp_home) guard.error
      else guard.error in
    (
      record guard { error = or_else returned (prefixed "torque off failed: " f.torque_off) },
      (if guard.has_rest then ramp_home ∷ [] else []) ++ torque_off ∷ [],
    )

-- A device that counts as connected, which it can only with its port open, is disconnected; the
-- port stays open if that raises, and where the device does not count as connected.
pub disconnect : Call → Option String → Bool → Option Bool → Option Bool × List Call
disconnect call raises counts none = (none, [])
disconnect call raises counts (some false) = (some false, [])
disconnect call raises false (some true) = (some true, [])
disconnect call raises true (some true) =
    (some (elim raises [ none ↦ false | some exc ↦ true ]), call ∷ [])

pub release_guard : Faults → Worker → Worker × List Call
unfolding release
release_guard f w = elim w.guard [
  | none ↦ (w, [])
  | some g ↦
      let released = release f g in
      (record w { guard = some released.0; error = or_else w.error released.0.error }, released.1)
]

-- `_shutdown_hardware`.
pub shutdown_hardware : Faults → Worker → Worker × List Call
unfolding release_guard disconnect
shutdown_hardware f w =
    let released = release_guard f w in
    let follower =
      disconnect disconnect_follower f.disconnect_follower f.follower_counts w.follower in
    let leader = disconnect disconnect_leader f.disconnect_leader f.leader_counts w.leader in
    (
      record (released.0) { follower = follower.0; leader = leader.0 },
      released.1 ++ follower.1 ++ leader.1,
    )

-- `_finalize_quietly`.
pub finalize_quietly : Faults → Worker → Worker × List Call
finalize_quietly f w =
    (record w { error = or_else w.error (prefixed "finalize failed: " f.finalize) }, finalize ∷ [])

pub shut_down : Faults → Worker → Worker × List Call
unfolding shutdown_hardware finalize_quietly
shut_down f w =
    let down = shutdown_hardware f w in
    let quiet = finalize_quietly f down.0 in (quiet.0, down.1 ++ quiet.1)

pub stop : Faults → Worker → Worker × List Call
unfolding shut_down
stop f w =
    let down = shut_down f (record w { is_stopping = true }) in
    (down.0, (if w.has_thread then join_thread ∷ [] else []) ++ down.1)

-- The state after some calls, the calls, and the exception that ended them.
pub record Result : Type 0 where
  pub worker : Worker
  pub calls : List Call
  pub raised : Option String

-- One call in a try block: what it changes when it raises, when it returns, and what follows.
abbrev pub attempt :
    Call
    → Option String
    → (Worker → Worker)
    → (Worker → Worker)
    → (Worker → Result)
    → Worker
    → Result
attempt call none on_raise on_return next w =
    let r = next (on_return w) in
    record { worker = r.worker; calls = call ∷ r.calls; raised = r.raised }
attempt call (some exc) on_raise on_return next w = record {
  worker = on_raise w;
  calls = call ∷ [];
  raised = some exc;
}

abbrev pub same : Worker → Worker
same w = w

abbrev pub set_guard : Bool → Worker → Worker
set_guard has_rest w = record w { guard = some (record { has_rest = has_rest; error = none }) }

-- The try block of `start`, from its end to its beginning.
pub guard_arm : Faults → Worker → Result
guard_arm f w =
    attempt capture_rest f.capture_rest (set_guard false) (set_guard true)
      (attempt ready f.ready same same (λ w'. record { worker = w'; calls = []; raised = none })) w

pub connect_arms : Faults → Worker → Result
unfolding guard_arm
connect_arms f w =
    attempt connect_follower f.connect_follower
      (λ w'. record w' { follower = some f.follower_stays })
      (λ w'. record w' { follower = some true })
      (λ w'. elim w'.leader [
        | none ↦ guard_arm f w'
        | some connected ↦
            attempt connect_leader f.connect_leader
              (λ w''. record w'' { leader = some f.leader_stays })
              (λ w''. record w'' { leader = some true }) (guard_arm f) w'
      ])
      w

pub take_arm : Faults → Worker → Result
unfolding connect_arms
take_arm f w =
    attempt make_follower f.make_follower same (λ w'. record w' { follower = some false })
      (λ w'.
        if w'.needs_leader
        then attempt make_leader f.make_leader same (λ w''. record w'' { leader = some false })
            (connect_arms f) w'
        else connect_arms f w')
      w

-- What `start` does once its try block has ended.
pub end_start : Faults → Result → Result
unfolding shut_down
end_start f r = elim r.raised [
  | none ↦ record r {
    worker = record (r.worker) { has_thread = true };
    calls = r.calls ++ begin_thread ∷ [];
  }
  | some exc ↦
      let down = shut_down f r.worker in record r { worker = down.0; calls = r.calls ++ down.1 }
]

pub start : Faults → Worker → Result
unfolding take_arm end_start
start f w = attempt prepare f.prepare same same (λ w'. end_start f (take_arm f w')) w
