-- ===== src/Rollout.antt =====
-- packages/nexarm_service/src/nexarm_service/rollout.py and coaching.py: how the worker of a policy
-- takes the arm and gives it back. The strategies are the library's: what each of their calls
-- raises, and which devices a teardown leaves connected, are arguments. Every function returns the
-- calls it made, in order.
pub mod Start
pub mod Laws
mod Tests
use Prim.Native.String.{String}
use lerobot_nexarm.Prelude.{
  Bool, true, false, List, [], ◌∷◌, ◌++◌, map, Option, none, some, if◌then◌else◌,
}
use lerobot_nexarm.Arm.{Guard, or_else, prefixed, release}
use lerobot_nexarm.Arm

-- `RolloutWorker` and its subclass `CoachingWorker`.
pub data Kind : Type 0 where
  plain coaching : Kind

pub data Call : Type 0 where
  check_robot_type make_config build_context capture_rest capture_leader_rest : Call
  create_strategy setup after_setup begin_thread join_thread : Call
  join_monitor ramp_leader leader_torque_off : Call
  guard_call : Arm.Call → Call
  teardown disconnect_follower disconnect_leader : Call

-- The exception of each call, `arm` those of the `FollowerGuard`; whether the context has a leader,
-- whether the strategy's setup turns its torque on, which ports are open after the strategy's
-- teardown, which devices count as connected when they are disconnected, and what a `build_context`
-- that raises has made.
pub record Faults : Type 0 where
  pub check_robot_type : Option String
  pub make_config : Option String
  pub build_context : Option String
  pub capture_rest : Option String
  pub capture_leader_rest : Option String
  pub create_strategy : Option String
  pub setup : Option String
  pub after_setup : Option String
  pub ramp_leader : Option String
  pub leader_torque_off : Option String
  pub arm : Arm.Faults
  pub teardown : Option String
  pub disconnect_follower : Option String
  pub disconnect_leader : Option String
  pub has_leader : Bool
  pub setup_torque : Bool
  pub follower_stays : Bool
  pub leader_stays : Bool
  pub follower_counts : Bool
  pub leader_counts : Bool
  pub built_follower : Option Bool
  pub built_leader : Option Bool

-- `leader_rest` is whether the leader's rest pose was captured; a device is `some` once the context
-- has made it, with whether its port is open.
pub record Worker : Type 0 where
  pub kind : Kind
  pub error : Option String
  pub has_context : Bool
  pub follower : Option Bool
  pub leader : Option Bool
  pub has_strategy : Bool
  pub guard : Option Guard
  pub leader_rest : Bool
  pub leader_torque : Bool
  pub is_holding : Bool
  pub has_monitor : Bool
  pub has_thread : Bool
  pub is_shutdown : Bool

abbrev pub new_worker : Kind → Worker
new_worker kind = record {
  kind = kind;
  error = none;
  has_context = false;
  follower = none;
  leader = none;
  has_strategy = false;
  guard = none;
  leader_rest = false;
  leader_torque = false;
  is_holding = false;
  has_monitor = false;
  has_thread = false;
  is_shutdown = false;
}

-- A call that returns where the error is none.
abbrev pub has_raised : Option String → Bool
has_raised none = false
has_raised (some exc) = true

-- `_release_leader`, once there is a leader whose torque is on.
pub free_leader : Faults → Worker → Worker × List Call
free_leader f w = (
  record w {
    error =
        if w.leader_rest
        then or_else w.error (prefixed "leader rest return failed: " f.ramp_leader)
        else w.error;
    leader_torque = has_raised f.leader_torque_off;
  },
  (if w.leader_rest then ramp_leader ∷ [] else []) ++ leader_torque_off ∷ [],
)

pub release_leader : Faults → Worker → Worker × List Call
unfolding free_leader
release_leader f w =
    if w.has_context
    then elim w.leader [
      | none ↦ (w, [])
      | some connected ↦ if w.leader_torque then free_leader f w else (w, [])
    ]
    else (w, [])

pub before_release : Faults → Worker → Worker × List Call
unfolding release_leader
before_release f w = elim w.kind [
  | plain ↦ (w, [])
  | coaching ↦
      let freed = release_leader f (record w { is_holding = false; has_monitor = false }) in
      (freed.0, (if w.has_monitor then join_monitor ∷ [] else []) ++ freed.1)
]

pub release_guard : Faults → Worker → Worker × List Call
release_guard f w = elim w.guard [
  | none ↦ (w, [])
  | some g ↦
      let released = release f.arm g in
      (
        record w { error = or_else w.error released.0.error; guard = none },
        map guard_call released.1,
      )
]

-- A device that is there and counts as connected, which it can only with its port open, is
-- disconnected; the port stays open if that raises, and where the device does not count.
pub disconnect : Call → Option String → Bool → Option Bool → Option Bool × List Call
disconnect call raises counts none = (none, [])
disconnect call raises counts (some false) = (some false, [])
disconnect call raises false (some true) = (some true, [])
disconnect call raises true (some true) = (some (has_raised raises), call ∷ [])

abbrev pub left_by : Bool → Option Bool → Option Bool
left_by stays none = none
left_by stays (some connected) = some stays

pub tear_down : Faults → Worker → Worker × List Call
tear_down f w = (
  record w {
    error = or_else w.error (prefixed "teardown failed: " f.teardown);
    follower = left_by f.follower_stays w.follower;
    leader = left_by f.leader_stays w.leader;
    has_strategy = false;
  },
  teardown ∷ [],
)

pub disconnect_devices : Faults → Worker → Worker × List Call
unfolding disconnect
disconnect_devices f w =
    let follower =
      disconnect disconnect_follower f.disconnect_follower f.follower_counts w.follower in
    let leader = disconnect disconnect_leader f.disconnect_leader f.leader_counts w.leader in
    (record w { follower = follower.0; leader = leader.0 }, follower.1 ++ leader.1)

pub release_devices : Faults → Worker → Worker × List Call
unfolding tear_down disconnect_devices
release_devices f w =
    if w.has_strategy
    then tear_down f w
    else if w.has_context
    then disconnect_devices f w
    else (w, [])

-- `_release`.
unfoldable pub release_all : Faults → Worker → Worker × List Call
unfolding before_release release_guard release_devices
release_all f w =
    let before = before_release f w in
    let guarded = release_guard f before.0 in
    let devices = release_devices f guarded.0 in
    (record (devices.0) { has_context = false }, before.1 ++ guarded.1 ++ devices.1)

unfoldable pub stop : Faults → Worker → Worker × List Call
unfolding release_all
stop f w =
    let released = release_all f (record w { is_shutdown = true }) in
    (released.0, (if w.has_thread then join_thread ∷ [] else []) ++ released.1)
