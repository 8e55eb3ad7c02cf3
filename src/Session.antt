-- ===== src/Session.antt =====
-- packages/nexarm_service/src/nexarm_service/session.py: the methods of `SessionManager`, each call
-- run to its end. `Session.Life` has the interleavings. Times are whole units of the clock; what a
-- worker does in a call is an argument of the call; params and status pass through and are left out.
pub mod Laws
pub mod Life
mod Tests
use Prim.Native.String.{String}
use text.Mathlib.Text.{◌==◌ as str_eq}
use lerobot_nexarm.Prelude.{
  ℕ, ◌-◌, Bool, true, false, not, List, [], ◌∷◌, Option, none, some, ltb, ◌==◌, if◌then◌else◌,
}

pub data SessionKind : Type 0 where
  teleoperation recording replay rollout eval coaching hosting remote_teleoperation : SessionKind

pub data SessionState : Type 0 where
  starting running stopping stopped failed : SessionState

pub record SessionInfo : Type 0 where
  pub id : ℕ
  pub kind : SessionKind
  pub profile : String
  pub state : SessionState
  pub started_at : ℕ
  pub stop_reason : Option String
  pub error : Option String

pub record Live : Type 0 where
  pub info : SessionInfo
  pub last_heartbeat : ℕ

-- The two shapes of a `session_changed` event; the idle one carries the id alone.
pub data Event : Type 0 where
  changed : SessionInfo → Event
  idle : ℕ → Event

pub record SessionManager : Type 0 where
  pub lease_timeout : ℕ
  pub live : Option Live
  pub last : Option SessionInfo
  pub events : List Event

pub data SessionError : Type 0 where
  busy not_found unsupported_kind not_running : SessionError
  worker_failed : String → SessionError

pub data Outcome : Type 0 where
  returns : SessionInfo → Outcome
  raises : SessionError → Outcome

-- What a worker does: the exception of `start` and of `stop`, its `error` and `alive()`.
pub record Worker : Type 0 where
  pub start_raises : Option String
  pub stop_raises : Option String
  pub error : Option String
  pub alive : Bool

-- Python's truth of `str | None`: neither `None` nor the empty string.
abbrev pub truthy : Option String → Bool
truthy none = false
truthy (some s) = not (str_eq s "")

pub publish : SessionInfo → SessionManager → SessionManager
publish info m = record m { events = changed info ∷ m.events }

-- `_finish` for the live session, which the callers below have found there.
pub finish :
    Live → SessionState → String → Option String → SessionManager → SessionManager × Outcome
unfolding publish
finish live state reason error m =
    let info = record (live.info) { state = state; stop_reason = some reason; error = error } in
    let m' = publish info (record m { live = none; last = some info }) in
    (record m' { events = idle info.id ∷ m'.events }, returns info)

pub stop_worker : Live → Worker → String → SessionManager → SessionManager × Outcome
stop_worker live worker reason m =
    let error = if truthy worker.stop_raises then worker.stop_raises else worker.error in
    finish live (if truthy error then failed else stopped) reason error m

pub new_info : SessionKind → String → ℕ → ℕ → SessionInfo
new_info kind profile id started_at = record {
  id = id;
  kind = kind;
  profile = profile;
  state = starting;
  started_at = started_at;
  stop_reason = none;
  error = none;
}

-- The call of `worker.start()` and what follows it, for the session that was claimed.
pub start_worker : Live → Worker → SessionManager → SessionManager × Outcome
unfolding finish publish
start_worker live worker m = elim worker.start_raises [
  | some exc ↦ ((finish live failed "start_failed" (some exc) m).0, raises (worker_failed exc))
  | none ↦
      let info = record (live.info) { state = running } in
      (publish info (record m { live = some (record live { info = info }) }), returns info)
]

-- `start`: whether there is a factory for the kind, the new id, and the times that the wall clock
-- and the last call of the manager's clock give.
pub start :
    Bool → SessionKind → String → ℕ → ℕ → ℕ → Worker → SessionManager → SessionManager × Outcome
unfolding publish new_info start_worker
start available kind profile id started_at now worker m =
    let info = new_info kind profile id started_at in
    let live : Live = record { info = info; last_heartbeat = now } in
    if not available then (m, raises unsupported_kind) else elim m.live [
      | some other ↦ (m, raises busy)
      | none ↦ start_worker live worker (publish info (record m { live = some live }))
    ]

-- `_require`: the live session, if it has this id.
pub require : ℕ → SessionManager → Option Live
require id m = elim m.live [
  | none ↦ none
  | some live ↦ if live.info.id == id then some live else none
]

pub heartbeat : ℕ → ℕ → SessionManager → SessionManager × Outcome
unfolding require
heartbeat id now m = elim (require id m) [
  | none ↦ (m, raises not_found)
  | some live ↦ (record m { live = some (record live { last_heartbeat = now }) }, returns live.info)
]

abbrev pub is_stopping : SessionState → Bool
is_stopping stopping = true
is_stopping _ = false

abbrev pub is_running : SessionState → Bool
is_running running = true
is_running _ = false

pub stop : ℕ → String → Worker → SessionManager → SessionManager × Outcome
unfolding require publish
stop id reason worker m = elim (require id m) [
  | none ↦ (m, raises not_found)
  | some live ↦
      let info = record (live.info) { state = stopping } in
      let marked = record live { info = info } in
      if is_stopping live.info.state
      then (m, returns live.info)
      else stop_worker marked worker reason (publish info (record m { live = some marked }))
]

-- `control`, up to the call of the worker's own `control`.
pub control : ℕ → SessionManager → Outcome
unfolding require
control id m = elim (require id m) [
  | none ↦ raises not_found
  | some live ↦ if is_running live.info.state then returns live.info else raises not_running
]

pub stop_current : String → Worker → SessionManager → SessionManager
stop_current reason worker m = elim m.live [
  | none ↦ m
  | some live ↦ (stop live.info.id reason worker m).0
]

-- The watchdog step.
pub tick : ℕ → Worker → SessionManager → SessionManager
tick now worker m = elim m.live [
  | none ↦ m
  | some live ↦
      if is_running live.info.state
      then if ltb m.lease_timeout (now - live.last_heartbeat)
        then (stop live.info.id "lease_expired" worker m).0
        else if not worker.alive
        then (stop_worker live worker "worker_exited" m).0
        else m
      else m
]
