-- ===== src/Devices/Follower.antt =====
-- packages/lerobot_robot_nexarm/src/lerobot_robot_nexarm/nexarm_follower/nexarm_follower.py: connection,
-- observations and actions over the bus, of which motors/nexarm.py has `connect` and `disconnect`.
-- Each call of the bus or of a camera comes to an attempt. Calibration files, camera images and
-- messages are left out; times are whole numbers.
pub mod Connection
pub mod Reads
pub mod Idle
use lerobot_nexarm.Prelude.{
  ℕ, ◌+◌, ◌-◌, Bool, true, false, not, ◌&&◌, ◌||◌, List, [], ◌∷◌, Option, none, some, ltb, leb, map,
  if◌then◌else◌,
}
use lerobot_nexarm.Prelude.Int.{ℤ}
use lerobot_nexarm.Motors.Positions.{position_max, clamp_position}

-- What a call comes to: it returns, or it raises, before it had its effect or after.
pub data Attempt : Type 0 where
  returned raised_before raised_after : Attempt

abbrev pub took : Attempt → Bool
took returned = true
took raised_before = false
took raised_after = true

abbrev pub raises : Attempt → Bool
raises returned = false
raises _ = true

-- `NexArmMotorsBus`, as far as the calls change it: the open port, the bridge mode and the torque.
pub record Bus : Type 0 where
  pub is_open : Bool
  pub in_mode : Bool
  pub torque : Bool

pub record Follower : Type 0 where
  pub bus : Bus
  pub cameras : List Bool
  pub is_idle_relaxed : Bool
  pub last_action_time : ℕ
  pub prev_positions : Option (List ℕ)

pub record Outcome : Type 0 where
  pub follower : Follower
  pub raised : Bool

abbrev pub all_connected : List Bool → Bool
all_connected [] = true
all_connected (c ∷ cs) = c && all_connected cs

abbrev pub is_connected : Follower → Bool
is_connected s = s.bus.is_open && all_connected s.cameras

abbrev pub set_open : Bool → Follower → Follower
set_open b s = record s { bus = record s.bus { is_open = b } }

abbrev pub set_mode : Bool → Follower → Follower
set_mode b s = record s { bus = record s.bus { in_mode = b } }

abbrev pub set_torque : Bool → Follower → Follower
set_torque b s = record s { bus = record s.bus { torque = b } }

-- A call with its effect, and what follows it unless it raises.
abbrev pub attempt : Attempt → (Follower → Follower) → (Follower → Outcome) → Follower → Outcome
attempt a effect next s =
    let s' = if took a then effect s else s in
    let rest = next s' in if raises a then record { follower = s'; raised = true } else rest

-- A call under `contextlib.suppress`.
abbrev pub suppressed : Attempt → (Follower → Follower) → Follower → Follower
suppressed a effect s = if took a then effect s else s

abbrev pub ends : Follower → Outcome
ends s = record { follower = s; raised = false }

-- The attempts of `connect`; the ones of the cameras in their order.
pub record Connecting : Type 0 where
  pub open_port : Attempt
  pub enter_mode : Attempt
  pub load_calibration : Attempt
  pub cameras : List Attempt
  pub motion_params : Attempt
  pub torque_on : Attempt

-- The cameras after `connect` of each in turn, and whether one raised.
pub connect_cameras : List Attempt → List Bool → List Bool × Bool
connect_cameras [] cs = (cs, false)
connect_cameras (a ∷ as_) [] = ([], false)
connect_cameras (a ∷ as_) (c ∷ cs) =
    let rest = connect_cameras as_ cs in
    let c' = took a || c in if raises a then (c' ∷ cs, true) else (c' ∷ rest.0, rest.1)

-- `configure`.
pub configure : Connecting → ℕ → Follower → Outcome
configure f now s =
    attempt f.motion_params (λ s'. s')
      (attempt f.torque_on (set_torque true)
        (λ s'. ends (record s' { last_action_time = now; is_idle_relaxed = false })))
      s

-- The body of `connect` after the bridge mode.
pub connect_rest : Connecting → ℕ → Follower → Outcome
unfolding connect_cameras configure
connect_rest f now s =
    attempt f.load_calibration (λ s'. s')
      (λ s'.
        let cams = connect_cameras f.cameras s'.cameras in
        let s'' = record s' { cameras = cams.0 } in
        let rest = configure f now s'' in
        if cams.1 then record { follower = s''; raised = true } else rest)
      s

-- `connect`, with `check_if_already_connected`.
pub connect : Connecting → ℕ → Follower → Outcome
unfolding connect_rest
connect f now s =
    let open_port = if s.bus.is_open then returned else f.open_port in
    let body =
      attempt open_port (set_open true) (attempt f.enter_mode (set_mode true) (connect_rest f now))
        s in
    if is_connected s then record { follower = s; raised = true } else body

-- The attempts of `disconnect`; `holds` tells whether the config asks for torque off.
pub record Disconnecting : Type 0 where
  pub cameras : List Attempt
  pub holds : Bool
  pub torque_off : Attempt
  pub exit_mode : Attempt

abbrev pub disconnect_cameras : List Attempt → List Bool → List Bool
disconnect_cameras [] cs = cs
disconnect_cameras (a ∷ as_) [] = []
disconnect_cameras (a ∷ as_) (c ∷ cs) = (c && not (took a)) ∷ disconnect_cameras as_ cs

-- `disconnect`, with `check_if_not_connected`; `NexArmMotorsBus.disconnect` never raises.
pub disconnect : Disconnecting → Follower → Outcome
disconnect f s =
    let s1 = record s { cameras = disconnect_cameras f.cameras s.cameras } in
    let s2 = if f.holds then suppressed f.torque_off (set_torque false) s1 else s1 in
    let s3 = suppressed f.exit_mode (set_mode false) s2 in
    if is_connected s then ends (set_open false s3) else record { follower = s; raised = true }

-- `ArmWorker._shutdown_hardware` for the follower.
pub shut_down : Disconnecting → Follower → Outcome
unfolding disconnect
shut_down f s = if is_connected s then disconnect f s else ends s

abbrev pub corrupt_margin : ℕ
corrupt_margin = 5

pub is_corrupt : ℕ → Bool
is_corrupt p = leb p corrupt_margin || leb (position_max - corrupt_margin) p

-- The loop of `get_observation` over the joints, once there are earlier positions.
pub sanitized : List ℕ → List ℕ → List ℕ
unfolding is_corrupt
sanitized (p ∷ ps) (q ∷ qs) = (if is_corrupt q then p else q) ∷ sanitized ps qs
sanitized [] qs = qs
sanitized (p ∷ ps) [] = []

abbrev pub positions_of : Option (List ℕ) → List ℕ → List ℕ
unfolding sanitized
positions_of none raw = raw
positions_of (some prev) raw = sanitized prev raw

-- `get_observation` after its read: the positions that it returns are the new `prev_positions`.
-- A timeout of 0 is none.
pub get_observation : ℕ → ℕ → Attempt → List ℕ → Follower → Follower
unfolding positions_of
get_observation timeout now torque_off raw s =
    let s' = record s { prev_positions = some (positions_of s.prev_positions raw) } in
    let relax = suppressed torque_off (set_torque false) s' in
    if ltb 0 timeout && not s.is_idle_relaxed && ltb timeout (now - s.last_action_time)
    then record relax { is_idle_relaxed = not (raises torque_off) }
    else s'

-- `send_action` before its write.
pub wake : ℕ → Attempt → Follower → Follower
wake now torque_on s =
    let s' = record s { last_action_time = now } in
    let woken = suppressed torque_on (set_torque true) s' in
    if s.is_idle_relaxed then record woken { is_idle_relaxed = raises torque_on } else s'

-- `send_action`: the follower, and the positions that are written.
pub send_action : ℕ → Attempt → List ℤ → Follower → Follower × List ℕ
unfolding wake
send_action now torque_on action s = (wake now torque_on s, map clamp_position action)
