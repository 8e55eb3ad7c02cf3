-- ===== src/Motors/Positions.antt =====
-- motors/nexarm.py: the commands of `NexArmMotorsBus`. A write is the frame that it sends; a read
-- is given the reply that `_send` returns at each attempt. The serial port itself is a parameter.
pub mod Laws
use lerobot_nexarm.Prelude.{
  ℕ, zero, suc, ◌+◌, ◌-◌, ◌*◌, ◌/◌, ◌%◌, Bool, true, false, ◌&&◌, List, [], ◌∷◌, ◌++◌, map, Option,
  none, some, length, get_or, ltb, leb, ◌==◌, if◌then◌else◌,
}
use lerobot_nexarm.Prelude.Int.{ℤ, pos, negsuc, pos_part, clamp}
use lerobot_nexarm.Motors.Frame.{build_frame}
use lerobot_nexarm.Motors.Reply.{Reply}

abbrev pub system_id : ℕ
system_id = 0xff

abbrev pub cmd_read_pos : ℕ
cmd_read_pos = 96

abbrev pub cmd_write_pos : ℕ
cmd_write_pos = 97

abbrev pub joint_count : ℕ
joint_count = 6

abbrev pub position_max : ℕ
position_max = 4095

-- `max(POSITION_MIN, min(POSITION_MAX, p))`, a number from 0 to 4095.
unfoldable pub clamp_position : ℤ → ℕ
unfolding clamp
clamp_position p = pos_part (clamp (pos 0) (pos position_max) p)

-- `struct.unpack_from("<h", args, at)`.
pub unpack_int16 : List ℕ → ℕ → ℤ
unpack_int16 args at =
    let w = get_or args at 0 + 256 * get_or args (at + 1) 0 in
    if ltb w 32768 then pos w else negsuc (65536 - w - 1)

-- `struct.pack("<h", p)` for a position.
pub pack_int16 : ℕ → List ℕ
pack_int16 p = (p % 256) ∷ (p / 256 % 256) ∷ []

pub decode_positions : List ℕ → List ℕ
unfolding unpack_int16
decode_positions args =
    map (λ i. clamp_position (unpack_int16 args (i * 2))) (0 ∷ 1 ∷ 2 ∷ 3 ∷ 4 ∷ 5 ∷ [])

pub encode_positions : List ℤ → List ℕ
unfolding pack_int16
encode_positions [] = []
encode_positions (p ∷ ps) = pack_int16 (clamp_position p) ++ encode_positions ps

-- The attempts left, the number of the next one, and the reply at each; `none` is TimeoutError.
pub read_attempts : ℕ → ℕ → (ℕ → Option Reply) → Option (List ℕ)
read_attempts zero attempt reply = none
read_attempts (suc left) attempt reply =
    let rest = read_attempts left (attempt + 1) reply in
    elim (reply attempt) [
      | none ↦ rest
      | some (cmd, args) ↦
          if cmd == cmd_read_pos && leb (joint_count * 2) (length args)
          then some (decode_positions args)
          else rest
    ]

pub read_positions : ℕ → (ℕ → Option Reply) → Option (List ℕ)
unfolding read_attempts
read_positions retries reply = read_attempts retries 0 reply

pub write_positions : List ℤ → List ℕ
write_positions positions = build_frame system_id cmd_write_pos (encode_positions positions)

pub set_torque : Bool → List ℕ
set_torque enable = build_frame system_id 98 ((if enable then 1 else 0) ∷ [])

pub release_torque_all : List ℕ
release_torque_all = build_frame system_id 61 (0 ∷ [])

-- Torque-enable 0 to servos 1 to 6, one frame each.
pub release_torque_each : List (List ℕ)
release_torque_each =
    map (λ servo_id. build_frame servo_id 3 (40 ∷ 0 ∷ [])) (1 ∷ 2 ∷ 3 ∷ 4 ∷ 5 ∷ 6 ∷ [])

pub enter_lerobot_mode : List ℕ
enter_lerobot_mode = build_frame system_id 68 (1 ∷ [])

pub exit_lerobot_mode : List ℕ
exit_lerobot_mode = build_frame system_id 68 (0 ∷ [])

-- CMD 56: the acceleration, and the speed in two bytes, low byte first.
pub write_motion_params : ℤ → ℤ → List ℕ
write_motion_params acc speed =
    let a = pos_part (clamp (pos 0) (pos 254) acc) in
    let s = pos_part (clamp (pos 0) (pos 3400) speed) in
    build_frame system_id 56 ((a % 256) ∷ (s % 256) ∷ (s / 256 % 256) ∷ [])
