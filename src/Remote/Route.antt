-- ===== src/Remote/Route.antt =====
-- routes/remote.py: `remote_operator`, the station's side of a connection, and remote_teleop.py,
-- `parse_action`. A connection is a number, and stands for its operator's name too. Each message is
-- a step, so that the steps of several connections and of the station's own loop interleave. A
-- negative number of a frame is below every `echo_seq` and is left out.
pub mod Laws
pub mod Stale
use Prim.Native.String.{String}
use text.Mathlib.Text.{◌==◌ as str_eq}
use lerobot_nexarm.Prelude.{
  ℕ, Bool, true, false, List, [], ◌∷◌, Option, none, some, ◌==◌, if◌then◌else◌,
}
use lerobot_nexarm.Prelude.Int.{ℤ}
use lerobot_nexarm.Safety.Limits.{Limit, soft_limits}
use lerobot_nexarm.Hosting.{
  Params, Station, Control, Refusal, try_attach, detach, on_action, control, round,
}

-- A JSON value: a finite number that is no bool, or anything else.
pub data Value : Type 0 where
  number : ℤ → Value
  no_number : Value

-- A frame's number, if it is an integer, and its action, if it is an object.
pub record Frame : Type 0 where
  pub seq : Option ℕ
  pub action : Option (List (String × Value))

unfoldable pub value_at : String → List (String × Value) → Value
value_at key [] = no_number
value_at key ((k, v) ∷ vs) = if str_eq k key then v else value_at key vs

abbrev pub tick_before : Value → Option (List ℤ) → Option (List ℤ)
tick_before (number v) (some ticks) = some (v ∷ ticks)
tick_before _ _ = none

unfoldable pub parse_ticks : List Limit → List (String × Value) → Option (List ℤ)
parse_ticks [] vs = some []
parse_ticks (l ∷ ls) vs = tick_before (value_at l.key vs) (parse_ticks ls vs)

abbrev pub with_seq : ℕ → Option (List ℤ) → Option (ℕ × List ℤ)
with_seq seq none = none
with_seq seq (some ticks) = some (seq, ticks)

-- `none` is the ProtocolError.
unfoldable pub parse_action : Frame → Option (ℕ × List ℤ)
unfolding parse_ticks
parse_action frame = elim frame.seq [
  | none ↦ none
  | some seq ↦ elim frame.action [
    | none ↦ none
    | some vs ↦ with_seq seq (parse_ticks soft_limits vs)
  ]
]

-- The station, and the connections that have attached and still receive.
pub record Server : Type 0 where
  pub station : Station
  pub connections : List ℕ

abbrev pub is_open : ℕ → List ℕ → Bool
is_open c [] = false
is_open c (d ∷ ds) = if d == c then true else is_open c ds

unfoldable pub closed : ℕ → List ℕ → List ℕ
closed c [] = []
closed c (d ∷ ds) = let rest = closed c ds in if d == c then rest else d ∷ rest

-- A hello that is compatible or not, an action frame, a message of another type, the end of a
-- connection by a bye or an error; a control and a round of the station.
pub data Event : Type 0 where
  hello : Bool → Event
  action : Frame → Event
  unknown bye : Event

pub data Step : Type 0 where
  message : ℕ → ℕ → Event → Step
  controlled : Control → Step
  looped : ℕ → Step

-- The `finally` block, and the end of the handler.
pub leave : ℕ → Server → Server
unfolding closed
leave c s = record { station = detach s.station; connections = closed c s.connections }

abbrev pub attached : ℕ → Server → Station × Option Refusal → Server
attached c s (station, none) = record { station = station; connections = c ∷ s.connections }
attached c s (station, some refusal) = s

abbrev pub received : ℕ → ℕ → Server → Option (ℕ × List ℤ) → Server
received now c s none = leave c s
received now c s (some (seq, ticks)) = record s { station = on_action now seq ticks s.station }

-- A message of a connection at a time. Only a new connection says hello, and only one that has
-- attached is received from.
pub handle : ℕ → ℕ → Event → Server → Server
unfolding leave parse_action
handle now c (hello is_compatible) s =
    let served = attached c s (try_attach now c s.station) in
    if is_open c s.connections then s else if is_compatible then served else s
handle now c (action frame) s =
    let served = received now c s (parse_action frame) in
    if is_open c s.connections then served else s
handle now c unknown s = s
handle now c bye s = let ended = leave c s in if is_open c s.connections then ended else s

unfoldable pub step : Params → Step → Server → Server
unfolding handle
step p (message now c event) s = handle now c event s
step p (controlled k) s = record s { station = control k s.station }
step p (looped began) s = record s { station = round p began s.station }

unfoldable pub run : Params → List Step → Server → Server
run p [] s = s
run p (x ∷ xs) s = run p xs (step p x s)
