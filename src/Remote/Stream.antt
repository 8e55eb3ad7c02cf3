-- ===== src/Remote/Stream.antt =====
-- remote_teleop.py: `RemoteOperatorWorker._run` and `_drain`. What the leader, the socket and the
-- clock do in a round is an argument. Times are in milliseconds; of the smoothed round-trip time
-- its samples are kept, newest first.
pub mod Laws
use Prim.Native.String.{String}
use lerobot_nexarm.Prelude.{
  ℕ, suc, ◌-◌, Bool, true, false, List, [], ◌∷◌, Option, none, some, length, drop, ltb, ◌==◌,
  if◌then◌else◌,
}
use lerobot_nexarm.Safety.Limits.{Action, Limit, lookup, soft_limits}

-- The frames that are not echoed yet with the time at which each was sent. A dict of Python keeps
-- the order of insertion, in which the numbers rise.
abbrev pub SentAt : Type 0
SentAt = List (ℕ × ℕ)

-- The texts are those of the station.
pub record Operator : Type 0 where
  pub seq : ℕ
  pub sent_at : SentAt
  pub rtts : List ℕ
  pub station_phase : String
  pub remote_ticks : Action
  pub published : List Action

pub new_operator : Operator
new_operator = record {
  seq = 0;
  sent_at = [];
  rtts = [];
  station_phase = "connecting";
  remote_ticks = [];
  published = [];
}

-- A frame from the station with the fields that it has; `garbled` is no JSON.
pub data Incoming : Type 0 where
  state : Option String → Option Action → Option ℕ → Incoming
  parked other garbled : Incoming

-- The time is that of the answer's arrival.
pub record Received : Type 0 where
  pub at : ℕ
  pub frame : Incoming

-- `recv_fails` is an exception of `recv` other than the timeout that ends a drain.
pub record Turn : Type 0 where
  pub began : ℕ
  pub leader_fails : Bool
  pub send_fails : Bool
  pub received : List Received
  pub recv_fails : Bool

-- Where an exception ends it, `has_failed`.
pub record Streamed : Type 0 where
  pub operator : Operator
  pub has_failed : Bool

unfoldable pub sent_time : ℕ → SentAt → Option ℕ
sent_time seq [] = none
sent_time seq ((s, t) ∷ sent) = if s == seq then some t else sent_time seq sent

unfoldable pub without : ℕ → SentAt → SentAt
without seq [] = []
without seq ((s, t) ∷ sent) =
    let rest = without seq sent in if s == seq then sent else (s, t) ∷ rest

-- `message.get(key, old)`.
abbrev pub field_or : {A : Type 0} → Option A → A → A
field_or none old = old
field_or (some new) old = new

-- The pop of a frame's number, with the sample that it gives.
abbrev pub take_sample : ℕ → ℕ → Option ℕ → Operator → Operator
take_sample at seq none o = o
take_sample at seq (some sent) o = record o {
  sent_at = without seq o.sent_at;
  rtts = (at - sent) ∷ o.rtts;
}

abbrev pub echoed : ℕ → Option ℕ → Operator → Operator
echoed at none o = o
echoed at (some seq) o = take_sample at seq (sent_time seq o.sent_at) o

unfoldable pub has_joints : List Limit → Action → Bool
has_joints [] ticks = true
has_joints (l ∷ ls) ticks =
    let rest = has_joints ls ticks in elim (lookup l.key ticks) [ none ↦ false | some v ↦ rest ]

-- `joint_update_payload` raises a KeyError where a joint is missing.
pub publish : Operator → Streamed
unfolding has_joints
publish o =
    if length o.remote_ticks == 6
    then if has_joints soft_limits o.remote_ticks
      then record {
        operator = record o { published = o.remote_ticks ∷ o.published };
        has_failed = false;
      }
      else record { operator = o; has_failed = true }
    else record { operator = o; has_failed = false }

pub on_state : ℕ → Option String → Option Action → Option ℕ → Operator → Streamed
unfolding publish
on_state at phase ticks seq o = publish (
    echoed at seq (record o {
      station_phase = field_or phase o.station_phase;
      remote_ticks = field_or ticks o.remote_ticks;
    }))

-- One round of `_drain`.
pub on_frame : Received → Operator → Streamed
unfolding on_state
on_frame r o = elim r.frame [
  | state phase ticks seq ↦ on_state r.at phase ticks seq o
  | parked ↦ record { operator = record o { station_phase = "parked" }; has_failed = true }
  | other ↦ record { operator = o; has_failed = false }
  | garbled ↦ record { operator = o; has_failed = true }
]

-- `_drain`, which ends at the timeout or where `recv` raises.
unfoldable pub drain : List Received → Bool → Operator → Streamed
unfolding on_frame
drain [] recv_fails o = record { operator = o; has_failed = recv_fails }
drain (r ∷ received) recv_fails o =
    let first = on_frame r o in
    let rest = drain received recv_fails first.operator in if first.has_failed then first else rest

-- More than 256 unanswered frames are cut down to the last 128.
pub prune : Operator → Operator
prune o = record o {
  sent_at =
      if ltb 256 (length o.sent_at) then drop (length o.sent_at - 128) o.sent_at else o.sent_at;
}

-- `self._sent_at[self._seq] = began`: the number is new.
abbrev pub append_frame : SentAt → ℕ → ℕ → SentAt
append_frame [] seq began = (seq, began) ∷ []
append_frame (frame ∷ sent) seq began = frame ∷ append_frame sent seq began

abbrev pub number_frame : ℕ → Operator → Operator
number_frame began o = record o {
  seq = suc o.seq;
  sent_at = append_frame o.sent_at (suc o.seq) began;
}

abbrev pub failed : Operator → Streamed
failed o = record { operator = o; has_failed = true }

abbrev pub end_round : Streamed → Streamed
end_round s = if s.has_failed then s else record s { operator = prune s.operator }

-- One round of `_run`.
unfoldable pub round : Turn → Operator → Streamed
unfolding prune drain
round t o =
    let numbered = number_frame t.began o in
    let drained = end_round (drain t.received t.recv_fails numbered) in
    if t.leader_fails then failed o else if t.send_fails then failed numbered else drained

-- The rounds until the stop event is set.
unfoldable pub run : List Turn → Operator → Streamed
run [] o = record { operator = o; has_failed = false }
run (t ∷ turns) o =
    let first = round t o in
    let rest = run turns first.operator in if first.has_failed then first else rest
