-- ===== src/Remote/Tests.antt =====
-- Remote teleoperation on concrete frames.
use lerobot_nexarm.Prelude.{◌≡◌, refl, true, false, List, [], ◌∷◌, none, some, arith}
use lerobot_nexarm.Prelude.Int.{ℤ, pos}
use lerobot_nexarm.Safety.Limits.{soft_limits}
use lerobot_nexarm.Hosting.{Params, clamp_ticks, new_station, park}
use lerobot_nexarm.Remote.Stream.{Turn, run as stream, new_operator, state}
use lerobot_nexarm.Remote.Stream.Laws.{Tracks, run-Tracks}
use lerobot_nexarm.Remote.Route.{
  Frame, number, Step, message, looped, controlled, hello, action, bye, is_open, parse_action,
  value_at, parse_ticks, step, run,
}
use lerobot_nexarm.Remote.Route.Laws.{IsServed, run-IsServed}
use lerobot_nexarm.Remote.Route.Stale.{taken_over, taken_over-stale}

-- The station echoes the first frame twice.
abbrev turns : List Turn
turns =
    record {
      began = 100;
      leader_fails = false;
      send_fails = false;
      received = [];
      recv_fails = false;
    }
    ∷ record {
      began = 133;
      leader_fails = false;
      send_fails = false;
      received =
          record { at = 140; frame = state (some "engaging") none (some 1) }
          ∷ record { at = 150; frame = state none none (some 1) }
          ∷ [];
      recv_fails = false;
    }
    ∷ []

run-Tracks_example : Tracks (stream turns new_operator)
run-Tracks_example = run-Tracks turns

abbrev station : Params
station = record {
  full_cap = 50;
  silence = 1000;
  soft_start = 1000;
  rest = 2048 ∷ 2048 ∷ 2048 ∷ 2048 ∷ 2048 ∷ 2048 ∷ [];
}

abbrev steps : List Step
steps = message 0 1 (hello true) ∷ looped 10 ∷ controlled park ∷ message 20 1 bye ∷ []

run-IsServed_example :
    IsServed (run station steps (record { station = new_station station; connections = [] }))
run-IsServed_example = run-IsServed station steps

abbrev frame : Frame
frame = record {
  seq = some 1;
  action = some (
      ("shoulder_pan.pos", number (pos 0))
      ∷ ("shoulder_lift.pos", number (pos 2000))
      ∷ ("elbow_flex.pos", number (pos 2000))
      ∷ ("wrist_flex.pos", number (pos 2000))
      ∷ ("wrist_roll.pos", number (pos 2000))
      ∷ ("gripper.pos", number (pos 2000))
      ∷ []);
}

abbrev ticks : List ℤ
ticks = pos 0 ∷ pos 2000 ∷ pos 2000 ∷ pos 2000 ∷ pos 2000 ∷ pos 2000 ∷ []

frame_parse : parse_action frame ≡ some (1, ticks)
unfolding parse_action parse_ticks value_at
frame_parse = refl

taken_over-stale_example :
    let s = taken_over station 1 2 0 1001 1100 in
    let ended = step station (message 1200 1 bye) s in
    let driven = step station (message 1200 1 (action frame)) s in
    (s.station.operator ≡ some 2)
    × (ended.station.operator ≡ none)
    × (is_open 2 ended.connections ≡ true)
    × (driven.station.operator ≡ some 2)
    × (driven.station.target ≡ some (clamp_ticks soft_limits ticks))
taken_over-stale_example =
    taken_over-stale station 1 2 0 1001 1100 1200 frame 1 ticks (ground arith) (omega arith)
      frame_parse
