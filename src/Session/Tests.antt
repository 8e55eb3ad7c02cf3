-- ===== src/Session/Tests.antt =====
-- session.py: the theorems at concrete inputs.
use lerobot_nexarm.Prelude.{◌≡◌, ◌≢◌, refl, true, false, List, [], ◌∷◌, none, some}
use lerobot_nexarm.Session.{stopping, teleoperation, replay, SessionManager, Worker}
use lerobot_nexarm.Session.Laws.{Call, starts, stops, ticks, run, IsValid, run-IsValid}
use lerobot_nexarm.Session.Life.{
  Life, claimed_life, claim, then_step, enter_start, in_start, in_stop, in_reap, by_start, marked,
  start_done,
}
use lerobot_nexarm.Session.Life.Overlap.{no_overlap}
use lerobot_nexarm.Session.Life.Release.{Leads, start-overtaken}

abbrev good_worker : Worker
good_worker = record { start_raises = none; stop_raises = none; error = none; alive = true }

-- Its stop raises.
abbrev bad_worker : Worker
bad_worker = record { start_raises = none; stop_raises = some "bus"; error = none; alive = false }

abbrev empty_manager : SessionManager
empty_manager = record { lease_timeout = 5; live = none; last = none; events = [] }

abbrev calls : List Call
calls =
    starts true teleoperation "arm" 1 100 0 good_worker
    ∷ ticks 9 bad_worker
    ∷ starts true replay "arm" 2 110 10 good_worker
    ∷ stops 2 "user" good_worker
    ∷ []

run-IsValid_example : IsValid (run empty_manager calls)
run-IsValid_example = run-IsValid empty_manager calls (record { live_runs = tt; last_ended = tt })

abbrev starting_life : Life
starting_life = record claimed_life { starter = in_start; start_lock = by_start }

no_overlap_example : (starting_life.stopper ≢ in_stop) × (starting_life.reaper ≢ in_reap)
no_overlap_example = no_overlap (then_step claim (enter_start refl refl)) refl

-- The session of a start that a stop has marked.
abbrev marked_life : Life
marked_life = record claimed_life { stopper = marked; state = stopping }

start-overtaken_example :
    (l' : Life) × Leads marked_life l'
    × (l'.is_live ≡ false)
    × (l'.starter ≡ start_done)
    × (l'.is_up ≡ true)
start-overtaken_example = start-overtaken marked_life refl refl refl refl
