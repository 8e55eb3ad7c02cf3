-- ===== src/Recording/Tests.antt =====
-- recording_session.py: the theorems at concrete inputs.
use lerobot_nexarm.Prelude.{◌≤◌, ◌≡◌, true, List, [], ◌∷◌}
use lerobot_nexarm.Recording.{go, finish, Press, Round, run_manual_session}
use lerobot_nexarm.Recording.Laws.{saves, run_manual_session-saves}

abbrev good_round : Round
good_round = record {
  collecting = record { key = go; at = 2000 } ∷ [];
  has_frames = true;
  saving = record { key = go; at = 2100 } ∷ [];
  resetting = record { key = go; at = 4000 } ∷ [];
}

abbrev last_round : Round
last_round = record good_round { collecting = record { key = finish; at = 6000 } ∷ [] }

abbrev first_key : List Press
first_key = record { key = go; at = 1000 } ∷ []

run_manual_session-saves_example :
    let s = run_manual_session 5 first_key (good_round ∷ last_round ∷ []) in
    (saves s.actions ≤ 5) × (s.recorded ≡ saves s.actions)
run_manual_session-saves_example =
    run_manual_session-saves 5 first_key (good_round ∷ last_round ∷ [])
