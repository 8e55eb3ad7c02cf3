-- ===== src/Episodes/Tests.antt =====
-- record.py: the theorems at concrete inputs.
use lerobot_nexarm.Prelude.{ℕ, ◌≡◌, refl, false, List, [], ◌∷◌, arith}
use lerobot_nexarm.Episodes.{Config, Tick, ended, new_recorder, run_session}
use lerobot_nexarm.Episodes.Laws.{quiet}
use lerobot_nexarm.Episodes.Quiet.{IsFree, run_session_uninterrupted}

abbrev two_episodes : Config ℕ
two_episodes = record {
  num_episodes = 2;
  episode_time = 2;
  reset_time = 1;
  save_raises = λ frames. false;
}

abbrev four_rounds : List (Tick ℕ)
four_rounds = quiet 1 1 ∷ quiet 2 1 ∷ quiet 3 1 ∷ quiet 4 2 ∷ []

abbrev six_rounds : List (Tick ℕ)
six_rounds = quiet 1 1 ∷ quiet 2 1 ∷ quiet 3 1 ∷ quiet 4 1 ∷ quiet 5 1 ∷ quiet 6 1 ∷ []

new_recorder-IsFree : IsFree (new_recorder {A = ℕ} 7)
unfolding new_recorder
new_recorder-IsFree = ground arith

run_session_uninterrupted_example :
    ((run_session two_episodes (new_recorder 7) six_rounds).result ≡ ended)
    × ((run_session two_episodes (new_recorder 7) six_rounds).recorder.episodes_recorded ≡ 2)
unfolding new_recorder
run_session_uninterrupted_example =
    run_session_uninterrupted two_episodes (new_recorder 7) six_rounds (omega arith) (ground arith)
      new_recorder-IsFree (λ frames. refl) (omega arith)
