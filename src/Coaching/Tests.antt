-- ===== src/Coaching/Tests.antt =====
-- coaching.py: the theorems at concrete inputs.
use lerobot_nexarm.Prelude.{◌≡◌, refl, true, false, [], ◌∷◌, some}
use lerobot_nexarm.Coaching.{
  Phase, autonomous, paused, correcting, Transition, pause_resume, correction, takeover, runs,
  Coach, pause, correct, control, carry_out,
}
use lerobot_nexarm.Coaching.Laws.{IsToggling, control-carry_out}

abbrev toggle : Transition → Phase → Phase
toggle pause_resume autonomous = paused
toggle pause_resume paused = autonomous
toggle pause_resume correcting = correcting
toggle correction autonomous = autonomous
toggle correction paused = correcting
toggle correction correcting = paused

toggle-IsToggling : IsToggling toggle
toggle-IsToggling = record { pauses = refl; resumes = refl; corrects = refl; ends = refl }

abbrev driving : Coach
driving = record {
  has_strategy = true;
  phase = autonomous;
  is_holding = false;
  discard_next = false;
  discarded = 0;
  corrections = 0;
  num_episodes = 10;
  is_chained = false;
  stops_recording = false;
}

takes_over : (control takeover driving).1 ≡ runs (pause ∷ correct ∷ []) false
unfolding control
takes_over = refl

control-carry_out_example : carry_out toggle (pause ∷ correct ∷ []) autonomous ≡ some correcting
control-carry_out_example =
    control-carry_out toggle toggle-IsToggling takeover driving (pause ∷ correct ∷ []) false
      takes_over
