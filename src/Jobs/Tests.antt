-- ===== src/Jobs/Tests.antt =====
-- jobs.py: the theorems at concrete inputs.
use lerobot_nexarm.Prelude.{refl, List, [], ◌∷◌, none, some, arith, inr, ◌==◌, if◌then◌else◌}
use lerobot_nexarm.Jobs.{Runners}
use lerobot_nexarm.Jobs.Calls.{
  IsScheduled, Call, submits, cancels, exits, restarts, run, run-IsScheduled,
}

-- The start of job 2 raises.
abbrev two_runners : Runners
two_runners = record {
  names = 0 ∷ 1 ∷ [];
  start_raises = λ id. if id == 2 then some "no server" else none;
}

abbrev calls : List Call
calls =
    submits 1 0 1000 200 10
    ∷ submits 2 1 1000 200 11
    ∷ submits 3 0 1000 200 12
    ∷ exits 1 none 13
    ∷ cancels 3 14
    ∷ restarts 15
    ∷ []

run-IsScheduled_example : IsScheduled (0 ∷ 1 ∷ []) (run two_runners [] calls)
run-IsScheduled_example =
    run-IsScheduled two_runners [] calls
      (record { one_each = λ r. omega arith; all_served = (inr refl, (inr refl, tt)) })
