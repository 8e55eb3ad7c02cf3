-- ===== src/Runners/Tests.antt =====
-- remote.py, local_runner.py: the theorems at concrete inputs.
use lerobot_nexarm.Prelude.{
  ◌+◌, drop, ℕ, ◌≡◌, inl, inr, refl, true, false, List, [], ◌∷◌, none, some, arith, if◌then◌else◌,
}
use lerobot_nexarm.Prelude.Texts.{Text, codes}
use lerobot_nexarm.Runners.Remote.{running, done, Poll, follow, new_following}
use lerobot_nexarm.Runners.Remote.Complete.{IsEnd, follow-IsWhole}
use lerobot_nexarm.Runners.Local.{
  only, Call, call, starts, cancels, finishes, call_all, finish, was_cancelled, ok, has,
}
use lerobot_nexarm.Runners.Command.{
  TrainRequest, validate_extra_args, option, name_of, train_options, build_train_command,
}
use lerobot_nexarm.Runners.Command.Laws.{settings, build_train_command-settings}
use lerobot_nexarm.Runners.Local.Laws.{reaches, idle, finish-reaches}

-- A poll, one whose metrics fail after its log was taken, and the last.
abbrev some_polls : List (Poll ℕ ℕ)
some_polls =
    record {
      is_cancelled = false;
      accepts_cancel = true;
      state = some running;
      logs = some (1 ∷ []);
      metrics = some [];
    }
    ∷ record {
      is_cancelled = false;
      accepts_cancel = true;
      state = some running;
      logs = some (1 ∷ 2 ∷ []);
      metrics = none;
    }
    ∷ record {
      is_cancelled = true;
      accepts_cancel = true;
      state = some done;
      logs = some (1 ∷ 2 ∷ 3 ∷ []);
      metrics = some (7 ∷ []);
    }
    ∷ []

follow-IsWhole_example : IsEnd (1 ∷ 2 ∷ 3 ∷ []) (7 ∷ []) (follow some_polls new_following)
follow-IsWhole_example =
    follow-IsWhole (1 ∷ 2 ∷ 3 ∷ []) (7 ∷ []) some_polls new_following
      (
        ((2 ∷ 3 ∷ [], refl), (7 ∷ [], refl), inl refl),
        (
          ((3 ∷ [], refl), (7 ∷ [], refl), inl refl),
          ((([], refl), ([], refl), inr (inr refl, inr refl)), tt),
        ),
      )
      (inr (omega arith, inl (refl, inr (omega arith, tt))))
      ((1 ∷ 2 ∷ 3 ∷ [], refl), refl, (7 ∷ [], refl), refl)

abbrev before : List Call
before = starts 1 ∷ finishes 1 0 ∷ []

abbrev between : List Call
between = starts 2 ∷ cancels 1 ∷ []

before_lem : has 1 (call_all before idle).procs ≡ false
unfolding call
before_lem = refl

finish-reaches_example :
    (finish 1 0 (call_all (starts 1 ∷ between) (call_all before idle))).0
    ≡ (if reaches 1 between then was_cancelled else ok)
finish-reaches_example = finish-reaches 1 0 before between before_lem refl

abbrev one_request : TrainRequest
one_request = record {
  dataset_repo_id = codes "me/pens";
  policy_type = codes "act";
  steps = 5;
  batch_size = 8;
  log_freq = 9;
  save_freq = none;
  job_name = none;
  extra_args = (codes "policy.chunk_size", codes "50") ∷ [];
}

-- A number is printed as one digit.
abbrev one_digit : ℕ → Text
one_digit n = (b'0' + n) ∷ []

one_request_lem : validate_extra_args one_request.extra_args ≡ true
unfolding validate_extra_args
one_request_lem = refl

abbrev one_command : List Text
one_command =
    codes "python"
    ∷ codes "-m"
    ∷ codes "lerobot.scripts.lerobot_train"
    ∷ train_options one_digit (codes "7") (codes "/d") (codes "/out") (some (0 ∷ 2 ∷ []))
        one_request

one_command_lem :
    build_train_command one_digit
      (codes "python")
      (codes "7")
      (codes "/d")
      (codes "/out")
      (only (0 ∷ 2 ∷ []))
      one_request
    ≡ some one_command
unfolding build_train_command
one_command_lem = refl

build_train_command-settings_example :
    (settings (codes "output_dir") (drop 3 one_command)
      ≡ option (codes "output_dir") (codes "/out") ∷ [])
    × (settings (codes "job_name") (drop 3 one_command)
        ≡ option (codes "job_name") (name_of (codes "7") one_request) ∷ [])
build_train_command-settings_example =
    build_train_command-settings one_digit (codes "python") (codes "7") (codes "/d") (codes "/out")
      (only (0 ∷ 2 ∷ [])) one_request one_command one_request_lem one_command_lem
