-- ===== src/Runners/Command.antt =====
-- packages/nexarm_service/src/nexarm_service: the command line of a training, build_train_command of
-- local_runner.py, with the check of the extra arguments in jobs.py. Printing a number is Python's,
-- so a parameter.
pub mod Laws
use lerobot_nexarm.Prelude.{
  ℕ, zero, suc, ◌+◌, min, Bool, true, false, not, ◌&&◌, ◌||◌, List, [], ◌∷◌, ◌++◌, Option, none,
  some, ltb, leb, ◌==◌, if◌then◌else◌,
}
use lerobot_nexarm.Prelude.Texts.{Text, codes, same_text}
use lerobot_nexarm.Runners.Local.{Kept, every, no_episode, only}

pub record TrainRequest : Type 0 where
  pub dataset_repo_id : Text
  pub policy_type : Text
  pub steps : ℕ
  pub batch_size : ℕ
  pub log_freq : ℕ
  pub save_freq : Option ℕ
  pub job_name : Option Text
  pub extra_args : List (Text × Text)

abbrev pub is_between : ℕ → ℕ → ℕ → Bool
is_between a z c = leb a c && leb c z

abbrev pub in_key : ℕ → Bool
in_key c =
    is_between b'A' b'Z' c
    || is_between b'a' b'z' c
    || is_between b'0' b'9' c
    || c == b'_'
    || c == b'.'

-- The rest of `_ARG_KEY_RE`: characters of a key, and a line feed at most at the end.
abbrev pub match_key : Text → Bool
match_key [] = true
match_key (c ∷ []) = in_key c || c == 10
match_key (c ∷ d ∷ cs) = in_key c && match_key (d ∷ cs)

pub is_key : Text → Bool
is_key [] = false
is_key (c ∷ cs) = in_key c && match_key (c ∷ cs)

abbrev pub has_line_feed : Text → Bool
has_line_feed [] = false
has_line_feed (c ∷ cs) = if c == 10 then true else has_line_feed cs

-- `key.split(".")[0]`.
abbrev pub first_part : Text → Text
first_part [] = []
first_part (c ∷ cs) = if c == b'.' then [] else c ∷ first_part cs

abbrev pub is_reserved : Text → Bool
is_reserved part = same_text (codes "output_dir") part || same_text (codes "job_name") part

abbrev pub is_allowed : Text × Text → Bool
unfolding is_key
is_allowed a = is_key a.0 && not (has_line_feed a.1) && not (is_reserved (first_part a.0))

-- False for the `ValueError`.
unfoldable pub validate_extra_args : List (Text × Text) → Bool
unfolding is_allowed
validate_extra_args [] = true
validate_extra_args (a ∷ args) = is_allowed a && validate_extra_args args

abbrev pub option : Text → Text → Text
option key value = codes "--" ++ (key ++ (b'=' ∷ value))

abbrev pub join : (ℕ → Text) → List ℕ → Text
join str [] = []
join str (e ∷ []) = str e
join str (e ∷ f ∷ es) = str e ++ (b',' ∷ join str (f ∷ es))

abbrev pub extra_options : List (Text × Text) → List Text
extra_options [] = []
extra_options ((k, v) ∷ args) = option k v ∷ extra_options args

abbrev pub save_option : (ℕ → Text) → Option ℕ → List Text
save_option str none = []
save_option str (some n) = if n == 0 then [] else option (codes "save_freq") (str n) ∷ []

abbrev pub episodes_option : (ℕ → Text) → Option (List ℕ) → List Text
episodes_option str none = []
episodes_option str (some es) =
    option (codes "dataset.episodes") (b'[' ∷ join str es ++ b']' ∷ []) ∷ []

-- An empty job name is replaced, too.
abbrev pub name_of : Text → TrainRequest → Text
name_of id r =
    let other : Text = r.policy_type ++ (b'_' ∷ id) in
    elim r.job_name [ none ↦ other | some name ↦ elim name [ [] ↦ other | c ∷ cs ↦ c ∷ cs ] ]

-- The options behind `python -m lerobot.scripts.lerobot_train`, with the episodes that are kept.
pub train_options : (ℕ → Text) → Text → Text → Text → Option (List ℕ) → TrainRequest → List Text
train_options str id dataset_root output_dir kept r =
    option (codes "dataset.repo_id") r.dataset_repo_id
    ∷ option (codes "dataset.root") dataset_root
    ∷ option (codes "policy.type") r.policy_type
    ∷ option (codes "policy.push_to_hub") (codes "false")
    ∷ option (codes "wandb.enable") (codes "false")
    ∷ option (codes "output_dir") output_dir
    ∷ option (codes "job_name") (name_of id r)
    ∷ option (codes "steps") (str r.steps)
    ∷ option (codes "batch_size") (str r.batch_size)
    ∷ option (codes "log_freq") (str (min r.log_freq r.steps))
    ∷ (save_option str r.save_freq ++ (episodes_option str kept ++ extra_options r.extra_args))

-- None for the `ValueError` of a job without episodes.
unfoldable pub build_train_command :
    (ℕ → Text) → Text → Text → Text → Text → Kept → TrainRequest → Option (List Text)
unfolding train_options
build_train_command str executable id dataset_root output_dir kept r =
    let command : Option (List ℕ) → List Text = λ es.
      executable
      ∷ codes "-m"
      ∷ codes "lerobot.scripts.lerobot_train"
      ∷ train_options str id dataset_root output_dir es r in
    elim kept [
      | every ↦ some (command none)
      | only es ↦ some (command (some es))
      | no_episode ↦ none
    ]
