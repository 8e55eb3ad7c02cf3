-- ===== src/Runners/Command/Laws.antt =====
-- local_runner.py, jobs.py: the extra arguments of a job cannot move its output.
use lerobot_nexarm.Prelude.{
  ℕ, ◌≡◌, inl, inr, refl, ap, ◌∙◌, Bool, true, false, ◌&&◌, List, [], ◌∷◌, ◌++◌, Option, none, some,
  ◌==◌, drop, if◌then◌else◌, arith, Bool-cases,
}
use lerobot_nexarm.Prelude.Texts.{Text, codes}
use lerobot_nexarm.Runners.Local.{Kept, every, no_episode, only}
use lerobot_nexarm.Runners.Command.{
  TrainRequest, match_key, is_key, first_part, is_reserved, validate_extra_args, option,
  extra_options, save_option, episodes_option, name_of, train_options, build_train_command,
}

abbrev pub starts_with : Text → Text → Bool
starts_with [] text = true
starts_with (p ∷ ps) [] = false
starts_with (p ∷ ps) (c ∷ cs) = p == c && starts_with ps cs

-- The words of a command that set a key.
pub settings : Text → List Text → List Text
settings key [] = []
settings key (w ∷ ws) =
    let rest = settings key ws in
    if starts_with (codes "--" ++ (key ++ b'=' ∷ [])) w then w ∷ rest else rest

settings-append :
    (key : Text) (ws vs : List Text) → settings key (ws ++ vs) ≡ settings key ws ++ settings key vs
unfolding settings
settings-append key [] vs = refl
settings-append key (w ∷ ws) vs = ground (arith, settings-append key ws vs)

abbrev pub has_equals : Text → Bool
has_equals [] = false
has_equals (c ∷ cs) = if c == b'=' then true else has_equals cs

starts_with-key :
    (k key value : Text)
    → has_equals k ≡ false
    → has_equals key ≡ false
    → starts_with (k ++ b'=' ∷ []) (key ++ (b'=' ∷ value)) ≡ true
    → k ≡ key
starts_with-key [] [] v a b h = refl
starts_with-key [] (c ∷ cs) v a b h = ground arith
starts_with-key (p ∷ ps) [] v a b h = ground arith
starts_with-key (p ∷ ps) (c ∷ cs) v a b h = ground (arith, starts_with-key ps cs v)

match_key-has_equals : (key : Text) → match_key key ≡ true → has_equals key ≡ false
match_key-has_equals [] h = refl
match_key-has_equals (c ∷ []) h = ground arith
match_key-has_equals (c ∷ d ∷ cs) h = ground (arith, match_key-has_equals (d ∷ cs))

is_key-has_equals : (key : Text) → is_key key ≡ true → has_equals key ≡ false
unfolding is_key
is_key-has_equals [] h = refl
is_key-has_equals (c ∷ cs) h = ground (arith, match_key-has_equals (c ∷ cs))

extra-settings :
    (k : Text) (args : List (Text × Text))
    → has_equals k ≡ false
    → is_reserved (first_part k) ≡ true
    → validate_extra_args args ≡ true
    → settings k (extra_options args) ≡ []
unfolding settings validate_extra_args
extra-settings k [] e r h = refl
extra-settings k ((key, value) ∷ args) e r h =
    elim (Bool-cases (starts_with (k ++ b'=' ∷ []) (key ++ (b'=' ∷ value)))) [
      | inl s ↦
          let same : k ≡ key =
            starts_with-key k key value e (is_key-has_equals key (ground arith)) s in
          absurd (ground (arith, ap (λ t. is_reserved (first_part t)) same))
      | inr s ↦ ground (arith, extra-settings k args e r)
    ]

save-settings :
    (str : ℕ → Text) (n : Option ℕ)
    → (settings (codes "output_dir") (save_option str n) ≡ [])
      × (settings (codes "job_name") (save_option str n) ≡ [])
unfolding settings
save-settings str none = (refl, refl)
save-settings str (some n) = elim (Bool-cases (n == 0)) [
  | inl e ↦ rw e (refl, refl)
  | inr e ↦ rw e (refl, refl)
]

episodes-settings :
    (str : ℕ → Text) (es : Option (List ℕ))
    → (settings (codes "output_dir") (episodes_option str es) ≡ [])
      × (settings (codes "job_name") (episodes_option str es) ≡ [])
unfolding settings
episodes-settings str none = (refl, refl)
episodes-settings str (some es) = (refl, refl)

-- The options behind the named ones set neither key.
rest-settings :
    (str : ℕ → Text) (es : Option (List ℕ)) (r : TrainRequest) (k : Text)
    → validate_extra_args r.extra_args ≡ true
    → has_equals k ≡ false
    → is_reserved (first_part k) ≡ true
    → settings k (save_option str r.save_freq) ≡ []
    → settings k (episodes_option str es) ≡ []
    → settings k
        (save_option str r.save_freq ++ (episodes_option str es ++ extra_options r.extra_args))
      ≡ []
rest-settings str es r k v e p s t =
    settings-append k (save_option str r.save_freq)
      (episodes_option str es ++ extra_options r.extra_args)
    ∙ rw s (
        settings-append k (episodes_option str es) (extra_options r.extra_args)
        ∙ rw t (extra-settings k r.extra_args e p v))

train_options-settings :
    (str : ℕ → Text) (id dataset_root output_dir : Text) (kept : Option (List ℕ)) (r : TrainRequest)
    → validate_extra_args r.extra_args ≡ true
    → (settings (codes "output_dir") (train_options str id dataset_root output_dir kept r)
        ≡ option (codes "output_dir") output_dir ∷ [])
      × (settings (codes "job_name") (train_options str id dataset_root output_dir kept r)
          ≡ option (codes "job_name") (name_of id r) ∷ [])
unfolding settings train_options
train_options-settings str id dataset_root output_dir kept r v =
    let save = save-settings str r.save_freq in
    let episodes = episodes-settings str kept in
    (
      ap (◌∷◌ (option (codes "output_dir") output_dir))
          (rest-settings str kept r (codes "output_dir") v refl refl save.0 episodes.0),
      ap (◌∷◌ (option (codes "job_name") (name_of id r)))
          (rest-settings str kept r (codes "job_name") v refl refl save.1 episodes.1),
    )

abbrev pub or_nil : Option (List Text) → List Text
or_nil none = []
or_nil (some command) = command

-- The options, behind the module, of the command of a job whose extra arguments are allowed set the
-- output directory once, to the engine's, and the job's name once.
pub build_train_command-settings :
    (str : ℕ → Text) (executable id dataset_root output_dir : Text) (kept : Kept) (r : TrainRequest)
    (command : List Text)
    → validate_extra_args r.extra_args ≡ true
    → build_train_command str executable id dataset_root output_dir kept r ≡ some command
    → (settings (codes "output_dir") (drop 3 command) ≡ option (codes "output_dir") output_dir ∷ [])
      × (settings (codes "job_name") (drop 3 command)
          ≡ option (codes "job_name") (name_of id r) ∷ [])
unfolding build_train_command
build_train_command-settings str executable id dataset_root output_dir every r command v e =
    rw (← ap or_nil e) (train_options-settings str id dataset_root output_dir none r v)
build_train_command-settings str executable id dataset_root output_dir no_episode r command v e =
    ground arith
build_train_command-settings str executable id dataset_root output_dir (only es) r command v e =
    rw (← ap or_nil e) (train_options-settings str id dataset_root output_dir (some es) r v)
