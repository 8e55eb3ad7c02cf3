-- ===== src/Jobs/Counts.antt =====
-- jobs.py: how many jobs run on a runner and wait for one, and what the mutations do to that.
use Prim.Native.String.{String}
use lerobot_nexarm.Prelude.{
  ℕ, suc, ◌+◌, ◌≤◌, ◌≡◌, ◌≢◌, refl, Bool, true, false, List, [], ◌∷◌, ◌++◌, Option, none, some,
  arith, if◌then◌else◌, length,
}
use lerobot_nexarm.Jobs.{
  JobState, Job, is_queued, is_running, runs_on, waits_for, find, update, any_running, earliest,
  is_first, begin_first, first_id, finish, measured, reloaded, load, exit_state,
}

abbrev pub count : (Job → Bool) → List Job → ℕ
count p [] = 0
count p (j ∷ js) = (if p j then 1 else 0) + count p js

abbrev pub waits : Job → Bool
waits j = is_queued j.state

pub count-append :
    (p : Job → Bool) (js ks : List Job) → count p (js ++ ks) ≡ count p js + count p ks
count-append p [] ks = omega arith
count-append p (j ∷ js) ks = omega (arith, count-append p js ks)

pub count-waits_for : (r : ℕ) (jobs : List Job) → count (waits_for r) jobs ≤ count waits jobs
count-waits_for r [] = ground arith
count-waits_for r (j ∷ js) = ground (arith, count-waits_for r js)

pub count-waits-le : (jobs : List Job) → count waits jobs ≤ length jobs
count-waits-le [] = ground arith
count-waits-le (j ∷ js) = ground (arith, count-waits-le js)

pub any_running-none :
    (r : ℕ) (jobs : List Job) → any_running r jobs ≡ false → count (runs_on r) jobs ≡ 0
any_running-none r [] e = refl
any_running-none r (j ∷ js) e = ground (arith, any_running-none r js)

pub any_running-some :
    (r : ℕ) (jobs : List Job) → any_running r jobs ≡ true → 1 ≤ count (runs_on r) jobs
any_running-some r [] e = ground arith
any_running-some r (j ∷ js) e = ground (arith, any_running-some r js)

pub earliest-none :
    (r : ℕ) (jobs : List Job) → earliest r jobs ≡ none → count (waits_for r) jobs ≡ 0
earliest-none r [] e = refl
earliest-none r (j ∷ js) e = ground (arith, earliest-none r js)

pub earliest-first :
    (r t : ℕ) (jobs : List Job) → earliest r jobs ≡ some t → 1 ≤ count (is_first r t) jobs
earliest-first r t [] e = ground arith
earliest-first r t (j ∷ js) e = ground (arith, earliest-first r t js)

-- Starting the first job that waits for `r` and was created at `t`.
module _ (r t now : ℕ) where
  pub begin_first-runs :
      (jobs : List Job)
      → 1 ≤ count (is_first r t) jobs
      → count (runs_on r) (begin_first r t now jobs) ≡ suc (count (runs_on r) jobs)
  unfolding begin_first
  begin_first-runs [] h = ground arith
  begin_first-runs (j ∷ js) h = ground (arith, begin_first-runs js)

  pub begin_first-runs_other :
      (r' : ℕ) (jobs : List Job)
      → r' ≢ r
      → count (runs_on r') (begin_first r t now jobs) ≡ count (runs_on r') jobs
  unfolding begin_first
  begin_first-runs_other r' [] other = refl
  begin_first-runs_other r' (j ∷ js) other = ground (arith, begin_first-runs_other r' js)

  pub begin_first-waits_for :
      (r' : ℕ) (jobs : List Job)
      → count (waits_for r') (begin_first r t now jobs) ≤ count (waits_for r') jobs
  unfolding begin_first
  begin_first-waits_for r' [] = ground arith
  begin_first-waits_for r' (j ∷ js) = ground (arith, begin_first-waits_for r' js)

  pub begin_first-waits :
      (jobs : List Job)
      → count waits (begin_first r t now jobs) + length (first_id r t jobs) ≡ count waits jobs
  unfolding begin_first
  begin_first-waits [] = refl
  begin_first-waits (j ∷ js) = ground (arith, begin_first-waits js)

abbrev pub IsFinal : JobState → Type 0
IsFinal s = (is_queued s ≡ false) × (is_running s ≡ false)

-- Ending the running job that the table has under `id`.
module _ (id : ℕ) (s : JobState) (final : IsFinal s) (error : Option String) (now : ℕ) where
  pub finish-waits :
      (jobs : List Job) (job : Job)
      → find id jobs ≡ some job
      → is_running job.state ≡ true
      → count waits (update id (finish s error now) jobs) ≡ count waits jobs
  unfolding finish
  finish-waits [] job e h = ground arith
  finish-waits (j ∷ js) job e h = ground (arith, finish-waits js job)

  pub finish-waits_for :
      (r : ℕ) (jobs : List Job)
      → count (waits_for r) (update id (finish s error now) jobs) ≤ count (waits_for r) jobs
  unfolding finish
  finish-waits_for r [] = ground arith
  finish-waits_for r (j ∷ js) = ground (arith, finish-waits_for r js)

  pub finish-runs :
      (r : ℕ) (jobs : List Job)
      → count (runs_on r) (update id (finish s error now) jobs) ≤ count (runs_on r) jobs
  unfolding finish
  finish-runs r [] = ground arith
  finish-runs r (j ∷ js) = ground (arith, finish-runs r js)

  pub finish-runs_queued :
      (r : ℕ) (jobs : List Job) (job : Job)
      → find id jobs ≡ some job
      → is_queued job.state ≡ true
      → count (runs_on r) (update id (finish s error now) jobs) ≡ count (runs_on r) jobs
  unfolding finish
  finish-runs_queued r [] job e h = ground arith
  finish-runs_queued r (j ∷ js) job e h = ground (arith, finish-runs_queued r js job)

pub exit_state-IsFinal : (error : Option String) → IsFinal (exit_state error)
unfolding exit_state
exit_state-IsFinal error = ground arith

-- A metric moves no job, and after a load none is active.
module _ (id : ℕ) (step : Option ℕ) (loss lr : Option String) where
  pub measured-runs :
      (r : ℕ) (jobs : List Job)
      → count (runs_on r) (update id (measured step loss lr) jobs) ≡ count (runs_on r) jobs
  unfolding measured
  measured-runs r [] = refl
  measured-runs r (j ∷ js) = ground (arith, measured-runs r js)

  pub measured-waits_for :
      (r : ℕ) (jobs : List Job)
      → count (waits_for r) (update id (measured step loss lr) jobs) ≡ count (waits_for r) jobs
  unfolding measured
  measured-waits_for r [] = refl
  measured-waits_for r (j ∷ js) = ground (arith, measured-waits_for r js)

pub load-runs : (r now : ℕ) (jobs : List Job) → count (runs_on r) (load now jobs) ≡ 0
unfolding load reloaded
load-runs r now [] = refl
load-runs r now (j ∷ js) = ground (arith, load-runs r now js)

pub load-waits_for : (r now : ℕ) (jobs : List Job) → count (waits_for r) (load now jobs) ≡ 0
unfolding load reloaded
load-waits_for r now [] = refl
load-waits_for r now (j ∷ js) = ground (arith, load-waits_for r now js)
