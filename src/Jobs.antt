-- ===== src/Jobs.antt =====
-- packages/nexarm_service/src/nexarm_service/jobs.py: `JobManager`, each call run to its end. The
-- job table is the list of jobs in the order of the dict; a job carries its entry of
-- `_steps_logged`. Runner names, ids and times are numbers, a loss or a learning rate its text.
-- Files, logs and events are left out.
pub mod Counts
pub mod Schedule
pub mod Calls
mod Tests
use Prim.Native.String.{String, ◌++◌ as str_append}
use text.Mathlib.Text.{◌==◌ as str_eq}
use lerobot_nexarm.Prelude.{
  ℕ, zero, suc, ◌+◌, ◌*◌, min, Bool, true, false, not, ◌&&◌, List, [], ◌∷◌, ◌++◌, map, Option, none,
  some, ◌==◌, if◌then◌else◌, length,
}

pub data JobState : Type 0 where
  queued running done failed cancelled : JobState

pub record Job : Type 0 where
  pub id : ℕ
  pub runner : ℕ
  pub state : JobState
  pub log_freq : ℕ
  pub created_at : ℕ
  pub started_at : Option ℕ
  pub finished_at : Option ℕ
  pub error : Option String
  pub step : ℕ
  pub total_steps : ℕ
  pub loss : Option String
  pub lr : Option String
  pub steps_logged : ℕ

-- The runners' names, and the exception of a runner's `start` for the job with an id. A runner
-- reports the end of a job later, from a thread of its own.
pub record Runners : Type 0 where
  pub names : List ℕ
  pub start_raises : ℕ → Option String

abbrev pub is_queued : JobState → Bool
is_queued queued = true
is_queued _ = false

abbrev pub is_running : JobState → Bool
is_running running = true
is_running _ = false

abbrev pub runs_on : ℕ → Job → Bool
runs_on r j = is_running j.state && (j.runner == r)

abbrev pub waits_for : ℕ → Job → Bool
waits_for r j = is_queued j.state && (j.runner == r)

abbrev pub find : ℕ → List Job → Option Job
find id [] = none
find id (j ∷ js) = if j.id == id then some j else find id js

-- The mutation of the job that the table has under an id.
abbrev pub update : ℕ → (Job → Job) → List Job → List Job
update id f [] = []
update id f (j ∷ js) = if j.id == id then f j ∷ js else j ∷ update id f js

abbrev pub any_running : ℕ → List Job → Bool
any_running r [] = false
any_running r (j ∷ js) = if runs_on r j then true else any_running r js

-- The least `created_at` of the jobs that wait for a runner; the sort is stable, so the first job
-- with that time is the one that starts.
abbrev pub earliest : ℕ → List Job → Option ℕ
earliest r [] = none
earliest r (j ∷ js) =
    let rest = earliest r js in
    if waits_for r j
    then some (elim rest [ none ↦ j.created_at | some t ↦ min j.created_at t ])
    else rest

abbrev pub is_first : ℕ → ℕ → Job → Bool
is_first r t j = waits_for r j && (j.created_at == t)

pub started : ℕ → Job → Job
started now job = record job { state = running; started_at = some now; steps_logged = 0 }

pub begin_first : ℕ → ℕ → ℕ → List Job → List Job
unfolding started
begin_first r t now [] = []
begin_first r t now (j ∷ js) =
    if is_first r t j then started now j ∷ js else j ∷ begin_first r t now js

abbrev pub first_id : ℕ → ℕ → List Job → List ℕ
first_id r t [] = []
first_id r t (j ∷ js) = if is_first r t j then j.id ∷ [] else first_id r t js

-- `_schedule`, the part under the lock, for one runner and for each of them.
pub claim_one : ℕ → ℕ → List Job → List Job × List ℕ
unfolding begin_first
claim_one r now jobs = if any_running r jobs then (jobs, []) else elim (earliest r jobs) [
  | none ↦ (jobs, [])
  | some t ↦ (begin_first r t now jobs, first_id r t jobs)
]

pub claim_all : List ℕ → ℕ → List Job → List Job × List ℕ
unfolding claim_one
claim_all [] now jobs = (jobs, [])
claim_all (r ∷ rs) now jobs =
    let one = claim_one r now jobs in let rest = claim_all rs now one.0 in (rest.0, one.1 ++ rest.1)

pub finish : JobState → Option String → ℕ → Job → Job
finish state error now job = record job { state = state; error = error; finished_at = some now }

abbrev pub truthy : Option String → Bool
truthy none = false
truthy (some s) = not (str_eq s "")

abbrev pub is_cancelled : Option String → Bool
is_cancelled none = false
is_cancelled (some s) = str_eq s "cancelled"

pub exit_state : Option String → JobState
exit_state error = if is_cancelled error then cancelled else if truthy error then failed else done

-- `_on_exit`, over the `_schedule` that it calls.
pub exit_then : (List Job → List Job) → ℕ → Option String → ℕ → List Job → List Job
unfolding finish exit_state
exit_then again id error now jobs = elim (find id jobs) [
  | none ↦ jobs
  | some job ↦
      if is_running job.state
      then again (
          update id (finish (exit_state error) (if is_cancelled error then none else error) now)
            jobs)
      else jobs
]

-- The loop of `_schedule` that starts the claimed jobs.
pub launch : (List Job → List Job) → (ℕ → Option String) → ℕ → List ℕ → List Job → List Job
unfolding exit_then
launch again start_raises now [] jobs = jobs
launch again start_raises now (id ∷ ids) jobs =
    launch again start_raises now ids (elim (start_raises id) [
      | none ↦ jobs
      | some exc ↦ exit_then again id (some (str_append "could not start: " exc)) now jobs
    ])

-- `_schedule`. Each round of its recursion ends a job that was queued, so that as many rounds as
-- there are jobs are enough.
pub schedule : ℕ → Runners → ℕ → List Job → List Job
unfolding launch claim_all
schedule zero rs now jobs = jobs
schedule (suc n) rs now jobs =
    let claimed = claim_all rs.names now jobs in
    launch (schedule n rs now) rs.start_raises now claimed.1 claimed.0

pub on_exit : Runners → ℕ → Option String → ℕ → List Job → List Job
unfolding schedule
on_exit rs id error now jobs = exit_then (schedule (length jobs) rs now) id error now jobs

abbrev pub has_runner : ℕ → List ℕ → Bool
has_runner r [] = false
has_runner r (x ∷ xs) = if x == r then true else has_runner r xs

pub new_job : ℕ → ℕ → ℕ → ℕ → ℕ → Job
new_job id runner steps log_freq now = record {
  id = id;
  runner = runner;
  state = queued;
  log_freq = log_freq;
  created_at = now;
  started_at = none;
  finished_at = none;
  error = none;
  step = 0;
  total_steps = steps;
  loss = none;
  lr = none;
  steps_logged = 0;
}

-- `submit` of a request with allowed arguments; a new id is one that the table has not.
pub submit : Runners → ℕ → ℕ → ℕ → ℕ → ℕ → List Job → List Job
unfolding schedule new_job
submit rs id runner steps log_freq now jobs =
    if has_runner runner rs.names
    then schedule (suc (length jobs)) rs now (jobs ++ new_job id runner steps log_freq now ∷ [])
    else jobs

-- `cancel`, up to the call of the runner's own `cancel` for a running job.
pub cancel : ℕ → ℕ → List Job → List Job
unfolding finish
cancel id now jobs = elim (find id jobs) [
  | none ↦ jobs
  | some job ↦ if is_queued job.state then update id (finish cancelled none now) jobs else jobs
]

abbrev pub or_else : Option String → Option String → Option String
or_else none d = d
or_else (some s) d = some s

-- The job after `_on_metric`, with the step that a runner gives or none.
pub measured : Option ℕ → Option String → Option String → Job → Job
measured step loss lr job =
    let logged : ℕ = elim step [ none ↦ suc job.steps_logged | some s ↦ job.steps_logged ] in
    record job {
      steps_logged = logged;
      step = elim step [ none ↦ min (logged * job.log_freq) job.total_steps | some s ↦ s ];
      loss = or_else loss job.loss;
      lr = or_else lr job.lr;
    }

pub on_metric : ℕ → Option ℕ → Option String → Option String → List Job → List Job
unfolding measured
on_metric id step loss lr jobs = update id (measured step loss lr) jobs

-- `_load` of the table that an earlier process saved.
pub reloaded : ℕ → Job → Job
reloaded now job =
    if is_queued job.state
    then record job {
      state = failed;
      error = some "engine stopped while the job was active";
      finished_at = some now;
    }
    else if is_running job.state
    then record job {
      state = failed;
      error = some "engine stopped while the job was active";
      finished_at = some now;
    }
    else job

pub load : ℕ → List Job → List Job
unfolding reloaded
load now jobs = map (reloaded now) jobs
