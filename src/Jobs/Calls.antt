-- ===== src/Jobs/Calls.antt =====
-- jobs.py: what holds of the table between two calls of the manager.
use Prim.Native.String.{String, ◌++◌ as str_append}
use lerobot_nexarm.Prelude.{
  ℕ, zero, suc, ◌+◌, ◌≤◌, ◌≡◌, refl, inl, inr, List, [], ◌∷◌, ◌++◌, Option, none, some, arith,
  if◌then◌else◌, length, Bool-cases, Option-cases,
}
use lerobot_nexarm.Jobs.{
  Job, Runners, is_queued, is_running, runs_on, waits_for, find, update, claim_all, finish,
  cancelled, exit_state, exit_then, launch, schedule, is_cancelled, on_exit, submit, cancel,
  on_metric, load, has_runner, new_job, measured,
}
use lerobot_nexarm.Jobs.Counts.{
  count, waits, count-append, count-waits_for, count-waits-le, finish-waits, finish-waits_for,
  finish-runs, finish-runs_queued, IsFinal, exit_state-IsFinal, measured-runs, measured-waits_for,
  load-runs, load-waits_for,
}
use lerobot_nexarm.Jobs.Schedule.{
  OneEach, AllServed, claim_all-OneEach, claim_all-AllServed, claim_all-balance, IsProgress,
  AllServed-progress,
}

-- Each runner has at most one running job, and none waits for a runner of the list that is idle.
pub record IsScheduled (names : List ℕ) (jobs : List Job) : Type 0 where
  pub one_each : OneEach jobs
  pub all_served : AllServed names jobs

pub record Settles (names : List ℕ) (before after : List Job) : Type 0 where
  pub scheduled : IsScheduled names after
  pub fewer : count waits after ≤ count waits before

all_served :
    (names : List ℕ) (jobs : List Job)
    → ((r : ℕ) → count (waits_for r) jobs ≡ 0)
    → AllServed names jobs
all_served [] jobs none_wait = tt
all_served (r ∷ rs) jobs none_wait = (inr (none_wait r), all_served rs jobs none_wait)

-- Over a scheduler that is right while at most `n` jobs wait.
module _ (names : List ℕ) (n : ℕ) (again : List Job → List Job)
    (settles : (js : List Job)
      → count waits js ≤ n
      → OneEach js
      → Settles names js (again js)) where
  exit_then-Settles :
      (id : ℕ) (error : Option String) (now : ℕ) (jobs : List Job)
      → count waits jobs ≤ n
      → IsScheduled names jobs
      → Settles names jobs (exit_then again id error now jobs)
  unfolding exit_then
  exit_then-Settles id error now jobs few v = elim (Option-cases (find id jobs)) [
    | inl e ↦ rw (exit_then, e) (record { scheduled = v; fewer = omega arith })
    | inr (job, e) ↦ elim (Bool-cases (is_running job.state)) [
      | inr h ↦ rw (exit_then, e, h) (record { scheduled = v; fewer = omega arith })
      | inl h ↦
          let s = exit_state error in
          let final = exit_state-IsFinal error in
          let shown = if is_cancelled error then none else error in
          let same = finish-waits id s final shown now jobs job e h in
          let after = settles (update id (finish s shown now) jobs) (omega arith) (λ r.
            let a = finish-runs id s final shown now r jobs in
            let b = v.one_each r in omega arith) in
          let less = after.fewer in
          rw (exit_then, e, h) (record { scheduled = after.scheduled; fewer = omega arith })
    ]
  ]

  launch-Settles :
      (start_raises : ℕ → Option String) (now : ℕ) (ids : List ℕ) (jobs : List Job)
      → count waits jobs + length ids ≤ suc n
      → IsScheduled names jobs
      → Settles names jobs (launch again start_raises now ids jobs)
  unfolding launch
  launch-Settles start_raises now [] jobs few v = record { scheduled = v; fewer = omega arith }
  launch-Settles start_raises now (id ∷ ids) jobs few v = elim (Option-cases (start_raises id)) [
    | inl e ↦ rw e (launch-Settles start_raises now ids jobs (omega arith) v)
    | inr (exc, e) ↦
        let error = some (str_append "could not start: " exc) in
        let one = exit_then-Settles id error now jobs (omega arith) v in
        let less = one.fewer in
        let rest =
          launch-Settles start_raises now ids (exit_then again id error now jobs) (omega arith)
            one.scheduled in
        let less_rest = rest.fewer in
        rw e (record { scheduled = rest.scheduled; fewer = omega arith })
  ]

-- While at most `n` jobs wait, `n` rounds of the scheduler leave each runner with at most one
-- running job and no runner of the list idle with a job that waits for it, whichever starts raise.
pub schedule-Settles :
    (n : ℕ) (rs : Runners) (now : ℕ) (jobs : List Job)
    → count waits jobs ≤ n
    → OneEach jobs
    → Settles rs.names jobs (schedule n rs now jobs)
unfolding schedule
schedule-Settles zero rs now jobs few one = record {
  scheduled = record {
    one_each = one;
    all_served = all_served rs.names jobs (λ r. let h = count-waits_for r jobs in omega arith);
  };
  fewer = omega arith;
}
schedule-Settles (suc n) rs now jobs few one =
    let claimed = (claim_all rs.names now jobs).0 in
    let ids = (claim_all rs.names now jobs).1 in
    let balance = claim_all-balance rs.names now jobs in
    let after =
      launch-Settles rs.names n (schedule n rs now) (schedule-Settles n rs now) rs.start_raises now
        ids claimed (omega arith)
        (record {
          one_each = claim_all-OneEach rs.names now jobs one;
          all_served = claim_all-AllServed rs.names now jobs;
        }) in
    let less = after.fewer in record { scheduled = after.scheduled; fewer = omega arith }

-- The calls that change the table, with the ids, times and errors that come with them.
pub data Call : Type 0 where
  submits : ℕ → ℕ → ℕ → ℕ → ℕ → Call
  cancels : ℕ → ℕ → Call
  exits : ℕ → Option String → ℕ → Call
  measures : ℕ → Option ℕ → Option String → Option String → Call
  restarts : ℕ → Call

pub step : Runners → List Job → Call → List Job
unfolding submit cancel on_exit on_metric load
step rs jobs (submits id runner steps log_freq now) = submit rs id runner steps log_freq now jobs
step rs jobs (cancels id now) = cancel id now jobs
step rs jobs (exits id error now) = on_exit rs id error now jobs
step rs jobs (measures id at loss lr) = on_metric id at loss lr jobs
step rs jobs (restarts now) = load now jobs

pub run : Runners → List Job → List Call → List Job
unfolding step
run rs jobs [] = jobs
run rs jobs (c ∷ cs) = run rs (step rs jobs c) cs

submit-IsScheduled :
    (rs : Runners) (id runner steps log_freq now : ℕ) (jobs : List Job)
    → IsScheduled rs.names jobs
    → IsScheduled rs.names (submit rs id runner steps log_freq now jobs)
unfolding submit new_job
submit-IsScheduled rs id runner steps log_freq now jobs v =
    elim (Bool-cases (has_runner runner rs.names)) [
      | inr e ↦ rw e v
      | inl e ↦
          let added = jobs ++ new_job id runner steps log_freq now ∷ [] in
          let waiting = count-append waits jobs (new_job id runner steps log_freq now ∷ []) in
          let few = count-waits-le jobs in
          rw e
            (schedule-Settles (suc (length jobs)) rs now added (omega arith) (λ r.
              let a = count-append (runs_on r) jobs (new_job id runner steps log_freq now ∷ []) in
              let b = v.one_each r in omega arith)).scheduled
    ]

cancel-IsScheduled :
    (names : List ℕ) (id now : ℕ) (jobs : List Job)
    → IsScheduled names jobs
    → IsScheduled names (cancel id now jobs)
unfolding cancel
cancel-IsScheduled names id now jobs v = elim (Option-cases (find id jobs)) [
  | inl e ↦ rw (cancel, e) v
  | inr (job, e) ↦ elim (Bool-cases (is_queued job.state)) [
    | inr h ↦ rw (cancel, e, h) v
    | inl h ↦
        let final : IsFinal cancelled = (refl, refl) in
        let moves : IsProgress jobs (update id (finish cancelled none now) jobs) = record {
          keeps = λ r.
              let a = finish-runs_queued id cancelled final none now r jobs job e h in omega arith;
          fewer = λ r. finish-waits_for id cancelled final none now r jobs;
        } in
        rw (cancel, e, h)
          (record {
            one_each = λ r.
                let a = finish-runs id cancelled final none now r jobs in
                let b = v.one_each r in omega arith;
            all_served = AllServed-progress names moves v.all_served;
          })
  ]
]

measured-IsScheduled :
    (names : List ℕ) (id : ℕ) (at : Option ℕ) (loss lr : Option String) (jobs : List Job)
    → IsScheduled names jobs
    → IsScheduled names (on_metric id at loss lr jobs)
unfolding on_metric
measured-IsScheduled names id at loss lr jobs v =
    let moves : IsProgress jobs (update id (measured at loss lr) jobs) = record {
      keeps = λ r. let a = measured-runs id at loss lr r jobs in omega arith;
      fewer = λ r. let a = measured-waits_for id at loss lr r jobs in omega arith;
    } in
    record {
      one_each =
          λ r. let a = measured-runs id at loss lr r jobs in let b = v.one_each r in omega arith;
      all_served = AllServed-progress names moves v.all_served;
    }

step-IsScheduled :
    (rs : Runners) (jobs : List Job) (c : Call)
    → IsScheduled rs.names jobs
    → IsScheduled rs.names (step rs jobs c)
unfolding step
step-IsScheduled rs jobs (submits id runner steps log_freq now) v =
    submit-IsScheduled rs id runner steps log_freq now jobs v
step-IsScheduled rs jobs (cancels id now) v = cancel-IsScheduled rs.names id now jobs v
step-IsScheduled rs jobs (exits id error now) v =
    (exit_then-Settles rs.names (length jobs) (schedule (length jobs) rs now)
      (schedule-Settles (length jobs) rs now) id error now jobs (count-waits-le jobs) v).scheduled
step-IsScheduled rs jobs (measures id at loss lr) v =
    measured-IsScheduled rs.names id at loss lr jobs v
step-IsScheduled rs jobs (restarts now) v = record {
  one_each = λ r. let h = load-runs r now jobs in omega arith;
  all_served = all_served rs.names (load now jobs) (λ r. load-waits_for r now jobs);
}

-- Whatever calls are made of a manager whose table is scheduled, as the empty one is, between two
-- of them each runner has at most one running job, and no runner of the list is idle while a job
-- waits for it, whichever starts of the runners raise.
pub run-IsScheduled :
    (rs : Runners) (jobs : List Job) (cs : List Call)
    → IsScheduled rs.names jobs
    → IsScheduled rs.names (run rs jobs cs)
unfolding run
run-IsScheduled rs jobs [] v = v
run-IsScheduled rs jobs (c ∷ cs) v =
    run-IsScheduled rs (step rs jobs c) cs (step-IsScheduled rs jobs c v)
