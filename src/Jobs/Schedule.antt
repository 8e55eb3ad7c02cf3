-- ===== src/Jobs/Schedule.antt =====
-- jobs.py: `_schedule` starts what it can, one job for each runner.
use lerobot_nexarm.Prelude.{
  ℕ, suc, ◌+◌, ◌≤◌, ◌≡◌, ◌≢◌, refl, sym, subst, ◌⊎◌, inl, inr, true, List, [], ◌∷◌, some, min,
  arith, ◌==◌, length, get_elem?, length-append, All, Bool-cases, Option-cases,
}
use lerobot_nexarm.Jobs.{
  Job, runs_on, waits_for, any_running, earliest, is_first, first_id, claim_one, claim_all,
}
use lerobot_nexarm.Jobs.Counts.{
  count, waits, any_running-none, any_running-some, earliest-none, earliest-first, begin_first-runs,
  begin_first-runs_other, begin_first-waits_for, begin_first-waits,
}

abbrev pub IsServed : ℕ → List Job → Type 0
IsServed r jobs = (1 ≤ count (runs_on r) jobs) ⊎ (count (waits_for r) jobs ≡ 0)

-- What a claim of runner `r` does to the table.
record IsClaim (r : ℕ) (before after : List Job) (ids : List ℕ) : Type 0 where
  pub serves : IsServed r after
  pub one_runs : count (runs_on r) before ≤ 1 → count (runs_on r) after ≤ 1
  pub others : (r' : ℕ) → r' ≢ r → count (runs_on r') after ≡ count (runs_on r') before
  pub keeps : count (runs_on r) before ≤ count (runs_on r) after
  pub fewer : (r' : ℕ) → count (waits_for r') after ≤ count (waits_for r') before
  pub balance : count waits after + length ids ≡ count waits before

claim_one-IsClaim :
    (r now : ℕ) (jobs : List Job) → IsClaim r jobs (claim_one r now jobs).0 (claim_one r now jobs).1
unfolding claim_one
claim_one-IsClaim r now jobs = elim (Bool-cases (any_running r jobs)) [
  | inl busy ↦ rw busy (record {
    serves = inl (any_running-some r jobs busy);
    one_runs = λ h. h;
    others = λ r' h. refl;
    keeps = omega arith;
    fewer = λ r'. omega arith;
    balance = omega arith;
  })
  | inr idle ↦ elim (Option-cases (earliest r jobs)) [
    | inl e ↦
        rw (idle, e)
          (record {
            serves = inr (earliest-none r jobs e);
            one_runs = λ h. h;
            others = λ r' h. refl;
            keeps = omega arith;
            fewer = λ r'. omega arith;
            balance = omega arith;
          })
    | inr (t, e) ↦
        let first = earliest-first r t jobs e in
        let runs = begin_first-runs r t now jobs first in
        let none_runs = any_running-none r jobs idle in
        rw (idle, e)
          (record {
            serves = inl (omega arith);
            one_runs = λ h. omega arith;
            others = λ r' h. begin_first-runs_other r t now r' jobs h;
            keeps = omega arith;
            fewer = λ r'. begin_first-waits_for r t now r' jobs;
            balance = begin_first-waits r t now jobs;
          })
  ]
]

abbrev pub OneEach : List Job → Type 0
OneEach jobs = (r : ℕ) → count (runs_on r) jobs ≤ 1

abbrev pub AllServed : List ℕ → List Job → Type 0
AllServed names jobs = All (λ r. IsServed r jobs) names

-- From one table to another no runner loses a running job or gets a waiting one.
pub record IsProgress (before after : List Job) : Type 0 where
  pub keeps : (r : ℕ) → count (runs_on r) before ≤ count (runs_on r) after
  pub fewer : (r : ℕ) → count (waits_for r) after ≤ count (waits_for r) before

claim_one-IsProgress : (r now : ℕ) (jobs : List Job) → IsProgress jobs (claim_one r now jobs).0
claim_one-IsProgress r now jobs =
    let c = claim_one-IsClaim r now jobs in
    record {
      keeps = λ r'. elim (Bool-cases (r' == r)) [
        | inl same ↦
            let e : r ≡ r' = ground arith in
            subst (λ x. count (runs_on x) jobs ≤ count (runs_on x) (claim_one r now jobs).0) e
              c.keeps
        | inr other ↦ let d : r' ≢ r = ground arith in let e = c.others r' d in omega arith
      ];
      fewer = c.fewer;
    }

claim_one-OneEach : (r now : ℕ) (jobs : List Job) → OneEach jobs → OneEach (claim_one r now jobs).0
claim_one-OneEach r now jobs one r' =
    let c = claim_one-IsClaim r now jobs in
    elim (Bool-cases (r' == r)) [
      | inl same ↦
          let e : r ≡ r' = ground arith in
          subst (λ x. count (runs_on x) (claim_one r now jobs).0 ≤ 1) e (c.one_runs (one r))
      | inr other ↦
          let d : r' ≢ r = ground arith in let e = c.others r' d in let h = one r' in omega arith
    ]

pub IsServed-progress :
    (r : ℕ) {before after : List Job}
    → IsProgress before after
    → IsServed r before
    → IsServed r after
IsServed-progress r p (inl h) = let k = p.keeps r in inl (omega arith)
IsServed-progress r p (inr h) = let k = p.fewer r in inr (omega arith)

claim_all-IsProgress :
    (rs : List ℕ) (now : ℕ) (jobs : List Job) → IsProgress jobs (claim_all rs now jobs).0
unfolding claim_all
claim_all-IsProgress [] now jobs = record { keeps = λ r. omega arith; fewer = λ r. omega arith }
claim_all-IsProgress (r ∷ rs) now jobs =
    let one = claim_one-IsProgress r now jobs in
    let rest = claim_all-IsProgress rs now (claim_one r now jobs).0 in
    record {
      keeps = λ x. let a = one.keeps x in let b = rest.keeps x in omega arith;
      fewer = λ x. let a = one.fewer x in let b = rest.fewer x in omega arith;
    }

pub claim_all-OneEach :
    (rs : List ℕ) (now : ℕ) (jobs : List Job) → OneEach jobs → OneEach (claim_all rs now jobs).0
unfolding claim_all
claim_all-OneEach [] now jobs one = one
claim_all-OneEach (r ∷ rs) now jobs one =
    claim_all-OneEach rs now (claim_one r now jobs).0 (claim_one-OneEach r now jobs one)

pub claim_all-AllServed :
    (rs : List ℕ) (now : ℕ) (jobs : List Job) → AllServed rs (claim_all rs now jobs).0
unfolding claim_all
claim_all-AllServed [] now jobs = tt
claim_all-AllServed (r ∷ rs) now jobs = (
  IsServed-progress r (claim_all-IsProgress rs now (claim_one r now jobs).0)
      (claim_one-IsClaim r now jobs).serves,
  claim_all-AllServed rs now (claim_one r now jobs).0,
)

pub claim_all-balance :
    (rs : List ℕ) (now : ℕ) (jobs : List Job)
    → count waits (claim_all rs now jobs).0 + length (claim_all rs now jobs).1 ≡ count waits jobs
unfolding claim_all
claim_all-balance [] now jobs = omega arith
claim_all-balance (r ∷ rs) now jobs =
    let one = claim_one-IsClaim r now jobs in
    let here = one.balance in
    let rest = claim_all-balance rs now (claim_one r now jobs).0 in
    let sizes =
      length-append (claim_one r now jobs).1 (claim_all rs now (claim_one r now jobs).0).1 in
    omega arith

pub AllServed-progress :
    (names : List ℕ) {before after : List Job}
    → IsProgress before after
    → AllServed names before
    → AllServed names after
AllServed-progress [] p all = all
AllServed-progress (r ∷ rs) p all = (IsServed-progress r p all.0, AllServed-progress rs p all.1)

-- A job of the table that waits for `r`, none that waits for it being created earlier.
pub record IsOldest (r : ℕ) (jobs : List Job) (job : Job) : Type 0 where
  pub is_there : (i : ℕ) × (get_elem? jobs i ≡ some job)
  pub waiting : waits_for r job ≡ true
  pub oldest : All (λ j. waits_for r j ≡ true → job.created_at ≤ j.created_at) jobs

earliest-least :
    (r t : ℕ) (jobs : List Job)
    → ((u : ℕ) → earliest r jobs ≡ some u → t ≤ u)
    → All (λ j. waits_for r j ≡ true → t ≤ j.created_at) jobs
earliest-least r t [] h = tt
earliest-least r t (j ∷ js) h = (
  (λ w. elim (Option-cases (earliest r js)) [
    | inl e ↦ h j.created_at (rw (w, e) refl)
    | inr (u, e) ↦ let k = h (min j.created_at u) (rw (w, e) refl) in omega arith
  ]),
  earliest-least r t js (λ u e. elim (Bool-cases (waits_for r j)) [
    | inr w ↦ h u (rw w e)
    | inl w ↦ let k = h (min j.created_at u) (rw (w, e) refl) in omega arith
  ]),
)

first_id-elem :
    (r t id : ℕ) (jobs : List Job)
    → first_id r t jobs ≡ id ∷ []
    → (job : Job) × ((i : ℕ) × (get_elem? jobs i ≡ some job))
      × (is_first r t job ≡ true)
      × (job.id ≡ id)
first_id-elem r t id [] e = ground arith
first_id-elem r t id (j ∷ js) e = elim (Bool-cases (is_first r t j)) [
  | inl h ↦ (j, (0, refl), h, ground arith)
  | inr h ↦
      let (job, at, first, same) = first_id-elem r t id js (ground arith) in
      (job, (suc at.0, at.1), first, same)
]

-- The job that the scheduler starts on an idle runner is one that waits for it, and no job that
-- waits for the runner was created earlier.
pub claim_one-IsOldest :
    (r now id : ℕ) (jobs : List Job)
    → (claim_one r now jobs).1 ≡ id ∷ []
    → (job : Job) × IsOldest r jobs job × (job.id ≡ id)
unfolding claim_one
claim_one-IsOldest r now id jobs starts = elim (Bool-cases (any_running r jobs)) [
  | inl busy ↦ ground arith
  | inr idle ↦ elim (Option-cases (earliest r jobs)) [
    | inl e ↦ ground arith
    | inr (t, e) ↦
        let ids : first_id r t jobs ≡ id ∷ [] = ground arith in
        let (job, at, first, same) = first_id-elem r t id jobs ids in
        let at_time : job.created_at ≡ t = ground arith in
        (
          job,
          record {
            is_there = at;
            waiting = ground arith;
            oldest =
                subst (λ x. All (λ j. waits_for r j ≡ true → x ≤ j.created_at) jobs) (sym at_time)
                  (earliest-least r t jobs (λ u f. ground arith));
          },
          same,
        )
  ]
]
