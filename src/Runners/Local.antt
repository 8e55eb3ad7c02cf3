-- ===== src/Runners/Local.antt =====
-- packages/nexarm_service/src/nexarm_service/local_runner.py: the training process of this machine. The
-- process is its chunks of output; decoding and stripping are Python's, so parameters.
pub mod Laws
pub mod Lines
use lerobot_nexarm.Prelude.{
  ℕ, zero, suc, Bool, true, false, not, ◌&&◌, ◌||◌, List, [], ◌∷◌, ◌++◌, Option, none, some, ltb,
  ◌==◌, if◌then◌else◌,
}
use lerobot_nexarm.Prelude.Texts.{Text}
use lerobot_nexarm.Curation.{is_excluded}

-- The episodes to train on: `every` for None, `no_episode` for the `ValueError`.
pub data Kept : Type 0 where
  every no_episode : Kept
  only : List ℕ → Kept

-- The numbers below the second that are not excluded, behind those of the list.
abbrev pub kept_below : List ℕ → ℕ → List ℕ → List ℕ
kept_below excluded zero behind = behind
kept_below excluded (suc n) behind =
    kept_below excluded n (if is_excluded n excluded then behind else n ∷ behind)

abbrev pub is_empty : List ℕ → Bool
is_empty [] = true
is_empty (e ∷ es) = false

abbrev pub or_no_episode : List ℕ → Kept
or_no_episode [] = no_episode
or_no_episode (e ∷ es) = only (e ∷ es)

pub kept_episodes : Option (List ℕ) → Bool → List ℕ → ℕ → Kept
kept_episodes (some episodes) use_excluded excluded total = only episodes
kept_episodes none use_excluded excluded total =
    if not use_excluded
    then every
    else if is_empty excluded
    then every
    else or_no_episode (kept_below excluded total [])

-- `_LINE_SPLIT.split`, as the parts but the last, and the last; the flag tells that a separator
-- goes on.
abbrev pub is_separator : ℕ → Bool
is_separator c = c == 10 || c == 13

pub split : Text → Bool → Text → List Text × Text
split part in_separator [] = ([], part)
split part in_separator (c ∷ cs) =
    let again = split part true cs in
    let next = split [] true cs in
    let longer = split (part ++ c ∷ []) false cs in
    if is_separator c then (if in_separator then again else (part ∷ next.0, next.1)) else longer

abbrev pub is_blank : (Text → Text) → Text → Bool
is_blank strip text = elim (strip text) [ [] ↦ true | c ∷ cs ↦ false ]

abbrev pub shown : (Text → Text) → List Text → List Text
shown strip [] = []
shown strip (p ∷ ps) = if is_blank strip p then shown strip ps else p ∷ shown strip ps

-- The lines that `_pump` hands on, from what is pending and the decoded chunks.
pub pump_lines : (Text → Text) → Text → List Text → List Text
unfolding split
pump_lines strip pending [] = shown strip (pending ∷ [])
pump_lines strip pending (chunk ∷ chunks) =
    let parts = split [] false (pending ++ chunk) in
    shown strip parts.0 ++ pump_lines strip parts.1 chunks

-- What is kept under the lock: the jobs with a process, and those that were cancelled.
pub record Runner : Type 0 where
  pub procs : List ℕ
  pub cancelled : List ℕ

abbrev pub has : ℕ → List ℕ → Bool
has job [] = false
has job (j ∷ js) = if j == job then true else has job js

abbrev pub discard : ℕ → List ℕ → List ℕ
discard job [] = []
discard job (j ∷ js) = if j == job then discard job js else j ∷ discard job js

pub data Exit : Type 0 where
  ok was_cancelled : Exit
  failed_with : ℕ → Exit

pub start : ℕ → Runner → Runner
start job r = record r { procs = job ∷ discard job r.procs }

pub cancel : ℕ → Runner → Runner
cancel job r = if has job r.procs then record r { cancelled = job ∷ discard job r.cancelled } else r

abbrev pub add_all : List ℕ → List ℕ → List ℕ
add_all [] jobs = jobs
add_all (j ∷ js) jobs = j ∷ discard j (add_all js jobs)

pub shutdown : Runner → Runner
shutdown r = record r { cancelled = add_all r.procs r.cancelled }

-- The end of `_pump`: the exit that the sink is told, and the runner after it.
pub finish : ℕ → ℕ → Runner → Exit × Runner
finish job code r =
    let e : Exit =
      if has job r.cancelled then was_cancelled else if code == 0 then ok else failed_with code in
    (e, record { procs = discard job r.procs; cancelled = discard job r.cancelled })

pub data Call : Type 0 where
  starts cancels : ℕ → Call
  shuts_down : Call
  finishes : ℕ → ℕ → Call

unfoldable pub call : Call → Runner → Runner
unfolding start cancel shutdown finish
call (starts job) r = start job r
call (cancels job) r = cancel job r
call shuts_down r = shutdown r
call (finishes job code) r = (finish job code r).1

abbrev pub call_all : List Call → Runner → Runner
call_all [] r = r
call_all (c ∷ cs) r = call_all cs (call c r)
