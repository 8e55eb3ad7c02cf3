-- ===== src/Runners/Local/Laws.antt =====
-- local_runner.py: the episodes that are trained on, and how a job ends.
use lerobot_nexarm.Prelude.{
  ℕ, zero, suc, ◌≡◌, ◌⊎◌, inl, inr, refl, Bool, true, false, not, ◌&&◌, ◌||◌, List, [], ◌∷◌, none,
  ltb, ◌==◌, if◌then◌else◌, arith, Bool-cases,
}
use lerobot_nexarm.Curation.{is_excluded}
use lerobot_nexarm.Runners.Local.{
  Kept, every, no_episode, only, kept_below, or_no_episode, kept_episodes, Runner, has, discard, ok,
  was_cancelled, failed_with, start, cancel, add_all, shutdown, finish, Call, starts, cancels,
  shuts_down, finishes, call, call_all,
}

kept_below-is_excluded :
    (excluded : List ℕ) (n : ℕ) (behind : List ℕ) (e : ℕ)
    → is_excluded e (kept_below excluded n behind)
      ≡ ((ltb e n && not (is_excluded e excluded)) || is_excluded e behind)
kept_below-is_excluded excluded zero behind e = ground arith
kept_below-is_excluded excluded (suc n) behind e = elim (Bool-cases (is_excluded n excluded)) [
  | inl h ↦ rw h (ground (arith, kept_below-is_excluded excluded n behind e))
  | inr h ↦ rw h (ground (arith, kept_below-is_excluded excluded n (n ∷ behind) e))
]

-- What a choice of episodes means for one of them.
abbrev pub IsKept : List ℕ → ℕ → ℕ → Kept → Type 0
IsKept excluded total e every = is_excluded e excluded ≡ false
IsKept excluded total e (only es) = is_excluded e es ≡ (ltb e total && not (is_excluded e excluded))
IsKept excluded total e no_episode = (ltb e total ≡ false) ⊎ (is_excluded e excluded ≡ true)

or_no_episode-IsKept :
    (excluded : List ℕ) (total e : ℕ) (es : List ℕ)
    → is_excluded e es ≡ (ltb e total && not (is_excluded e excluded))
    → IsKept excluded total e (or_no_episode es)
or_no_episode-IsKept excluded total e [] h = ground arith
or_no_episode-IsKept excluded total e (x ∷ es) h = h

-- With no list of its own, a job that leaves out the excluded episodes trains on all of them when
-- none is excluded, on exactly the others when there are any, and is refused when there are none.
pub kept_episodes-IsKept :
    (excluded : List ℕ) (total e : ℕ)
    → IsKept excluded total e (kept_episodes none true excluded total)
unfolding kept_episodes
kept_episodes-IsKept [] total e = refl
kept_episodes-IsKept (x ∷ xs) total e =
    or_no_episode-IsKept (x ∷ xs) total e (kept_below (x ∷ xs) total [])
      (ground (arith, kept_below-is_excluded (x ∷ xs) total [] e))

has-discard : (j k : ℕ) (js : List ℕ) → has j (discard k js) ≡ (has j js && not (k == j))
has-discard j k [] = refl
has-discard j k (i ∷ js) = ground (arith, has-discard j k js)

has-add_all : (j : ℕ) (js ks : List ℕ) → has j (add_all js ks) ≡ (has j js || has j ks)
has-add_all j [] ks = refl
has-add_all j (i ∷ js) ks = ground (arith, has-discard j i (add_all js ks), has-add_all j js ks)

-- A cancelled job has its process.
abbrev pub IsTracked : ℕ → Runner → Type 0
IsTracked j r = (has j r.cancelled ≡ false) ⊎ (has j r.procs ≡ true)

call-IsTracked : (j : ℕ) (c : Call) (r : Runner) → IsTracked j r → IsTracked j (call c r)
unfolding call start cancel shutdown finish
call-IsTracked j (starts k) r t = ground (arith, has-discard j k r.procs)
call-IsTracked j (cancels k) r t = ground (arith, has-discard j k r.cancelled)
call-IsTracked j shuts_down r t = ground (arith, has-add_all j r.procs r.cancelled)
call-IsTracked j (finishes k code) r t =
    ground (arith, has-discard j k r.procs, has-discard j k r.cancelled)

call_all-IsTracked :
    (j : ℕ) (cs : List Call) (r : Runner) → IsTracked j r → IsTracked j (call_all cs r)
call_all-IsTracked j [] r t = t
call_all-IsTracked j (c ∷ cs) r t = call_all-IsTracked j cs (call c r) (call-IsTracked j c r t)

-- Whether some call cancels a job, and whether some call starts it or ends it.
abbrev pub reaches : ℕ → List Call → Bool
reaches j [] = false
reaches j (starts k ∷ cs) = reaches j cs
reaches j (cancels k ∷ cs) = k == j || reaches j cs
reaches j (shuts_down ∷ cs) = true
reaches j (finishes k code ∷ cs) = reaches j cs

abbrev pub replaces : ℕ → List Call → Bool
replaces j [] = false
replaces j (starts k ∷ cs) = k == j || replaces j cs
replaces j (cancels k ∷ cs) = replaces j cs
replaces j (shuts_down ∷ cs) = replaces j cs
replaces j (finishes k code ∷ cs) = k == j || replaces j cs

call_all-reaches :
    (j : ℕ) (cs : List Call) (r : Runner)
    → has j r.procs ≡ true
    → replaces j cs ≡ false
    → has j (call_all cs r).cancelled ≡ (has j r.cancelled || reaches j cs)
unfolding call start cancel shutdown finish
call_all-reaches j [] r p h = ground arith
call_all-reaches j (starts k ∷ cs) r p h =
    ground (arith, call_all-reaches j cs (start k r), has-discard j k r.procs)
call_all-reaches j (cancels k ∷ cs) r p h =
    ground (arith, call_all-reaches j cs (cancel k r), has-discard j k r.cancelled)
call_all-reaches j (shuts_down ∷ cs) r p h =
    ground (arith, call_all-reaches j cs (shutdown r), has-add_all j r.procs r.cancelled)
call_all-reaches j (finishes k code ∷ cs) r p h = ground (
  arith,
  call_all-reaches j cs (finish k code r).1,
  has-discard j k r.procs,
  has-discard j k r.cancelled,
)

abbrev pub idle : Runner
idle = record { procs = []; cancelled = [] }

-- After any calls, a job that has no process and is started ends as cancelled exactly if a cancel
-- of it or a shutdown comes before its end, and else as its exit code says. Nothing else starts or
-- ends it meanwhile.
pub finish-reaches :
    (j code : ℕ) (before cs : List Call)
    → has j (call_all before idle).procs ≡ false
    → replaces j cs ≡ false
    → (finish j code (call_all (starts j ∷ cs) (call_all before idle))).0
      ≡ (if reaches j cs then was_cancelled else if code == 0 then ok else failed_with code)
unfolding finish call start
finish-reaches j code before cs p h =
    let r = call_all before idle in
    ground (
      arith,
      call_all-IsTracked j before idle (inl refl),
      call_all-reaches j cs (start j r),
      has-discard j j r.procs,
    )
