-- ===== src/Session/Life/Overlap.antt =====
-- session.py: the stop of a worker and its start.
use lerobot_nexarm.Prelude.{◌≡◌, ◌≢◌, ◌⊎◌, true, arith}
use lerobot_nexarm.Session.{running}
use lerobot_nexarm.Session.Life.{
  in_start, started_up, start_raised, start_done, in_stop, stop_returned, no_reap, in_reap,
  by_start, by_stop, Life, Step, enter_start, start_returns, start_raises, promote, give_up, mark,
  enter_stop, skip_stop, stop_returns, end_stop, reap, reap_returns, end_reap, Reachable, claim,
  then_step,
}

-- Who holds `start_lock` is in its critical section, and the reaper only meets a started worker.
pub record IsOrdered (l : Life) : Type 0 where
  pub start_holds :
      (l.starter ≡ in_start) ⊎ (l.starter ≡ started_up) ⊎ (l.starter ≡ start_raised)
      → l.start_lock ≡ by_start
  pub stop_holds : (l.stopper ≡ in_stop) ⊎ (l.stopper ≡ stop_returned) → l.start_lock ≡ by_stop
  pub runs_after : l.state ≡ running → l.is_live ≡ true → l.starter ≡ start_done
  pub reaps_after : l.reaper ≢ no_reap → l.starter ≡ start_done

step-IsOrdered : {l l' : Life} → Step l l' → IsOrdered l → IsOrdered l'
step-IsOrdered (enter_start p q) v = ground arith
step-IsOrdered (start_returns p) v = ground arith
step-IsOrdered (start_raises p) v = ground arith
step-IsOrdered (promote p) v = ground arith
step-IsOrdered (give_up p) v = ground arith
step-IsOrdered (mark p q) v = ground arith
step-IsOrdered (enter_stop p q r) v = ground arith
step-IsOrdered (skip_stop p q r) v = ground arith
step-IsOrdered (stop_returns p) v = ground arith
step-IsOrdered (end_stop p ended) v = ground arith
step-IsOrdered (reap p q r) v = ground arith
step-IsOrdered (reap_returns p) v = ground arith
step-IsOrdered (end_reap p ended) v = ground arith

pub Reachable-IsOrdered : {l : Life} → Reachable l → IsOrdered l
Reachable-IsOrdered claim = ground arith
Reachable-IsOrdered (then_step r s) = step-IsOrdered s (Reachable-IsOrdered r)

-- However the calls on a session interleave, no stop of its worker, by a caller or by the
-- watchdog, runs while the worker's start does.
pub no_overlap :
    {l : Life} → Reachable l → l.starter ≡ in_start → (l.stopper ≢ in_stop) × (l.reaper ≢ in_reap)
no_overlap r starts = let v = Reachable-IsOrdered r in ground arith
