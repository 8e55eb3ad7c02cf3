-- ===== src/Session/Life/Release.antt =====
-- session.py: whether the arm is released when its session has ended.
use lerobot_nexarm.Prelude.{◌≡◌, refl, ◌⊎◌, true, false, arith}
use lerobot_nexarm.Session.{stopped}
use lerobot_nexarm.Session.Life.{
  claimed, in_start, start_raised, start_done, marked, in_stop, stop_returned, reap_returned, free,
  Life, Step, enter_start, start_returns, start_raises, promote, give_up, mark, enter_stop,
  skip_stop, stop_returns, end_stop, reap, reap_returns, end_reap, Reachable, claim, then_step,
}
use lerobot_nexarm.Session.Life.Overlap.{IsOrdered, Reachable-IsOrdered}

-- Unless the stop overtook the start, a worker that was stopped, or whose session has ended, has
-- left its start behind and is down.
record IsReleased (l : Life) : Type 0 where
  pub down_before :
      (l.starter ≡ claimed) ⊎ (l.starter ≡ in_start) ⊎ (l.starter ≡ start_raised) → l.is_up ≡ false
  pub stops_after :
      (l.stopper ≡ in_stop) ⊎ (l.stopper ≡ stop_returned)
      → l.overtook ≡ false
      → l.starter ≡ start_done
  pub down_by_stop : l.stopper ≡ stop_returned → l.overtook ≡ false → l.is_up ≡ false
  pub down_by_reap : l.reaper ≡ reap_returned → l.is_up ≡ false
  pub ends_after : l.is_live ≡ false → l.overtook ≡ false → l.starter ≡ start_done
  pub down_at_end : l.is_live ≡ false → l.overtook ≡ false → l.is_up ≡ false

step-IsReleased : {l l' : Life} → Step l l' → IsOrdered l → IsReleased l → IsReleased l'
step-IsReleased (enter_start p q) o v = ground arith
step-IsReleased (start_returns p) o v = ground arith
step-IsReleased (start_raises p) o v = ground arith
step-IsReleased (promote p) o v = ground arith
step-IsReleased (give_up p) o v = ground arith
step-IsReleased (mark p q) o v = ground arith
step-IsReleased (enter_stop p q r) o v = ground arith
step-IsReleased (skip_stop p q r) o v = ground arith
step-IsReleased (stop_returns p) o v = ground arith
step-IsReleased (end_stop p ended) o v = ground arith
step-IsReleased (reap p q r) o v = ground arith
step-IsReleased (reap_returns p) o v = ground arith
step-IsReleased (end_reap p ended) o v = ground arith

Reachable-IsReleased : {l : Life} → Reachable l → IsReleased l
Reachable-IsReleased claim = ground arith
Reachable-IsReleased (then_step r s) =
    step-IsReleased s (Reachable-IsOrdered r) (Reachable-IsReleased r)

-- However the calls on a session interleave, the worker of a session that has ended is down,
-- unless its stop took `start_lock` before its start did.
pub ended-down : {l : Life} → Reachable l → l.is_live ≡ false → l.overtook ≡ false → l.is_up ≡ false
ended-down r ended first = (Reachable-IsReleased r).down_at_end ended first

-- The states that a state can go on to.
pub data Leads (l : Life) : Life → Type 0 where
  here : Leads l l
  next : {l' l'' : Life} → Leads l l' → Step l' l'' → Leads l l''

-- From every state, reachable ones included, in which a live session is marked by a stop before its
-- start has taken `start_lock`, and the lock is free, the threads can go on, step by step, to a
-- state in which the session has ended and its worker is up: the start runs after the stop.
pub start-overtaken :
    (l : Life)
    → l.starter ≡ claimed
    → l.stopper ≡ marked
    → l.start_lock ≡ free
    → l.is_live ≡ true
    → (l' : Life) × Leads l l'
      × (l'.is_live ≡ false)
      × (l'.starter ≡ start_done)
      × (l'.is_up ≡ true)
start-overtaken l at_claim is_marked is_free is_live =
    let stop_in = next here (enter_stop is_marked is_free is_live) in
    let ended = next (next stop_in (stop_returns refl)) (end_stop refl stopped) in
    let entered = next ended (enter_start at_claim refl) in
    let started = next entered (start_returns refl) in
    (_, next started (promote refl), refl, refl, refl)
