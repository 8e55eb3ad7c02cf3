-- ===== src/Session/Life.antt =====
-- packages/nexarm_service/src/nexarm_service/session.py: one session while its calls interleave.
-- Three threads act on it: the one in `start`, the one in the `stop` that marked the session, and
-- the watchdog that reaps a dead worker. A step is what a thread does under one hold of the
-- manager's lock, or the return of a call of the worker; the session's `start_lock` is a state.
pub mod Overlap
pub mod Release
use lerobot_nexarm.Prelude.{◌≡◌, ◌≢◌, Bool, true, false, if◌then◌else◌}
use lerobot_nexarm.Session.{SessionState, starting, running, stopping, stopped, failed}

-- Where the call of `start` is: before its `start_lock`, in `worker.start()`, after its return or
-- its exception, and at its end.
pub data Starter : Type 0 where
  claimed in_start started_up start_raised start_done : Starter

pub data Stopper : Type 0 where
  no_stop marked in_stop stop_returned stop_done : Stopper

pub data Reaper : Type 0 where
  no_reap in_reap reap_returned reap_done : Reaper

pub data StartLock : Type 0 where
  free by_start by_stop : StartLock

-- `is_up`: the worker's start has returned and no stop of it has returned since. `overtook`
-- records that the stop held `start_lock` before the start did.
pub record Life : Type 0 where
  pub state : SessionState
  pub is_live : Bool
  pub starter : Starter
  pub stopper : Stopper
  pub reaper : Reaper
  pub start_lock : StartLock
  pub is_up : Bool
  pub overtook : Bool

abbrev pub claimed_life : Life
claimed_life = record {
  state = starting;
  is_live = true;
  starter = claimed;
  stopper = no_stop;
  reaper = no_reap;
  start_lock = free;
  is_up = false;
  overtook = false;
}

-- `_finish`: it changes the session only while the session is the live one.
abbrev pub finished : SessionState → Life → Life
finished state l = record l { state = if l.is_live then state else l.state; is_live = false }

abbrev pub promoted : SessionState → SessionState
promoted starting = running
promoted s = s

abbrev pub is_claimed : Starter → Bool
is_claimed claimed = true
is_claimed _ = false

pub data Step : Life → Life → Type 0 where
  enter_start :
      {l : Life}
      → l.starter ≡ claimed
      → l.start_lock ≡ free
      → Step l (record l { starter = in_start; start_lock = by_start })
  start_returns :
      {l : Life} → l.starter ≡ in_start → Step l (record l { starter = started_up; is_up = true })
  start_raises : {l : Life} → l.starter ≡ in_start → Step l (record l { starter = start_raised })
  promote :
      {l : Life}
      → l.starter ≡ started_up
      → Step l (record l { starter = start_done; start_lock = free; state = promoted l.state })
  give_up :
      {l : Life}
      → l.starter ≡ start_raised
      → Step l (finished failed (record l { starter = start_done; start_lock = free }))
  mark :
      {l : Life}
      → l.is_live ≡ true
      → l.state ≢ stopping
      → Step l (record l { stopper = marked; state = stopping })
  enter_stop :
      {l : Life}
      → l.stopper ≡ marked
      → l.start_lock ≡ free
      → l.is_live ≡ true
      → Step l
          (record l { stopper = in_stop; start_lock = by_stop; overtook = is_claimed l.starter })
  skip_stop :
      {l : Life}
      → l.stopper ≡ marked
      → l.start_lock ≡ free
      → l.is_live ≡ false
      → Step l (record l { stopper = stop_done })
  stop_returns :
      {l : Life}
      → l.stopper ≡ in_stop
      → Step l (record l { stopper = stop_returned; is_up = false })
  end_stop :
      {l : Life}
      → l.stopper ≡ stop_returned
      → (ended : SessionState)
      → Step l (finished ended (record l { stopper = stop_done; start_lock = free }))
  reap :
      {l : Life}
      → l.reaper ≡ no_reap
      → l.is_live ≡ true
      → l.state ≡ running
      → Step l (record l { reaper = in_reap })
  reap_returns :
      {l : Life} → l.reaper ≡ in_reap → Step l (record l { reaper = reap_returned; is_up = false })
  end_reap :
      {l : Life}
      → l.reaper ≡ reap_returned
      → (ended : SessionState) → Step l (finished ended (record l { reaper = reap_done }))

pub data Reachable : Life → Type 0 where
  claim : Reachable claimed_life
  then_step : {l l' : Life} → Reachable l → Step l l' → Reachable l'
