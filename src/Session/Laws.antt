-- ===== src/Session/Laws.antt =====
-- session.py: what holds of the manager between two calls, whatever the calls were.
use Prim.Native.String.{String}
use lerobot_nexarm.Prelude.{
  ℕ, ◌+◌, ◌-◌, ◌≤◌, ◌≡◌, ◌≢◌, refl, sym, subst, ◌⊎◌, inl, inr, Bool, true, false, List, [], ◌∷◌,
  Option, none, some, arith, ltb, not, ◌||◌, if◌then◌else◌,
}
use lerobot_nexarm.Session.{
  SessionKind, running, stopped, failed, SessionInfo, Live, Event, changed, idle, SessionManager,
  not_found, returns, raises, Worker, truthy, publish, finish, stop_worker, new_info, start_worker,
  start, require, heartbeat, is_running, stop, stop_current, tick,
}

-- The calls that change the manager, with the clock and the worker's behaviour in each.
pub data Call : Type 0 where
  starts : Bool → SessionKind → String → ℕ → ℕ → ℕ → Worker → Call
  heartbeats : ℕ → ℕ → Call
  stops : ℕ → String → Worker → Call
  stops_current : String → Worker → Call
  ticks : ℕ → Worker → Call

pub step : SessionManager → Call → SessionManager
unfolding start heartbeat stop stop_current tick stop_worker finish require publish new_info
    start_worker
step m (starts available kind profile id started_at now worker) =
    (start available kind profile id started_at now worker m).0
step m (heartbeats id now) = (heartbeat id now m).0
step m (stops id reason worker) = (stop id reason worker m).0
step m (stops_current reason worker) = stop_current reason worker m
step m (ticks now worker) = tick now worker m

pub run : SessionManager → List Call → SessionManager
run m [] = m
run m (c ∷ cs) = run (step m c) cs

abbrev pub LiveRuns : Option Live → Type 0
LiveRuns none = Unit
LiveRuns (some live) = live.info.state ≡ running

abbrev pub LastEnded : Option SessionInfo → Type 0
LastEnded none = Unit
LastEnded (some info) = (info.state ≡ stopped) ⊎ (info.state ≡ failed)

-- Between calls the live session runs, and the last one has ended.
pub record IsValid (m : SessionManager) : Type 0 where
  pub live_runs : LiveRuns m.live
  pub last_ended : LastEnded m.last

step-IsValid : (m : SessionManager) (c : Call) → IsValid m → IsValid (step m c)
unfolding step
step-IsValid m (starts available kind profile id started_at now worker) v = ground arith
step-IsValid m (heartbeats id now) v = ground arith
step-IsValid m (stops id reason worker) v = ground arith
step-IsValid m (stops_current reason worker) v = ground arith
step-IsValid m (ticks now worker) v = ground arith

-- Whatever calls are made of a manager that satisfies this, as the empty one does, between two of them a live session
-- is in state running and the last session is in state stopped or failed.
pub run-IsValid : (m : SessionManager) (cs : List Call) → IsValid m → IsValid (run m cs)
unfolding run
run-IsValid m [] v = v
run-IsValid m (c ∷ cs) v = run-IsValid (step m c) cs (step-IsValid m c v)

-- The newest events tell the manager's state.
abbrev pub Announces : Option Live → Option SessionInfo → List Event → Type 0
Announces none none es = es ≡ []
Announces none (some info) es = (rest : List Event) × (es ≡ idle info.id ∷ changed info ∷ rest)
Announces (some live) _ es = (rest : List Event) × (es ≡ changed (live.info) ∷ rest)

abbrev pub IsAnnounced : SessionManager → Type 0
IsAnnounced m = Announces m.live m.last m.events

stop-IsAnnounced :
    (m : SessionManager) (id : ℕ) (reason : String) (worker : Worker)
    → IsAnnounced m
    → IsAnnounced (stop id reason worker m).0
unfolding step
stop-IsAnnounced m id reason worker v = ground arith

stop_current-cases :
    (reason : String) (worker : Worker) (m : SessionManager)
    → (stop_current reason worker m ≡ m)
      ⊎ ((id : ℕ) × (stop_current reason worker m ≡ (stop id reason worker m).0))
unfolding stop_current
stop_current-cases reason worker m =
    elim m.live
      as (λ l.
        ((elim l [ none ↦ m | some live ↦ (stop live.info.id reason worker m).0 ]) ≡ m)
        ⊎ ((id : ℕ) × ((elim l [ none ↦ m | some live ↦ (stop live.info.id reason worker m).0 ])
              ≡ (stop id reason worker m).0))) [
                | none ↦ inl refl
                | some live ↦ inr (live.info.id, refl)
              ]

stop_worker-IsAnnounced :
    (live : Live) (worker : Worker) (reason : String) (m : SessionManager)
    → IsAnnounced (stop_worker live worker reason m).0
unfolding step
stop_worker-IsAnnounced live worker reason m = (m.events, refl)

-- A property of the two branches of a test is one of the test.
if_elim : {A : Type 0} (P : A → Type 0) (b : Bool) {x y : A} → P x → P y → P (if b then x else y)
if_elim P true p q = p
if_elim P false p q = q

-- The watchdog leaves the manager alone, stops the session by its id, or ends it directly.
tick_elim :
    (P : SessionManager → Type 0) (now : ℕ) (worker : Worker) (m : SessionManager)
    → P m
    → ((id : ℕ) → P (stop id "lease_expired" worker m).0)
    → ((live : Live) → P (stop_worker live worker "worker_exited" m).0)
    → P (tick now worker m)
unfolding tick
tick_elim P now worker m p on_stop on_exit = split m.live
  where
    split :
        (l : Option Live)
        → P (elim l [
          | none ↦ m
          | some live ↦
              if is_running live.info.state
              then if ltb m.lease_timeout (now - live.last_heartbeat)
                then (stop live.info.id "lease_expired" worker m).0
                else if not worker.alive
                then (stop_worker live worker "worker_exited" m).0
                else m
              else m
        ])
    split none = p
    split (some live) =
        if_elim P (is_running live.info.state)
          (if_elim P (ltb m.lease_timeout (now - live.last_heartbeat)) (on_stop live.info.id)
            (if_elim P (not worker.alive) (on_exit live) p))
          p

step-IsAnnounced : (m : SessionManager) (c : Call) → IsAnnounced m → IsAnnounced (step m c)
unfolding step
step-IsAnnounced m (starts available kind profile id started_at now worker) v = ground arith
step-IsAnnounced m (heartbeats id now) v = ground arith
step-IsAnnounced m (stops id reason worker) v = ground arith
step-IsAnnounced m (stops_current reason worker) v = elim (stop_current-cases reason worker m) [
  | inl e ↦ subst IsAnnounced (sym e) v
  | inr (id, e) ↦ subst IsAnnounced (sym e) (stop-IsAnnounced m id reason worker v)
]
step-IsAnnounced m (ticks now worker) v =
    tick_elim IsAnnounced now worker m v (λ id. stop-IsAnnounced m id "lease_expired" worker v)
      (λ live. stop_worker-IsAnnounced live worker "worker_exited" m)

-- Whatever calls are made of a manager that satisfies this, as the empty one does, the newest event
-- names the live session in its state, or, where there is none, tells that the last one is idle.
pub run-IsAnnounced : (m : SessionManager) (cs : List Call) → IsAnnounced m → IsAnnounced (run m cs)
unfolding run
run-IsAnnounced m [] v = v
run-IsAnnounced m (c ∷ cs) v = run-IsAnnounced (step m c) cs (step-IsAnnounced m c v)

-- After a call of tick on a manager whose live session runs, a session is live only if its worker is alive and its last heartbeat is
-- no older than the lease.
pub tick-IsWatched :
    (now : ℕ) (worker : Worker) (m : SessionManager)
    → IsValid m
    → (live : Live) → (tick now worker m).live ≡ some live
    → (worker.alive ≡ true) × (now ≤ m.lease_timeout + live.last_heartbeat)
unfolding step
tick-IsWatched now worker m v live e = ground arith

-- Stopping a live session that runs, by its id, whatever its worker does, ends it and frees the slot: the
-- id is not found any more, and a start of an available kind, whose worker starts, runs.
pub start-stop :
    (m : SessionManager) (live : Live) (reason : String) (worker : Worker)
    → IsValid m
    → m.live ≡ some live
    → (kind : SessionKind) (profile : String) (id started_at now : ℕ) (next : Worker)
    → next.start_raises ≡ none
    → (((stop live.info.id reason worker m).0.live ≡ none)
        × ((stop live.info.id reason worker (stop live.info.id reason worker m).0).1
            ≡ raises not_found))
      × ((start true kind profile id started_at now next (stop live.info.id reason worker m).0).1
          ≡ returns (record (new_info kind profile id started_at) { state = running }))
unfolding step
start-stop m live reason worker v is_live kind profile id started_at now next silent = ground arith

-- On a manager whose live session runs, a stop of that session ends it in state failed when the worker's stop raised with a message or, if it
-- did not, when the worker has an error of its own, and in state stopped otherwise; the result is
-- also the manager's last session, under the id and the reason of the call.
pub stop-Ending :
    (m : SessionManager) (live : Live) (reason : String) (worker : Worker)
    → IsValid m
    → m.live ≡ some live
    → (info : SessionInfo) → (stop live.info.id reason worker m).1 ≡ returns info
    → ((info.id ≡ live.info.id) × (info.stop_reason ≡ some reason))
      × ((info.state
            ≡ (if truthy worker.stop_raises || truthy worker.error then failed else stopped))
          × ((stop live.info.id reason worker m).0.last ≡ some info))
unfolding step
stop-Ending m live reason worker v is_live info result = ground arith

-- A start leaves the manager as it was when there is no factory for the kind or a session is live;
-- otherwise the slot holds the new session if its worker starts, and is free again if it does not.
pub start-Slot :
    (available : Bool) (kind : SessionKind) (profile : String) (id started_at now : ℕ)
    (worker : Worker) (m : SessionManager)
    → (((available ≡ false) ⊎ (m.live ≢ none))
        × ((start available kind profile id started_at now worker m).0 ≡ m))
      ⊎ (((m.live ≡ none) × (worker.start_raises ≡ none))
          × ((start available kind profile id started_at now worker m).0.live
              ≡ some (record {
                info = record (new_info kind profile id started_at) { state = running };
                last_heartbeat = now;
              })))
      ⊎ (((m.live ≡ none) × (worker.start_raises ≢ none))
          × ((start available kind profile id started_at now worker m).0.live ≡ none))
unfolding step
start-Slot available kind profile id started_at now worker m = ground arith
