-- ===== src/Episodes.antt =====
-- packages/nexarm_service/src/nexarm_service/record.py: the episodes of RecordingWorker. A tick is
-- one round of the control loop, with the presses of other threads before its checks and during
-- the rest of it; times are natural numbers. The dataset is its saved episodes and its buffer.
pub mod Laws
pub mod Quiet
mod Tests
use lerobot_nexarm.Prelude.{
  ℕ, zero, suc, ◌+◌, Bool, true, false, not, ◌&&◌, ◌||◌, List, [], ◌∷◌, ◌++◌, Option, none, some,
  ltb, leb, length, if◌then◌else◌,
}

-- The actions of `control`; a `set_task` has none for a text that is empty once stripped.
pub data Action : Type 0 where
  exit_early rerecord finish pause resume other : Action
  set_task : Option ℕ → Action

pub data Press : Type 0 where
  asks : Action → Press
  stops : Press

pub data Phase : Type 0 where
  preparing recording saving resetting finished : Phase

-- A frame of the dataset, with its task.
pub record Frame (A : Type 0) : Type 0 where
  pub sample : A
  pub task : ℕ

-- `save_raises` tells for which buffers the library's `save_episode` raises.
pub record Config (A : Type 0) : Type 0 where
  pub num_episodes : ℕ
  pub episode_time : ℕ
  pub reset_time : ℕ
  pub save_raises : List (Frame A) → Bool

pub record Recorder (A : Type 0) : Type 0 where
  pub flag_exit_early : Bool
  pub flag_rerecord : Bool
  pub flag_finish : Bool
  pub is_paused : Bool
  pub is_stopping : Bool
  pub phase : Phase
  pub task : ℕ
  pub episodes_recorded : ℕ
  pub frames : ℕ
  pub elapsed : ℕ
  pub buffer : List (Frame A)
  pub saved : List (List (Frame A))

-- A round `fails` where a read of an arm, the sending of the action or the library's `add_frame`
-- raises.
pub record Tick (A : Type 0) : Type 0 where
  pub before : List Press
  pub fails : Bool
  pub sample : A
  pub took : ℕ
  pub during : List Press

-- What `_episode` returns; `raises` for its exception, `pending` where the ticks end before it does.
pub data Outcome : Type 0 where
  done left_early rerecords stopped raises pending : Outcome

pub record Episode (A : Type 0) : Type 0 where
  pub outcome : Outcome
  pub recorder : Recorder A
  pub rest : List (Tick A)

-- What `_run` comes to: `left` for its return, `ended` for its last line, `failed` for an exception.
pub data Result : Type 0 where
  left ended failed waits : Result

pub record Ran (A : Type 0) : Type 0 where
  pub result : Result
  pub recorder : Recorder A
  pub rest : List (Tick A)

module _ {A : Type 0} where
  unfoldable pub new_recorder : ℕ → Recorder A
  new_recorder task = record {
    flag_exit_early = false;
    flag_rerecord = false;
    flag_finish = false;
    is_paused = false;
    is_stopping = false;
    phase = preparing;
    task = task;
    episodes_recorded = 0;
    frames = 0;
    elapsed = 0;
    buffer = [];
    saved = [];
  }

  -- None for a `ValueError`.
  pub control : Action → Recorder A → Option (Recorder A)
  control exit_early s = some (record s { flag_exit_early = true })
  control rerecord s = some (record s { flag_rerecord = true })
  control finish s = some (record s { flag_finish = true })
  control pause s = some (record s { is_paused = true })
  control resume s = some (record s { is_paused = false })
  control (set_task none) s = none
  control (set_task (some t)) s = some (record s { task = t })
  control other s = none

  abbrev pub press : Press → Recorder A → Recorder A
  unfolding control
  press stops s = record s { is_stopping = true }
  press (asks a) s = elim (control a s) [ none ↦ s | some s' ↦ s' ]

  abbrev pub press_all : List Press → Recorder A → Recorder A
  press_all [] s = s
  press_all (p ∷ ps) s = press_all ps (press p s)

  abbrev pub add_frame : Bool → A → Recorder A → Recorder A
  add_frame is_recording a s =
      if is_recording && not s.is_paused
      then record s {
        frames = s.frames + 1;
        buffer = s.buffer ++ record { sample = a; task = s.task } ∷ [];
      }
      else s

  -- The checks at the head of a round; none where the round goes on.
  abbrev pub check : Bool → Recorder A → Option Outcome
  check is_recording s =
      if s.is_stopping
      then some stopped
      else if s.flag_rerecord && is_recording
      then some rerecords
      else if s.flag_exit_early || (s.flag_finish && is_recording)
      then some left_early
      else none

  abbrev pub checked : Outcome → Recorder A → Recorder A
  checked left_early s = record s { flag_exit_early = false }
  checked _ s = s

  abbrev pub lapse : ℕ → Recorder A → Recorder A
  lapse took s = if s.is_paused then s else record s { elapsed = s.elapsed + took }

  abbrev pub work : Bool → Tick A → Recorder A → Recorder A
  work is_recording t s = lapse t.took (press_all t.during (add_frame is_recording t.sample s))

  -- The loop of `_episode`.
  pub run_episode : Bool → ℕ → Recorder A → List (Tick A) → Episode A
  run_episode is_recording duration s [] = record {
    outcome = if ltb s.elapsed duration then pending else done;
    recorder = s;
    rest = [];
  }
  run_episode is_recording duration s (t ∷ ts) =
      let s' = press_all t.before s in
      let later = run_episode is_recording duration (work is_recording t s') ts in
      if ltb s.elapsed duration
      then elim (check is_recording s') [
        | none ↦
            if t.fails
            then record { outcome = raises; recorder = press_all t.during s'; rest = ts }
            else later
        | some o ↦ record { outcome = o; recorder = press_all t.during (checked o s'); rest = ts }
      ]
      else record { outcome = done; recorder = s; rest = t ∷ ts }

  -- `_episode`: its first lines and its loop.
  abbrev pub begin_episode : Bool → Recorder A → Recorder A
  begin_episode is_recording s = record s {
    frames = if is_recording then 0 else s.frames;
    elapsed = 0;
    flag_exit_early = false;
  }

  pub episode : Bool → ℕ → Recorder A → List (Tick A) → Episode A
  unfolding run_episode
  episode is_recording duration s ts =
      run_episode is_recording duration (begin_episode is_recording s) ts

  abbrev pub clear_buffer : Recorder A → Recorder A
  clear_buffer s = record s { buffer = [] }

  abbrev pub save_episode : Recorder A → Recorder A
  save_episode s = record s {
    phase = saving;
    saved = s.saved ++ s.buffer ∷ [];
    buffer = [];
    episodes_recorded = s.episodes_recorded + 1;
  }

  abbrev pub in_phase : Phase → Recorder A → Recorder A
  in_phase p s = record s { phase = p }

  abbrev pub is_last : Config A → Recorder A → Bool
  is_last c s = s.flag_finish || leb c.num_episodes s.episodes_recorded

  -- One pass of `_run` after its recording has returned; `none` for a `continue` or a next pass.
  abbrev pub after_recording : Config A → Episode A → Option Result × Recorder A × List (Tick A)
  after_recording c e =
      let s = e.recorder in
      let s' = save_episode s in
      let reset = episode false c.reset_time (in_phase resetting s') e.rest in
      elim e.outcome [
        | pending ↦ (some waits, s, e.rest)
        | raises ↦ (some failed, s, e.rest)
        | rerecords ↦ (none, record (clear_buffer s) { flag_rerecord = false }, e.rest)
        | _ ↦
            if s.is_stopping
            then (some left, clear_buffer s, e.rest)
            else if c.save_raises s.buffer
            then (some failed, in_phase saving s, e.rest)
            else if is_last c s'
            then (some ended, in_phase finished s', e.rest)
            else elim reset.outcome [
              | pending ↦ (some waits, reset.recorder, reset.rest)
              | raises ↦ (some failed, reset.recorder, reset.rest)
              | _ ↦ (none, reset.recorder, reset.rest)
            ]
      ]

  -- `_run`, with as fuel the passes of its loop.
  pub run : ℕ → Config A → Recorder A → List (Tick A) → Ran A
  unfolding episode
  run zero c s ts = record { result = waits; recorder = s; rest = ts }
  run (suc n) c s ts =
      let pass = after_recording c (episode true c.episode_time (in_phase recording s) ts) in
      let later = run n c pass.1 pass.2 in
      if ltb s.episodes_recorded c.num_episodes && not s.is_stopping
      then elim pass.0 [
        | none ↦ later
        | some r ↦ record { result = r; recorder = pass.1; rest = pass.2 }
      ]
      else record { result = ended; recorder = in_phase finished s; rest = ts }

  pub run_session : Config A → Recorder A → List (Tick A) → Ran A
  unfolding run
  run_session c s ts = run (suc (c.num_episodes + length ts)) c s ts

  -- `_finalize`, which drops the frames of an unsaved episode.
  pub finalize : Recorder A → Recorder A
  finalize s = elim s.buffer [ [] ↦ s | f ∷ fs ↦ clear_buffer s ]
