-- ===== src/Episodes/Laws.antt =====
-- record.py: the loop of the recording worker ends, and what it has saved when it does.
use lerobot_nexarm.Prelude.{
  ℕ, zero, ◌+◌, ◌-◌, ◌≤◌, ◌<◌, ◌≡◌, ◌≢◌, ◌⊎◌, true, false, List, [], ◌∷◌, ◌++◌, if◌then◌else◌,
  length, arith,
}
use lerobot_nexarm.Episodes.{
  Config, Recorder, Tick, rerecords, pending, failed, finalize, Episode, ended, waits, Ran,
  run_episode, run_session,
}

module _ {A : Type 0} where
  -- What no press and no round changes.
  abbrev pub HasSaved : Recorder A → Recorder A → Type 0
  HasSaved s s' = (s'.episodes_recorded ≡ s.episodes_recorded) × (s'.saved ≡ s.saved)

  -- What a period leaves of the recorder and of the ticks.
  abbrev pub IsPeriod : Recorder A → List (Tick A) → Episode A → Type 0
  IsPeriod s ts e =
      HasSaved s e.recorder
      × (length e.rest ≤ length ts)
      × ((e.outcome ≢ rerecords) ⊎ (length e.rest < length ts))
      × ((e.outcome ≢ pending) ⊎ (e.rest ≡ []))

  -- As many episodes saved as counted, and no more than asked for.
  abbrev pub IsCounted : Config A → Recorder A → Type 0
  IsCounted c s = (length s.saved ≡ s.episodes_recorded) × (s.episodes_recorded ≤ c.num_episodes)

  -- Between the passes of the loop: as many saved as counted, no more than asked for, none begun.
  abbrev pub IsBetween : Config A → Recorder A → Type 0
  IsBetween c s =
      (length s.saved ≡ s.episodes_recorded)
      × (s.episodes_recorded ≤ c.num_episodes)
      × (s.buffer ≡ [])

  pub passes : Config A → Recorder A → List (Tick A) → ℕ
  passes c s ts = (c.num_episodes - s.episodes_recorded) + length ts

  abbrev IsLeft : Config A → Ran A → Type 0
  IsLeft c r =
      ((r.result ≡ waits) × (r.rest ≡ []))
      ⊎ ((r.result ≡ failed) × IsCounted c r.recorder)
      ⊎ ((r.result ≢ waits) × IsBetween c r.recorder)

  -- The loop waits with no rounds left; or it has ended, and is between two episodes once
  -- `_finalize` has run, and before that already unless it has failed.
  abbrev pub IsOver : Config A → Ran A → Type 0
  IsOver c r =
      ((r.result ≡ waits) × (r.rest ≡ []))
      ⊎ ((r.result ≢ waits)
          × IsBetween c (finalize r.recorder)
          × ((r.result ≡ failed) ⊎ IsBetween c r.recorder))

  -- A round without presses.
  abbrev pub quiet : A → ℕ → Tick A
  quiet a took = record { before = []; fails = false; sample = a; took = took; during = [] }

  -- A finish that is pending when a recording starts, such as one pressed during the reset, saves
  -- an episode without a frame, and ends the session, with an exception if the library refuses such
  -- an episode; nothing else is pressed meanwhile.
  pub run_session-finish :
      (c : Config A) (s : Recorder A) (a : A) (took : ℕ) (ts : List (Tick A))
      → s.episodes_recorded < c.num_episodes
      → zero < c.episode_time
      → s.flag_finish ≡ true
      → s.flag_rerecord ≡ false
      → s.is_stopping ≡ false
      → s.buffer ≡ []
      → let r = run_session c s (quiet a took ∷ ts) in
        (r.result ≡ (if c.save_raises [] then failed else ended))
        × (r.recorder.saved ≡ (if c.save_raises [] then s.saved else s.saved ++ [] ∷ []))
  unfolding run_session run_episode
  run_session-finish c s a took ts h d f r p b = ground arith
