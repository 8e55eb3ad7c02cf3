-- ===== src/Episodes/Quiet.antt =====
-- record.py: a session that nobody interrupts records the episodes that were asked for.
use lerobot_nexarm.Prelude.{
  ℕ, zero, suc, ◌+◌, ◌-◌, ◌*◌, ◌≤◌, ◌<◌, ◌≡◌, ◌⊎◌, Bool, true, false, List, [], ◌∷◌, none, some,
  length, arith, All,
}
use lerobot_nexarm.Episodes.{
  recording, resetting, Frame, Config, Recorder, Tick, done, Episode, ended, press_all, check, work,
  run_episode, begin_episode, episode, save_episode, in_phase, after_recording, run, run_session,
}

module _ {A : Type 0} where
  abbrev pub IsQuiet : Tick A → Type 0
  IsQuiet t = (t.before ≡ []) × (t.during ≡ []) × (t.fails ≡ false) × (0 < t.took)

  abbrev pub IsFree : Recorder A → Type 0
  IsFree s =
      (s.flag_exit_early ≡ false)
      × (s.flag_rerecord ≡ false)
      × (s.flag_finish ≡ false)
      × (s.is_paused ≡ false)
      × (s.is_stopping ≡ false)

  -- A period that runs to its end, within as many rounds as its time.
  abbrev pub IsWhole : ℕ → Recorder A → List (Tick A) → Episode A → Type 0
  IsWhole time s ts e =
      (e.outcome ≡ done)
      × IsFree e.recorder
      × (e.recorder.episodes_recorded ≡ s.episodes_recorded)
      × (length ts ≤ length e.rest + time)
      × All IsQuiet e.rest

  work_uninterrupted :
      (r : Bool) (t : Tick A) (s : Recorder A)
      → IsQuiet t
      → IsFree s
      → IsFree (work r t (press_all t.before s))
        × ((work r t (press_all t.before s)).elapsed ≡ s.elapsed + t.took)
        × ((work r t (press_all t.before s)).episodes_recorded ≡ s.episodes_recorded)
        × (check r (press_all t.before s) ≡ none)
  work_uninterrupted r t s q f = rw q.0 (rw q.1 (ground arith))

  run_episode-IsWhole :
      (r : Bool) (duration : ℕ) (s : Recorder A) (ts : List (Tick A))
      → All IsQuiet ts
      → IsFree s
      → duration ≤ s.elapsed + length ts
      → IsWhole (duration - s.elapsed) s ts (run_episode r duration s ts)
  unfolding run_episode
  run_episode-IsWhole r d s [] q f h = ground arith
  run_episode-IsWhole r d s (t ∷ ts) q f h =
      let s' = press_all t.before s in
      ground (arith, work_uninterrupted r t s, run_episode-IsWhole r d (work r t s') ts)

  -- The library saves every episode.
  abbrev pub Saves : Config A → Type 0
  Saves c = (frames : List (Frame A)) → c.save_raises frames ≡ false

  pass_uninterrupted :
      (c : Config A) (s : Recorder A) (ts : List (Tick A))
      → All IsQuiet ts
      → IsFree s
      → Saves c
      → c.episode_time + c.reset_time ≤ length ts
      → let e = episode true c.episode_time (in_phase recording s) ts in
        let p = after_recording c e in
        (p.1.episodes_recorded ≡ suc s.episodes_recorded)
        × ((p.0 ≡ some ended)
            ⊎ ((p.0 ≡ none)
                × IsFree p.1
                × (length ts ≤ length p.2 + (c.episode_time + c.reset_time))
                × All IsQuiet p.2))
        × ((p.0 ≡ none) ⊎ (c.num_episodes ≤ suc s.episodes_recorded))
  unfolding episode
  pass_uninterrupted c s ts q f saves h =
      let s0 = begin_episode true (in_phase recording s) in
      let e = run_episode true c.episode_time s0 ts in
      let s1 = begin_episode false (in_phase resetting (save_episode e.recorder)) in
      ground (
        arith,
        run_episode-IsWhole true c.episode_time s0 ts,
        saves e.recorder.buffer,
        run_episode-IsWhole false c.reset_time s1 e.rest,
      )

  run_uninterrupted :
      (n k : ℕ) (c : Config A) (s : Recorder A) (ts : List (Tick A))
      → Saves c
      → k < n
      → c.num_episodes ≡ s.episodes_recorded + k
      → All IsQuiet ts
      → IsFree s
      → k * (c.episode_time + c.reset_time) ≤ length ts
      → ((run n c s ts).result ≡ ended)
        × ((run n c s ts).recorder.episodes_recorded ≡ c.num_episodes)
  unfolding run
  run_uninterrupted zero k c s ts saves fuel todo q f h = absurd (omega arith)
  run_uninterrupted (suc n) zero c s ts saves fuel todo q f h = ground arith
  run_uninterrupted (suc n) (suc k) c s ts saves fuel todo q f h =
      let time = c.episode_time + c.reset_time in
      let e = episode true c.episode_time (in_phase recording s) ts in
      let p = after_recording c e in
      let more : (suc k * time) ≡ k * time + time = omega arith in
      ground (
        arith,
        pass_uninterrupted c s ts q f saves (omega (arith, more)),
        run_uninterrupted n k c p.1 p.2 saves,
      )

  -- With no presses, no call that raises, rounds that take time and enough of them for each episode and its reset, a
  -- session that nothing holds back ends with the episodes that were asked for.
  pub run_session_uninterrupted :
      (c : Config A) (s : Recorder A) (ts : List (Tick A))
      → s.episodes_recorded ≤ c.num_episodes
      → All IsQuiet ts
      → IsFree s
      → Saves c
      → (c.num_episodes - s.episodes_recorded) * (c.episode_time + c.reset_time) ≤ length ts
      → ((run_session c s ts).result ≡ ended)
        × ((run_session c s ts).recorder.episodes_recorded ≡ c.num_episodes)
  unfolding run_session
  run_session_uninterrupted c s ts h q f saves enough =
      run_uninterrupted (suc (c.num_episodes + length ts)) (c.num_episodes - s.episodes_recorded) c
        s ts saves (omega arith) (omega arith) q f enough
