-- ===== src/Recording.antt =====
-- packages/lerobot_robot_nexarm/src/lerobot_robot_nexarm/recording_session.py: the keys of a manual
-- recording and `run_manual_session`. A phase of the teleoperation loop is given by the keys
-- pressed while it runs, each with its time in milliseconds; the loop itself and the display are
-- parameters.
pub mod Laws
mod Tests
use lerobot_nexarm.Prelude.{
  ℕ, zero, suc, ◌-◌, Bool, true, false, not, ◌&&◌, ◌||◌, List, [], ◌∷◌, ltb, leb, if◌then◌else◌,
}

-- `KEY_DEBOUNCE_S`.
abbrev pub key_debounce : ℕ
key_debounce = 500

-- Enter, Right and n; Left and r; Esc and q; any other.
pub data Key : Type 0 where
  go discard finish other : Key

pub record Press : Type 0 where
  pub key : Key
  pub at : ℕ

-- `events`, with the time of the last press.
pub record Events : Type 0 where
  pub exit_early : Bool
  pub rerecord_episode : Bool
  pub stop_recording : Bool
  pub controls_enabled : Bool
  pub allow_rerecord : Bool
  pub last_press : ℕ

abbrev pub new_events : Events
new_events = record {
  exit_early = false;
  rerecord_episode = false;
  stop_recording = false;
  controls_enabled = false;
  allow_rerecord = false;
  last_press = 0;
}

abbrev pub is_ignored : Press → Events → Bool
is_ignored p e = not e.controls_enabled || ltb (p.at - e.last_press) key_debounce

-- `on_key`.
pub on_key : Press → Events → Events
on_key p e = elim p.key [
  | finish ↦ record e { stop_recording = true; exit_early = true }
  | other ↦ e
  | discard ↦
      if not e.allow_rerecord || is_ignored p e
      then e
      else record e { last_press = p.at; rerecord_episode = true; exit_early = true }
  | go ↦ if is_ignored p e then e else record e { last_press = p.at; exit_early = true }
]

pub press_all : List Press → Events → Events
unfolding on_key
press_all [] e = e
press_all (p ∷ ps) e = press_all ps (on_key p e)

-- `phase`, without the display.
pub phase : Bool → Events → Events
phase allow_rerecord e = record e {
  exit_early = false;
  rerecord_episode = false;
  allow_rerecord = allow_rerecord;
  controls_enabled = true;
}

-- The keys while an episode is collected, while it is saved and while the scene is reset, and
-- whether the episode has frames at its end.
pub record Round : Type 0 where
  pub collecting : List Press
  pub has_frames : Bool
  pub saving : List Press
  pub resetting : List Press

-- What the session did with the dataset, oldest first.
pub data Action : Type 0 where
  saved cleared : Action

pub record Session : Type 0 where
  pub events : Events
  pub recorded : ℕ
  pub actions : List Action

-- The events once the episode has been collected.
pub collect : Round → Events → Events
unfolding press_all phase
collect r e = record (press_all r.collecting (phase true e)) { controls_enabled = false }

abbrev pub keeps : Round → Events → Bool
keeps r e = not e.rerecord_episode && r.has_frames

abbrev pub then_did : Action → Session → Session
then_did a s = record s { actions = a ∷ s.actions }

-- The loop over the rounds that the operator makes, with the number of episodes still to record.
-- A session that has no more rounds is one that Ctrl+C ends.
pub run_rounds : ℕ → List Round → Events → ℕ → Session
unfolding collect phase press_all
run_rounds zero rounds e recorded = record { events = e; recorded = recorded; actions = [] }
run_rounds (suc left) [] e recorded = record { events = e; recorded = recorded; actions = [] }
run_rounds (suc left) (r ∷ rounds) e recorded =
    let collected = collect r e in
    let kept = press_all r.saving collected in
    let after_keep = press_all r.resetting (phase false kept) in
    let after_clear = press_all r.resetting (phase false collected) in
    let rest_kept = run_rounds left rounds after_keep (suc recorded) in
    let rest_cleared = run_rounds (suc left) rounds after_clear recorded in
    if e.stop_recording
    then record { events = e; recorded = recorded; actions = [] }
    else if keeps r collected
    then then_did saved (
        if kept.stop_recording || leb left 0
        then record { events = kept; recorded = suc recorded; actions = [] }
        else rest_kept)
    else then_did cleared (
        if collected.stop_recording
        then record { events = collected; recorded = recorded; actions = [] }
        else rest_cleared)

-- `run_manual_session`, from the keys of the wait for the start.
pub run_manual_session : ℕ → List Press → List Round → Session
unfolding run_rounds
run_manual_session num_episodes waiting rounds =
    let ready = press_all waiting (phase false new_events) in
    let s = run_rounds num_episodes rounds (record ready { exit_early = false }) 0 in
    record s { events = record (s.events) { controls_enabled = false } }
