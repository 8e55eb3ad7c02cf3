-- ===== src/Recording/Laws.antt =====
-- recording_session.py: what is saved.
use lerobot_nexarm.Prelude.{
  ℕ, zero, suc, ◌+◌, ◌≤◌, ◌≡◌, refl, sym, ap, subst, ◌⊎◌, inl, inr, Bool, true, false, List, [],
  ◌∷◌, arith, if◌then◌else◌,
}
use lerobot_nexarm.Recording.{
  Press, Events, new_events, on_key, press_all, phase, Round, Action, saved, cleared, collect,
  keeps, run_rounds, run_manual_session,
}

abbrev pub is_saved : Action → Bool
is_saved saved = true
is_saved cleared = false

abbrev pub saves : List Action → ℕ
saves [] = 0
saves (a ∷ as') = (if is_saved a then 1 else 0) + saves as'

run_rounds-saves :
    (left : ℕ) (rounds : List Round) (e : Events) (recorded : ℕ)
    → (saves (run_rounds left rounds e recorded).actions ≤ left)
      × ((run_rounds left rounds e recorded).recorded
          ≡ recorded + saves (run_rounds left rounds e recorded).actions)
unfolding run_rounds
run_rounds-saves zero rounds e recorded = ground arith
run_rounds-saves (suc left) [] e recorded = ground arith
run_rounds-saves (suc left) (r ∷ rounds) e recorded =
    let collected = collect r e in
    let kept = press_all r.saving collected in
    let after_keep = press_all r.resetting (phase false kept) in
    let after_clear = press_all r.resetting (phase false collected) in
    let rest_kept = run_rounds-saves left rounds after_keep (suc recorded) in
    let rest_cleared = run_rounds-saves (suc left) rounds after_clear recorded in ground arith

-- Whatever keys are pressed, a session saves no more than the episodes asked for, and its count of
-- recorded episodes is that of the saves.
pub run_manual_session-saves :
    (num_episodes : ℕ) (waiting : List Press) (rounds : List Round)
    → let s = run_manual_session num_episodes waiting rounds in
      (saves s.actions ≤ num_episodes) × (s.recorded ≡ saves s.actions)
unfolding run_manual_session
run_manual_session-saves num_episodes waiting rounds =
    let ready = press_all waiting (phase false new_events) in
    let all = run_rounds-saves num_episodes rounds (record ready { exit_early = false }) 0 in
    ground arith

on_key-off :
    (p : Press) (e : Events)
    → e.controls_enabled ≡ false
    → (on_key p e ≡ e) ⊎ (on_key p e ≡ record e { stop_recording = true; exit_early = true })
unfolding on_key
on_key-off p e off = ground arith

-- While the controls are off, as they are while an episode is saved, the keys pressed change
-- nothing, or nothing but to end the session.
pub press_all-off :
    (ps : List Press) (e : Events)
    → e.controls_enabled ≡ false
    → (press_all ps e ≡ e)
      ⊎ (press_all ps e ≡ record e { stop_recording = true; exit_early = true })
unfolding press_all
press_all-off [] e off = inl refl
press_all-off (p ∷ ps) e off = elim (on_key-off p e off) [
  | inl same ↦ subst Ends (sym (ap (press_all ps) same)) (press_all-off ps e off)
  | inr ended ↦
      subst Ends (sym (ap (press_all ps) ended))
        (elim (press_all-off ps (record e { stop_recording = true; exit_early = true }) off) [
          | inl f ↦ inr f
          | inr f ↦ inr f
        ])
]
  where
    Ends : Events → Type 0
    Ends e' = (e' ≡ e) ⊎ (e' ≡ record e { stop_recording = true; exit_early = true })

on_key-stop :
    (p : Press) (e : Events) → e.stop_recording ≡ true → (on_key p e).stop_recording ≡ true
unfolding on_key
on_key-stop p e stops = ground arith

press_all-stop :
    (ps : List Press) (e : Events)
    → e.stop_recording ≡ true
    → (press_all ps e).stop_recording ≡ true
unfolding press_all
press_all-stop [] e stops = stops
press_all-stop (p ∷ ps) e stops = press_all-stop ps (on_key p e) (on_key-stop p e stops)

-- When the finish key is pressed while an episode is collected, the episode is saved, if it has
-- frames and was not discarded, or cleared, and the session ends with it.
pub run_rounds-finish :
    (left recorded : ℕ) (r : Round) (rounds : List Round) (e : Events)
    → e.stop_recording ≡ false
    → (collect r e).stop_recording ≡ true
    → (run_rounds (suc left) (r ∷ rounds) e recorded).actions
      ≡ (if keeps r (collect r e) then saved else cleared) ∷ []
unfolding run_rounds
run_rounds-finish left recorded r rounds e runs stops =
    let ends = press_all-stop r.saving (collect r e) stops in ground arith
