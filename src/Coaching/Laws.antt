-- ===== src/Coaching/Laws.antt =====
-- coaching.py: what a control does to the phase and to the corrections.
use lerobot_nexarm.Prelude.{suc, ◌≡◌, Bool, true, false, List, some, arith}
use lerobot_nexarm.Coaching.{
  Phase, autonomous, paused, correcting, Transition, pause_resume, correction, Action, takeover,
  handback, resume, drop_last, Step, Refusal, still_in_progress, runs, refused, Coach, run_chain,
  before_chain, run_plan, start_reset, control_running, control, save_episode, carry_out,
}

-- What the engine relies on: one event toggles the pause, the other a correction.
pub record IsToggling (transition : Transition → Phase → Phase) : Type 0 where
  pub pauses : transition pause_resume autonomous ≡ paused
  pub resumes : transition pause_resume paused ≡ autonomous
  pub corrects : transition correction paused ≡ correcting
  pub ends : transition correction correcting ≡ paused

-- The phase that an operator asks for with a control.
abbrev pub asked : Action → Phase
asked takeover = correcting
asked handback = autonomous
asked resume = autonomous
asked _ = paused

-- Over transitions that toggle, the chain that an accepted control runs passes each of its steps
-- and ends in the phase that the control asks for.
pub control-carry_out :
    (transition : Transition → Phase → Phase)
    → IsToggling transition
    → (a : Action) (c : Coach) (steps : List Step) (resets : Bool)
    → (control a c).1 ≡ runs steps resets
    → carry_out transition steps c.phase ≡ some (asked a)
unfolding control control_running run_plan start_reset run_chain before_chain
control-carry_out transition t a c steps resets accepts = ground arith

-- While a handover is in progress a drop of the last correction is refused, and yet the next
-- correction is discarded instead of saved, and the target of episodes has grown by one.
pub drop_last-save_episode :
    (c : Coach)
    → c.has_strategy ≡ true
    → c.phase ≡ correcting
    → c.is_chained ≡ true
    → ((control drop_last c).1 ≡ refused still_in_progress)
      × (((control drop_last c).0.num_episodes ≡ suc c.num_episodes)
          × (((save_episode (control drop_last c).0).1 ≡ false)
              × ((save_episode (control drop_last c).0).0.discarded ≡ suc c.discarded)))
unfolding control control_running run_plan run_chain before_chain save_episode
drop_last-save_episode c has_strategy is_correcting is_chained = ground arith

-- While no handover is in progress, a control that is refused changes nothing.
pub control-Refusal :
    (a : Action) (c : Coach) (refusal : Refusal)
    → c.is_chained ≡ false
    → (control a c).1 ≡ refused refusal
    → (control a c).0 ≡ c
unfolding control control_running run_plan start_reset run_chain before_chain
control-Refusal a c refusal unchained is_refused = ground arith
