-- ===== src/Coaching.antt =====
-- packages/nexarm_service/src/nexarm_service/coaching.py: the controls of a coaching session and
-- the saving of a correction. The phases belong to the library's strategy, whose transitions are a
-- parameter; the hold pose is kept as whether there is one.
pub mod Laws
mod Tests
use lerobot_nexarm.Prelude.{
  ℕ, zero, suc, ◌+◌, ◌≡◌, Bool, true, false, List, [], ◌∷◌, Option, none, some, if◌then◌else◌,
}

pub data Phase : Type 0 where
  autonomous paused correcting : Phase

pub data Transition : Type 0 where
  pause_resume correction : Transition

pub data Action : Type 0 where
  finish reset takeover handback hold resume drop_last : Action
  other : ℕ → Action

-- A requested transition, with the phase that it must reach.
pub record Step : Type 0 where
  pub event : Transition
  pub target : Phase

pub data Refusal : Type 0 where
  not_running hand_back_first unsupported not_possible still_in_progress : Refusal

-- The chain that a helper thread carries out, and whether the reset to rest follows it.
pub data Outcome : Type 0 where
  accepted : Outcome
  runs : List Step → Bool → Outcome
  refused : Refusal → Outcome

-- `is_chained` is the lock `_chain`; `num_episodes` is in the strategy's configuration.
pub record Coach : Type 0 where
  pub has_strategy : Bool
  pub phase : Phase
  pub is_holding : Bool
  pub discard_next : Bool
  pub discarded : ℕ
  pub corrections : ℕ
  pub num_episodes : ℕ
  pub is_chained : Bool
  pub stops_recording : Bool

abbrev pub pause : Step
pause = record { event = pause_resume; target = paused }

abbrev pub go_on : Step
go_on = record { event = pause_resume; target = autonomous }

abbrev pub correct : Step
correct = record { event = correction; target = correcting }

abbrev pub end_correction : Step
end_correction = record { event = correction; target = paused }

-- `_PLANS`, for the controls that are among its keys.
abbrev pub plan : Action → Phase → Option (List Step)
plan takeover autonomous = some (pause ∷ correct ∷ [])
plan takeover paused = some (correct ∷ [])
plan handback correcting = some (end_correction ∷ go_on ∷ [])
plan handback paused = some (go_on ∷ [])
plan hold autonomous = some (pause ∷ [])
plan resume paused = some (go_on ∷ [])
plan drop_last correcting = some (end_correction ∷ [])
plan _ _ = none

-- `_run_chain`, up to the thread that it starts.
pub run_chain : List Step → Bool → Coach → Coach × Outcome
run_chain steps resets c =
    if c.is_chained
    then (c, refused still_in_progress)
    else (record c { is_chained = true }, runs steps resets)

-- What `control` changes before it runs the chain.
pub before_chain : Action → Coach → Coach
before_chain drop_last c = record c { discard_next = true; num_episodes = suc c.num_episodes }
before_chain takeover c = record c { is_holding = false }
before_chain handback c = record c { is_holding = false }
before_chain resume c = record c { is_holding = false }
before_chain _ c = c

pub run_plan : Action → Coach → Coach × Outcome
unfolding run_chain before_chain
run_plan a c = elim (plan a c.phase) [
  | none ↦ (c, refused not_possible)
  | some steps ↦ run_chain steps false (before_chain a c)
]

pub start_reset : Coach → Coach × Outcome
unfolding run_chain
start_reset c = elim c.phase [
  | correcting ↦ (c, refused hand_back_first)
  | autonomous ↦ run_chain (pause ∷ []) true c
  | paused ↦ run_chain [] true c
]

pub control_running : Action → Coach → Coach × Outcome
unfolding run_plan start_reset
control_running finish c = (record c { stops_recording = true }, accepted)
control_running reset c = start_reset c
control_running (other name) c = (c, refused unsupported)
control_running a c = run_plan a c

pub control : Action → Coach → Coach × Outcome
unfolding control_running
control a c = if c.has_strategy then control_running a c else (c, refused not_running)

-- `save_episode`, and whether the episode was saved.
pub save_episode : Coach → Coach × Bool
save_episode c =
    if c.discard_next
    then (record c { discard_next = false; discarded = suc c.discarded }, false)
    else (record c { corrections = suc c.corrections }, true)

-- The helper thread over the strategy's transitions: the phase at the end, or none if a phase is
-- not the step's target.
abbrev pub is_phase : Phase → Phase → Bool
is_phase autonomous autonomous = true
is_phase paused paused = true
is_phase correcting correcting = true
is_phase _ _ = false

abbrev pub carry_out : (Transition → Phase → Phase) → List Step → Phase → Option Phase
carry_out transition [] p = some p
carry_out transition (s ∷ ss) p =
    let reached = carry_out transition ss (transition s.event p) in
    if is_phase (transition s.event p) s.target then reached else none
