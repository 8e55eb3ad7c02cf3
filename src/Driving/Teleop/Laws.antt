-- ===== src/Driving/Teleop/Laws.antt =====
-- teleop.py: what teleoperation sends.
use lerobot_nexarm.Prelude.{
  ℕ, suc, Bool, true, false, ◌+◌, ◌≡◌, inl, inr, refl, List, [], ◌∷◌, Option, none, some, length,
  arith, Bool-cases, Option-cases,
}
use lerobot_nexarm.Safety.Limits.{Action, soft_limits, clamp_action}
use lerobot_nexarm.Safety.Limits.Laws.{IsClamped, clamp_action-IsClamped}
use lerobot_nexarm.Driving.{Driven}
use lerobot_nexarm.Driving.Teleop.{Turn, drive_turn, drive}

-- Each sent action is the leader's of its turn, clamped, and the turn is not stopped.
abbrev pub Follows : List Turn → List Action → Type 0
Follows turns [] = Unit
Follows [] (out ∷ outs) = ⊥
Follows (t ∷ turns) (out ∷ outs) =
    ((action : Action) × (t.asked ≡ some action)
      × (t.round.is_stopped ≡ false)
      × (t.round.observe_fails ≡ false)
      × IsClamped soft_limits action out)
    × Follows turns outs

abbrev pub Drives : ℕ → List Turn → Driven → Type 0
Drives ticks turns d = Follows turns d.sent × (d.ticks ≡ ticks + length d.sent)

drive_turn-Drives :
    (t : Turn) (turns : List Turn) (ticks : ℕ) (rest : Driven)
    → Drives (suc ticks) turns rest
    → Drives ticks (t ∷ turns) (drive_turn t ticks rest)
drive_turn-Drives t turns ticks rest h = by_round t.round.is_stopped refl t.asked refl
  where
    by_round :
        (s : Bool)
        → t.round.is_stopped ≡ s
        → (asked : Option Action) → t.asked ≡ asked
        → Drives ticks (t ∷ turns) (drive_turn t ticks rest)
    by_round true e asked f = rw e (tt, omega arith)
    by_round false e none f = rw (e, f) (tt, omega arith)
    by_round false e (some action) f =
        rw (e, f)
          (elim (Option-cases (clamp_action action)) [
            | inl k ↦ rw k (tt, omega arith)
            | inr found ↦ rw found.1 (elim (Bool-cases t.round.observe_fails) [
              | inl o ↦ rw o (tt, omega arith)
              | inr o ↦ rw o (elim (Bool-cases t.round.send_fails) [
                | inl b ↦ rw b (tt, omega arith)
                | inr b ↦ rw b (
                  ((action, refl, refl, refl, clamp_action-IsClamped action found.0 found.1), h.0),
                  omega (arith, h.1),
                )
              ])
            ])
          ])

drive-Drives : (turns : List Turn) (ticks : ℕ) → Drives ticks turns (drive ticks turns)
unfolding drive
drive-Drives [] ticks = (tt, omega arith)
drive-Drives (t ∷ turns) ticks =
    drive_turn-Drives t turns ticks (drive (suc ticks) turns) (drive-Drives turns (suc ticks))
