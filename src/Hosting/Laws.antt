-- ===== src/Hosting/Laws.antt =====
-- remote_teleop.py: what the station commands, and whom it listens to.
use native.Mathlib.Nat.{div-le_of_le-mul, mul-le-mul_left, mul_comm}
use lerobot_nexarm.Prelude.{
  ℕ, ◌+◌, ◌-◌, ◌*◌, ◌≤◌, ◌<◌, min, max, ◌≡◌, ◌≢◌, true, List, none, arith, inl, inr, Option-cases,
  Bool-cases,
}
use lerobot_nexarm.Prelude.Int.{ℤ}
use lerobot_nexarm.Safety.{all_within}
use lerobot_nexarm.Safety.Ramp.Laws.{step_pose-within}
use lerobot_nexarm.Hosting.{
  Params, Station, try_attach, detach, on_action, soft_cap, is_silent, follow, round,
}

soft_cap-le : (p : Params) (engaged_for : ℕ) → soft_cap p engaged_for ≤ p.full_cap
unfolding soft_cap
soft_cap-le p engaged_for =
    let soft = max p.soft_start 1 in
    div-le_of_le-mul (10 * soft) (
      rw (mul_comm (10 * soft) p.full_cap) (
        mul-le-mul_left {m = min (10 * soft) (2 * soft + 8 * engaged_for)} {n = 10 * soft}
          p.full_cap (omega arith)))

follow-within :
    (p : Params) (began : ℕ) (s : Station)
    → all_within p.full_cap s.commanded (follow p began s).commanded ≡ true
unfolding follow
follow-within p began s = elim (Option-cases s.operator) [
  | inl e ↦ rw (follow, e) (step_pose-within p.full_cap p.full_cap s.commanded p.rest (omega arith))
  | inr (operator, e) ↦ elim (Option-cases s.target) [
    | inl f ↦
        rw (follow, e, f) (step_pose-within 0 p.full_cap s.commanded s.commanded (omega arith))
    | inr (target, f) ↦
        let cap = soft_cap p (began - s.engaged_at) in
        rw (follow, e, f)
          (step_pose-within cap p.full_cap s.commanded target
            (soft_cap-le p (began - s.engaged_at)))
  ]
]

-- Whatever an operator sends or when it leaves, one round of the station moves no joint of its
-- command by more than the full cap.
pub round-within :
    (p : Params) (began : ℕ) (s : Station)
    → all_within p.full_cap s.commanded (round p began s).commanded ≡ true
unfolding round detach
round-within p began s = elim (Bool-cases (is_silent p began s)) [
  | inl silent ↦ rw (round, silent) (follow-within p began (detach s))
  | inr heard ↦ rw (round, heard) (follow-within p began s)
]

-- After a round that leaves an operator attached, its last frame, or its attachment, is no older
-- than the time of silence.
pub round-heard :
    (p : Params) (began : ℕ) (s : Station)
    → (round p began s).operator ≢ none
    → began ≤ s.last_frame + p.silence
unfolding round follow detach
round-heard p began s attached = ground arith

-- After an operator whose frames reached a higher number has left, the frames of the next one with
-- lower numbers are dropped, and the first round after the time of silence detaches it.
pub try_attach-on_action :
    (p : Params) (s : Station) (operator seq now then_now began : ℕ) (ticks : List ℤ)
    → s.is_accepting ≡ true
    → s.operator ≡ none
    → seq < s.echo_seq
    → now + p.silence < began
    → (on_action then_now seq ticks (try_attach now operator s).0 ≡ (try_attach now operator s).0)
      × ((round p began (on_action then_now seq ticks (try_attach now operator s).0)).operator
          ≡ none)
unfolding round follow detach on_action try_attach
try_attach-on_action p s operator seq now then_now began ticks accepting free older late =
    ground arith
