-- ===== src/Hosting.antt =====
-- packages/nexarm_service/src/nexarm_service/remote_teleop.py: `HostingWorker`, the station that lets
-- one operator drive its arm. Ticks and times are whole numbers, times in milliseconds; `full_cap`
-- is the rate cap of one round in ticks, and the soft start's cap is rounded down. An operator is
-- a number. A round is given the time at which it began and runs at once; what it sends to the arm
-- is its command through `clamp_action`, which Safety.Limits has.
pub mod Laws
use lerobot_nexarm.Prelude.{
  ℕ, ◌+◌, ◌-◌, ◌*◌, ◌/◌, min, max, Bool, true, false, List, [], ◌∷◌, Option, none, some, ltb, leb,
  if◌then◌else◌,
}
use lerobot_nexarm.Prelude.Int.{ℤ, pos, pos_part, clamp}
use lerobot_nexarm.Safety.{Pose, all_within}
use lerobot_nexarm.Safety.Limits.{Limit, soft_limits}
use lerobot_nexarm.Safety.Ramp.{step_pose}

pub data Phase : Type 0 where
  parked parking engaging engaged : Phase

pub record Params : Type 0 where
  pub full_cap : ℕ
  pub silence : ℕ
  pub soft_start : ℕ
  pub rest : Pose

pub record Station : Type 0 where
  pub operator : Option ℕ
  pub is_accepting : Bool
  pub target : Option Pose
  pub last_frame : ℕ
  pub echo_seq : ℕ
  pub engaged_at : ℕ
  pub commanded : Pose
  pub phase : Phase

pub data Refusal : Type 0 where
  not_accepting : Refusal
  driven_by : ℕ → Refusal

pub data Control : Type 0 where
  park block allow : Control

unfoldable pub new_station : Params → Station
new_station p = record {
  operator = none;
  is_accepting = true;
  target = none;
  last_frame = 0;
  echo_seq = 0;
  engaged_at = 0;
  commanded = p.rest;
  phase = parked;
}

-- `clamp_action(to_action(ticks))`, in the order of the joints.
unfoldable pub clamp_ticks : List Limit → List ℤ → Pose
clamp_ticks (l ∷ ls) (t ∷ ts) = pos_part (clamp (pos l.low) (pos l.high) t) ∷ clamp_ticks ls ts
clamp_ticks _ _ = []

unfoldable pub try_attach : ℕ → ℕ → Station → Station × Option Refusal
try_attach now operator s =
    if s.is_accepting
    then elim s.operator [
      | some other ↦ (s, some (driven_by other))
      | none ↦ (
        record s {
          operator = some operator;
          target = none;
          engaged_at = now;
          last_frame = now;
          phase = engaging;
        },
        none,
      )
    ]
    else (s, some not_accepting)

abbrev pub left_phase : Phase → Phase
left_phase parked = parked
left_phase _ = parking

unfoldable pub detach : Station → Station
detach s = record s { operator = none; target = none; phase = left_phase s.phase }

unfoldable pub on_action : ℕ → ℕ → List ℤ → Station → Station
unfolding clamp_ticks
on_action now seq ticks s = elim s.operator [
  | none ↦ s
  | some operator ↦ if ltb seq s.echo_seq then s else record s {
    target = some (clamp_ticks soft_limits ticks);
    last_frame = now;
    echo_seq = seq;
  }
]

unfoldable pub control : Control → Station → Station
unfolding detach
control park s = detach s
control block s = detach (record s { is_accepting = false })
control allow s = record s { is_accepting = true }

-- `rate_cap / fps * min(1.0, 0.2 + 0.8 * engaged_for / soft_start_s)`.
unfoldable pub soft_cap : Params → ℕ → ℕ
soft_cap p engaged_for =
    let soft = max p.soft_start 1 in
    p.full_cap * min (10 * soft) (2 * soft + 8 * engaged_for) / (10 * soft)

abbrev pub is_silent : Params → ℕ → Station → Bool
is_silent p began s = elim s.operator [
  | none ↦ false
  | some operator ↦ ltb p.silence (began - s.last_frame)
]

-- `step_toward` for whole ticks is the step of the ramp.
abbrev pub step_toward : Pose → Pose → ℕ → Pose
step_toward current target cap = step_pose cap current target

-- The round after the test for silence: the command, and the phase.
unfoldable pub follow : Params → ℕ → Station → Station
unfolding soft_cap
follow p began s =
    let engaged_for = began - s.engaged_at in
    elim s.operator [
      | some operator ↦ elim s.target [
        | some target ↦ record s {
          commanded = step_toward s.commanded target (soft_cap p engaged_for);
          phase = if leb (max p.soft_start 1) engaged_for then engaged else engaging;
        }
        | none ↦ record s { commanded = step_toward s.commanded s.commanded 0; phase = engaging }
      ]
      | none ↦ record s {
        commanded = step_toward s.commanded p.rest p.full_cap;
        phase = if all_within 1 s.commanded p.rest then parked else parking;
      }
    ]

-- One round of `_run`.
unfoldable pub round : Params → ℕ → Station → Station
unfolding follow detach
round p began s = follow p began (if is_silent p began s then detach s else s)
