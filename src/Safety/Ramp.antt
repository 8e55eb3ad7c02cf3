-- ===== src/Safety/Ramp.antt =====
-- safety.py: `ramp_to`. `read i` is the i-th read, `none` a TimeoutError; `clock i` what the i-th
-- call of the clock returns. The result carries the poses that were written, in order.
pub mod Laws
pub mod Arrives
use lerobot_nexarm.Prelude.{
  ℕ, zero, suc, ◌+◌, ◌-◌, ◌≤◌, min, Bool, true, false, List, [], ◌∷◌, Option, none, some, length,
  ltb, leb, ◌==◌, if◌then◌else◌,
}
use lerobot_nexarm.Safety.{is_valid_read, all_within, Pose, positions_of}

-- How `ramp_to` ends: it returns, gives up for want of a valid read, does not get there within its
-- steps, or is given a target of another length, where `zip(strict=True)` raises.
pub data Ending : Type 0 where
  reached no_valid_read not_reached strict_mismatch : Ending

pub record Ramp : Type 0 where
  pub ending : Ending
  pub writes : List Pose

pub record Params : Type 0 where
  pub max_step : ℕ
  pub tolerance : ℕ
  pub give_up : ℕ
  pub read : ℕ → Option Pose
  pub clock : ℕ → ℕ
  pub target : Pose

-- `c + max(-max_step, min(max_step, t - c))`, by the sign of `t - c`.
pub step_joint : ℕ → ℕ → ℕ → ℕ
step_joint max_step c t = if leb c t then c + min max_step (t - c) else c - min max_step (c - t)

pub step_pose : ℕ → Pose → Pose → Pose
unfolding step_joint
step_pose max_step [] ts = []
step_pose max_step (c ∷ cs) [] = []
step_pose max_step (c ∷ cs) (t ∷ ts) = step_joint max_step c t ∷ step_pose max_step cs ts

abbrev pub after_write : Pose → Ramp → Ramp
after_write pose r = record r { writes = pose ∷ r.writes }

-- The rounds left once the last command is known.
pub drive : Params → ℕ → Pose → Ramp
drive p zero command = record { ending = not_reached; writes = [] }
drive p (suc left) command =
    let next = step_pose p.max_step command p.target in
    let rest = drive p left next in
    if length command == length p.target
    then if all_within p.tolerance p.target command
      then record { ending = reached; writes = p.target ∷ [] }
      else after_write next rest
    else record { ending = strict_mismatch; writes = [] }

-- `bad_since = clock() if bad_since is None else bad_since`, with the number of the next call of
-- the clock: the first bad read calls it once more.
abbrev pub bad_read : Params → ℕ → Option ℕ → ℕ × ℕ
bad_read p calls none = (p.clock calls, suc calls)
bad_read p calls (some since) = (since, calls)

-- The rounds left before a valid read: the number of the next read, that of the next call of the
-- clock, and since when reads have been bad.
pub await : Params → ℕ → ℕ → ℕ → Option ℕ → Ramp
await p zero reads calls bad_since = record { ending = not_reached; writes = [] }
await p (suc left) reads calls bad_since =
    let current = positions_of (p.read reads) in
    let driven = drive p (suc left) current in
    let (since, call) = bad_read p calls bad_since in
    let rest = await p left (suc reads) (suc call) (some since) in
    if is_valid_read current
    then driven
    else if ltb p.give_up (p.clock call - since)
    then record { ending = no_valid_read; writes = [] }
    else rest

pub ramp_to : Params → ℕ → Ramp
ramp_to p max_steps = await p max_steps 0 0 none
