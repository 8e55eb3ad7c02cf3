-- ===== src/Safety/Ramp/Arrives.antt =====
-- safety.py: `ramp_to` reaches its target once the arm can be read, if it has steps enough.
use native.Mathlib.Decide.{dec_lt}
use native.Mathlib.Nat.{mul-le-mul_left}
use lerobot_nexarm.Prelude.{
  ℕ, zero, suc, ◌+◌, ◌-◌, ◌*◌, ◌≤◌, ◌<◌, ◌≡◌, refl, true, false, [], ◌∷◌, Option, none, some, arith,
  length, All, ltb,
}
use lerobot_nexarm.Safety.{all_uncorrupted, is_valid_read, all_within, Pose, positions_of}
use lerobot_nexarm.Safety.Ramp.{Params, bad_read, await, ramp_to}
use lerobot_nexarm.Safety.Ramp.Laws.{Arrives, drive-Arrives}

uncorrupted-All : (c : Pose) → all_uncorrupted c ≡ true → All (λ x. x ≤ 4095) c
unfolding all_uncorrupted
uncorrupted-All [] h = tt
uncorrupted-All (x ∷ xs) h = (ground arith, uncorrupted-All xs (ground arith))

valid-All : (c : Pose) → is_valid_read c ≡ true → (length c ≡ 6) × All (λ x. x ≤ 4095) c
unfolding is_valid_read
valid-All c h = (ground arith, uncorrupted-All c (ground arith))

-- Any two poses of the arm are within its range of one another.
all_within-range :
    (k : ℕ) (t c : Pose)
    → 4095 ≤ k
    → All (λ x. x ≤ 4095) t
    → All (λ x. x ≤ 4095) c
    → all_within k t c ≡ true
unfolding all_within
all_within-range k [] c h ht hc = refl
all_within-range k (t ∷ ts) [] h ht hc = refl
all_within-range k (t ∷ ts) (c ∷ cs) h ht hc = ground (arith, all_within-range k ts cs h ht.1 hc.1)

-- The clock has not run past the time to give up.
abbrev OnTime : Params → Option ℕ → Type 0
OnTime p none = Unit
OnTime p (some since) = (i : ℕ) → p.clock i ≤ since + p.give_up

not_late : (since now give_up : ℕ) → now ≤ since + give_up → ltb give_up (now - since) ≡ false
not_late since now give_up h = ground arith

module _ (p : Params) (rounds k : ℕ) (start : Pose) (sized : length p.target ≡ 6)
    (in_range : All (λ x. x ≤ 4095) p.target) (enough : 4095 ≤ p.tolerance + p.max_step * rounds)
    (on_time : (i j : ℕ) → p.clock i ≤ p.clock j + p.give_up) (read : p.read k ≡ some start)
    (valid : is_valid_read start ≡ true)
    (corrupt : (n : ℕ) → n < k → is_valid_read (positions_of (p.read n)) ≡ false) where
  since-OnTime :
      (calls : ℕ) (bad_since : Option ℕ)
      → OnTime p bad_since
      → OnTime p (some (bad_read p calls bad_since).0)
  since-OnTime calls none o = λ i. on_time i calls
  since-OnTime calls (some since) o = o

  await-Arrives :
      (left reads calls : ℕ) (bad_since : Option ℕ)
      → OnTime p bad_since
      → reads ≤ k
      → k + rounds < reads + left
      → Arrives p.target (await p left reads calls bad_since)
  unfolding await
  await-Arrives zero reads calls bad_since o h n = absurd (omega arith)
  await-Arrives (suc left) reads calls bad_since o h n = elim (dec_lt reads k) [
    | yes early ↦
        let since = (bad_read p calls bad_since).0 in
        let call = (bad_read p calls bad_since).1 in
        let later = since-OnTime calls bad_since o in
        rw (corrupt reads early, not_late since (p.clock call) p.give_up (later call))
          (await-Arrives left (suc reads) (suc call) (some since) later (omega arith) (omega arith))
    | no now ↦
        let same : reads ≡ k = omega arith in
        let start_All = valid-All start valid in
        let more = mul-le-mul_left {m = rounds} {n = left} p.max_step (omega arith) in
        rw (same, read, valid)
          (drive-Arrives p left start (omega arith) (
            all_within-range (p.tolerance + p.max_step * left) p.target start (omega arith) in_range
              start_All.1))
  ]

  -- To a target of six positions up to 4095: if the reads before the `k`-th are bad, the `k`-th is valid, the clock shows no more than the
  -- time to give up between any two calls, and `rounds` whole steps with the tolerance cover the
  -- range of the arm, then a ramp of more than `k + rounds` steps returns, and has written the
  -- target last.
  pub ramp_to-Arrives :
      (max_steps : ℕ) → k + rounds < max_steps → Arrives p.target (ramp_to p max_steps)
  unfolding ramp_to
  ramp_to-Arrives max_steps h = await-Arrives max_steps 0 0 none tt (omega arith) (omega arith)
