-- ===== src/Safety/Ramp/Laws.antt =====
-- safety.py: the path that `ramp_to` commands, and that it arrives.
use lerobot_nexarm.Prelude.{
  ℕ, zero, suc, ◌+◌, ◌-◌, ◌*◌, ◌≤◌, max, min, ◌≡◌, refl, ap, ◌∙◌, ◌⊎◌, true, false, List, [], ◌∷◌,
  ◌++◌, Option, none, some, arith, length, inl, inr, Bool-cases, Option-cases, ltb, ◌==◌, ==_iff,
}
use lerobot_nexarm.Safety.{is_valid_read, all_within, Pose, positions_of}
use lerobot_nexarm.Safety.Ramp.{
  reached, Ramp, Params, step_joint, step_pose, after_write, bad_read, drive, await, ramp_to,
}

-- A value on the way from one to another, both ends included.
abbrev pub Between : ℕ → ℕ → ℕ → Type 0
Between from to x = (min from to ≤ x) × (x ≤ max from to)

-- Joint by joint, for poses of one length.
pub data AllBetween : Pose → Pose → Pose → Type 0 where
  done : AllBetween [] [] []
  joint :
      {f t x : ℕ} {fs ts xs : Pose}
      → Between f t x
      → AllBetween fs ts xs
      → AllBetween (f ∷ fs) (t ∷ ts) (x ∷ xs)

step_joint-Between : (m c t : ℕ) → Between c t (step_joint m c t)
unfolding step_joint
step_joint-Between m c t = ground arith

step_pose-AllBetween : (m : ℕ) (c t : Pose) → length c ≡ length t → AllBetween c t (step_pose m c t)
unfolding step_pose
step_pose-AllBetween m [] [] h = done
step_pose-AllBetween m [] (t ∷ ts) h = absurd (omega arith)
step_pose-AllBetween m (c ∷ cs) [] h = absurd (omega arith)
step_pose-AllBetween m (c ∷ cs) (t ∷ ts) h =
    joint (step_joint-Between m c t) (step_pose-AllBetween m cs ts (omega arith))

AllBetween-end : (c t : Pose) → length c ≡ length t → AllBetween c t t
AllBetween-end [] [] h = done
AllBetween-end [] (t ∷ ts) h = absurd (omega arith)
AllBetween-end (c ∷ cs) [] h = absurd (omega arith)
AllBetween-end (c ∷ cs) (t ∷ ts) h = joint (omega arith) (AllBetween-end cs ts (omega arith))

AllBetween-trans : {c n t x : Pose} → AllBetween c t n → AllBetween n t x → AllBetween c t x
AllBetween-trans done done = done
AllBetween-trans (joint h hs) (joint k ks) = joint (omega arith) (AllBetween-trans hs ks)

length-step_pose : (m : ℕ) (c t : Pose) → length c ≡ length t → length (step_pose m c t) ≡ length c
unfolding step_pose
length-step_pose m [] [] h = refl
length-step_pose m [] (t ∷ ts) h = absurd (omega arith)
length-step_pose m (c ∷ cs) [] h = absurd (omega arith)
length-step_pose m (c ∷ cs) (t ∷ ts) h = omega (arith, length-step_pose m cs ts (omega arith))

pub step_pose-within : (m k : ℕ) (c t : Pose) → m ≤ k → all_within k c (step_pose m c t) ≡ true
unfolding step_pose step_joint all_within
step_pose-within m k [] t h = refl
step_pose-within m k (c ∷ cs) [] h = refl
step_pose-within m k (c ∷ cs) (t ∷ ts) h = ground (arith, step_pose-within m k cs ts h)

all_within-wider :
    (m k : ℕ) (t c : Pose)
    → m ≤ k
    → length c ≡ length t
    → all_within m t c ≡ true
    → all_within k c t ≡ true
unfolding all_within
all_within-wider m k [] [] h n w = refl
all_within-wider m k [] (c ∷ cs) h n w = absurd (omega arith)
all_within-wider m k (t ∷ ts) [] h n w = absurd (omega arith)
all_within-wider m k (t ∷ ts) (c ∷ cs) h n w =
    ground (arith, all_within-wider m k ts cs h (omega arith))

-- No command moves a joint by more than `m` from the one before it, nor past the target.
abbrev pub IsGentle : ℕ → Pose → Pose → Pose → List Pose → Type 0
IsGentle m start target command [] = Unit
IsGentle m start target command (w ∷ ws) =
    (all_within m command w ≡ true) × AllBetween start target w × IsGentle m start target w ws

drive-IsGentle :
    (p : Params) (left : ℕ) (start command : Pose)
    → AllBetween start p.target command
    → IsGentle (max p.max_step p.tolerance) start p.target command (drive p left command).writes
unfolding drive
drive-IsGentle p zero start command h = tt
drive-IsGentle p (suc left) start command h =
    let m = max p.max_step p.tolerance in
    let next = step_pose p.max_step command p.target in
    elim (Bool-cases (length command == length p.target)) [
      | inr other ↦ rw other tt
      | inl same ↦
          let n : length command ≡ length p.target = (==_iff _ _).0 same in
          elim (Bool-cases (all_within p.tolerance p.target command)) [
            | inl close ↦
                rw (same, close)
                  (
                    all_within-wider p.tolerance m p.target command (omega arith) n close,
                    AllBetween-trans h (AllBetween-end command p.target n),
                    tt,
                  )
            | inr far ↦
                let between =
                  AllBetween-trans h (step_pose-AllBetween p.max_step command p.target n) in
                rw (same, far)
                  (
                    step_pose-within p.max_step m command p.target (omega arith),
                    between,
                    drive-IsGentle p left start next between,
                  )
          ]
    ]

-- Each round that does not arrive brings every joint a whole step nearer.
step_pose-nearer :
    (tolerance m k : ℕ) (c t : Pose)
    → length c ≡ length t
    → all_within (tolerance + m * suc k) t c ≡ true
    → all_within (tolerance + m * k) t (step_pose m c t) ≡ true
unfolding step_pose step_joint all_within
step_pose-nearer tolerance m k [] [] n h = refl
step_pose-nearer tolerance m k [] (t ∷ ts) n h = absurd (omega arith)
step_pose-nearer tolerance m k (c ∷ cs) [] n h = absurd (omega arith)
step_pose-nearer tolerance m k (c ∷ cs) (t ∷ ts) n h =
    let grown : m * suc k ≡ m * k + m = omega arith in
    ground (arith, grown, step_pose-nearer tolerance m k cs ts (omega arith))

-- A ramp that arrives has written the target last.
abbrev pub Arrives : Pose → Ramp → Type 0
Arrives target r = (r.ending ≡ reached) × ((ws : List Pose) × (r.writes ≡ ws ++ target ∷ []))

after_write-Arrives :
    (w target : Pose) (r : Ramp) → Arrives target r → Arrives target (after_write w r)
after_write-Arrives w target r (e, (ws, h)) = (e, (w ∷ ws, ap (◌∷◌ w) h))

pub drive-Arrives :
    (p : Params) (left : ℕ) (command : Pose)
    → length command ≡ length p.target
    → all_within (p.tolerance + p.max_step * left) p.target command ≡ true
    → Arrives p.target (drive p (suc left) command)
unfolding drive
drive-Arrives p zero command n h =
    let same : (length command == length p.target) ≡ true = (==_iff _ _).1 n in
    let none_left : p.tolerance + p.max_step * 0 ≡ p.tolerance = omega arith in
    let close : all_within p.tolerance p.target command ≡ true = rw none_left at h in
    rw (same, close) (refl, ([], refl))
drive-Arrives p (suc k) command n h =
    let next = step_pose p.max_step command p.target in
    let same : (length command == length p.target) ≡ true = (==_iff _ _).1 n in
    elim (Bool-cases (all_within p.tolerance p.target command)) [
      | inl close ↦ rw (same, close) (refl, ([], refl))
      | inr far ↦
          rw (same, far)
            (after_write-Arrives next p.target (drive p (suc k) next) (
              drive-Arrives p k next (length-step_pose p.max_step command p.target n ∙ n)
                (step_pose-nearer p.tolerance p.max_step k command p.target n h)))
    ]

AllBetween-start : (c t : Pose) → length c ≡ length t → AllBetween c t c
AllBetween-start [] [] h = done
AllBetween-start [] (t ∷ ts) h = absurd (omega arith)
AllBetween-start (c ∷ cs) [] h = absurd (omega arith)
AllBetween-start (c ∷ cs) (t ∷ ts) h = joint (omega arith) (AllBetween-start cs ts (omega arith))

-- Nothing is written, or the writes go gently from a valid read.
abbrev pub IsSafeRamp : Params → Ramp → Type 0
IsSafeRamp p r =
    (r.writes ≡ [])
    ⊎ ((start : Pose) × (n : ℕ) × (p.read n ≡ some start)
        × (is_valid_read start ≡ true)
        × IsGentle (max p.max_step p.tolerance) start p.target start r.writes)

drive-IsSafeRamp :
    (p : Params) (left n : ℕ) (start : Pose)
    → p.read n ≡ some start
    → is_valid_read start ≡ true
    → IsSafeRamp p (drive p (suc left) start)
unfolding drive
drive-IsSafeRamp p left n start e v = elim (Bool-cases (length start == length p.target)) [
  | inr other ↦ inl (rw other)
  | inl same ↦ inr (
    start,
    n,
    e,
    v,
    drive-IsGentle p (suc left) start start (AllBetween-start start p.target ((==_iff _ _).0 same)),
  )
]

pub not_valid_nil : is_valid_read [] ≡ false
unfolding is_valid_read
not_valid_nil = refl

await-IsSafeRamp :
    (p : Params) (left reads calls : ℕ) (bad_since : Option ℕ)
    → IsSafeRamp p (await p left reads calls bad_since)
unfolding await
await-IsSafeRamp p zero reads calls bad_since = inl refl
await-IsSafeRamp p (suc left) reads calls bad_since =
    elim (Bool-cases (is_valid_read (positions_of (p.read reads)))) [
      | inl valid ↦ elim (Option-cases (p.read reads)) [
        | inl e ↦ ground (arith, not_valid_nil)
        | inr (start, e) ↦ rw valid (rw e (drive-IsSafeRamp p left reads start e (rw e at valid)))
      ]
      | inr corrupt ↦
          let (since, call) = bad_read p calls bad_since in
          elim (Bool-cases (ltb p.give_up (p.clock call - since))) [
            | inl late ↦ rw (corrupt, late) (inl refl)
            | inr early ↦
                rw (corrupt, early) (await-IsSafeRamp p left (suc reads) (suc call) (some since))
          ]
    ]

-- Either nothing is written, or the first command is within one step of a valid read, and each
-- later one within one step of the command before it, a step being the larger of the maximal step
-- and the tolerance; and no joint leaves the interval from where it was read to where it is sent.
pub ramp_to-IsSafeRamp : (p : Params) (max_steps : ℕ) → IsSafeRamp p (ramp_to p max_steps)
unfolding ramp_to
ramp_to-IsSafeRamp p max_steps = await-IsSafeRamp p max_steps 0 0 none
