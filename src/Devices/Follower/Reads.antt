-- ===== src/Devices/Follower/Reads.antt =====
-- nexarm_follower.py: the positions of an observation against the reads that were made.
use lerobot_nexarm.Prelude.{
  ℕ, zero, suc, ◌≡◌, refl, ap, ◌∙◌, List, [], ◌∷◌, Option, none, some, length, get_or,
  if◌then◌else◌, arith, All,
}
use lerobot_nexarm.Devices.Follower.{
  Attempt, Follower, is_corrupt, sanitized, positions_of, get_observation,
}

-- An observation: its time, the attempt to turn the torque off, and the positions that are read.
pub record Read : Type 0 where
  pub now : ℕ
  pub torque_off : Attempt
  pub raw : List ℕ

-- The follower after some observations, the oldest first.
abbrev pub observe_all : ℕ → List Read → Follower → Follower
observe_all timeout [] s = s
observe_all timeout (r ∷ rs) s =
    observe_all timeout rs (get_observation timeout r.now r.torque_off r.raw s)

-- The latest good value of a joint, from the reads before the first, the newest first.
abbrev pub last_good : ℕ → List Read → ℕ → ℕ
last_good first [] i = first
last_good first (r ∷ rs) i =
    let earlier = last_good first rs i in
    if is_corrupt (get_or r.raw i 0) then earlier else get_or r.raw i 0

abbrev pub rev_onto {ℓ} : {A : Type ℓ} → List A → List A → List A
rev_onto [] ys = ys
rev_onto (x ∷ xs) ys = rev_onto xs (x ∷ ys)

get_or-sanitized :
    (prev raw : List ℕ) (i : ℕ)
    → length prev ≡ length raw
    → get_or (sanitized prev raw) i 0
      ≡ (if is_corrupt (get_or raw i 0) then get_or prev i 0 else get_or raw i 0)
unfolding sanitized
get_or-sanitized [] [] i h = ground arith
get_or-sanitized [] (q ∷ qs) i h = absurd (omega arith)
get_or-sanitized (p ∷ ps) [] i h = absurd (omega arith)
get_or-sanitized (p ∷ ps) (q ∷ qs) zero h = refl
get_or-sanitized (p ∷ ps) (q ∷ qs) (suc i) h = get_or-sanitized ps qs i (omega arith)

length-sanitized :
    (prev raw : List ℕ) → length prev ≡ length raw → length (sanitized prev raw) ≡ length raw
unfolding sanitized
length-sanitized [] [] h = refl
length-sanitized [] (q ∷ qs) h = refl
length-sanitized (p ∷ ps) [] h = absurd (omega arith)
length-sanitized (p ∷ ps) (q ∷ qs) h = ap suc (length-sanitized ps qs (omega arith))

get_observation-prev :
    (timeout : ℕ) (r : Read) (s : Follower)
    → (get_observation timeout r.now r.torque_off r.raw s).prev_positions
      ≡ some (positions_of s.prev_positions r.raw)
unfolding get_observation
get_observation-prev timeout r s = ground arith

observe_all-from :
    (timeout first i : ℕ) (prev : List ℕ) (rs seen : List Read) (s : Follower)
    → s.prev_positions ≡ some prev
    → get_or prev i 0 ≡ last_good first seen i
    → All (λ r. length r.raw ≡ length prev) rs
    → (out : List ℕ) × ((observe_all timeout rs s).prev_positions ≡ some out)
      × (get_or out i 0 ≡ last_good first (rev_onto rs seen) i)
unfolding positions_of
observe_all-from timeout first i prev [] seen s e g h = (prev, e, g)
observe_all-from timeout first i prev (r ∷ rs) seen s e g h =
    let s' = get_observation timeout r.now r.torque_off r.raw s in
    let prev' = sanitized prev r.raw in
    let e' : s'.prev_positions ≡ some prev' =
      get_observation-prev timeout r s
      ∙ ap (λ (o : Option (List ℕ)). some (positions_of o r.raw)) e in
    let same : length r.raw ≡ length prev = h.0 in
    let g' : get_or prev' i 0 ≡ last_good first (r ∷ seen) i =
      ground (arith, get_or-sanitized prev r.raw i) in
    observe_all-from timeout first i prev' rs (r ∷ seen) s' e' g' (
      same_lengths (length prev) (length prev') rs (ground (arith, length-sanitized prev r.raw))
        h.1)
  where
    same_lengths :
        (m n : ℕ) (rs : List Read)
        → m ≡ n
        → All (λ r. length r.raw ≡ m) rs
        → All (λ r. length r.raw ≡ n) rs
    same_lengths m n [] e h = tt
    same_lengths m n (r ∷ rs) e h = (h.0 ∙ e, same_lengths m n rs e h.1)

-- After a first observation each joint of an observation is the joint's latest read that was not
-- corrupt, or its first read where none was; all reads have as many positions as the first.
pub get_observation-last_good :
    (timeout i : ℕ) (first : Read) (rs : List Read) (s : Follower)
    → s.prev_positions ≡ none
    → All (λ r. length r.raw ≡ length first.raw) rs
    → (out : List ℕ) × ((observe_all timeout (first ∷ rs) s).prev_positions ≡ some out)
      × (get_or out i 0 ≡ last_good (get_or first.raw i 0) (rev_onto rs []) i)
unfolding positions_of
get_observation-last_good timeout i first rs s e h =
    let s' = get_observation timeout first.now first.torque_off first.raw s in
    observe_all-from timeout (get_or first.raw i 0) i first.raw rs [] s'
      (get_observation-prev timeout first s
        ∙ ap (λ (o : Option (List ℕ)). some (positions_of o first.raw)) e)
      refl h
