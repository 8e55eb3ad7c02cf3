-- ===== src/Motors/Positions/Laws.antt =====
-- motors/nexarm.py: what the position commands carry, and what a read returns.
use native.Mathlib.Decide.{dec_lt}
use lerobot_nexarm.Prelude.{
  ℕ, zero, suc, ◌+◌, ◌-◌, ◌*◌, ◌/◌, ◌%◌, ◌≤◌, ◌<◌, ◌≡◌, refl, ap, subst, ◌∙◌, List, [], ◌∷◌, map,
  append-nil, Option, none, some, arith, length, All, Bool-cases, Option-cases, inl, inr, leb, ltb,
  if◌then◌else◌, ◌==◌, ◌&&◌, Bool, false,
}
use lerobot_nexarm.Prelude.Int.{ℤ, pos, negsuc}
use lerobot_nexarm.Motors.Frame.{parse_frame}
use lerobot_nexarm.Motors.Frame.RoundTrip.{parse_frame-build_frame}
use lerobot_nexarm.Motors.Reply.{Reply}
use lerobot_nexarm.Motors.Positions.{
  cmd_read_pos, joint_count, clamp_position, unpack_int16, decode_positions, encode_positions,
  read_attempts, read_positions, write_positions,
}

pub clamp_position-le : (p : ℤ) → clamp_position p ≤ 4095
unfolding clamp_position
clamp_position-le p = ground arith

pub clamp_position-pos : (n : ℕ) → n ≤ 4095 → clamp_position (pos n) ≡ n
unfolding clamp_position
clamp_position-pos n h = ground arith

-- The two bytes of a position, read as a signed number, give it back.
int16-position :
    (p : ℤ)
    → let n = clamp_position p in
      let w = n % 256 + 256 * (n / 256 % 256) in
      clamp_position (if ltb w 32768 then pos w else negsuc (65536 - w - 1)) ≡ n
int16-position p =
    let n = clamp_position p in
    let w = n % 256 + 256 * (n / 256 % 256) in
    let bound : n ≤ 4095 = clamp_position-le p in
    let e : w ≡ n = omega arith in ground (arith, e, bound, clamp_position-pos n)

-- Six positions are read back as they were written, each cut to the range 0 to 4095.
pub decode_positions-encode_positions :
    (a b c d e f : ℤ)
    → let ps = a ∷ b ∷ c ∷ d ∷ e ∷ f ∷ [] in
      decode_positions (encode_positions ps) ≡ map clamp_position ps
unfolding decode_positions encode_positions
decode_positions-encode_positions a b c d e f = cc (
  int16-position a,
  int16-position b,
  int16-position c,
  int16-position d,
  int16-position e,
  int16-position f,
)

decode_positions-bounds :
    (args : List ℕ)
    → (length (decode_positions args) ≡ 6) × All (λ p. p ≤ 4095) (decode_positions args)
unfolding decode_positions
decode_positions-bounds args = (refl, below (0 ∷ 1 ∷ 2 ∷ 3 ∷ 4 ∷ 5 ∷ []))
  where
    below :
        (is : List ℕ)
        → All (λ p. p ≤ 4095) (map (λ i. clamp_position (unpack_int16 args (i * 2))) is)
    below = elim [ [] ↦ tt | i ∷ (is → ih) ↦ (clamp_position-le _, ih) ]

-- A reply that `read_positions` takes: of the right command, with six positions.
abbrev pub is_position_reply : Option Reply → Bool
is_position_reply none = false
is_position_reply (some (cmd, args)) = cmd == cmd_read_pos && leb (joint_count * 2) (length args)

read_attempts-bounds :
    (left attempt : ℕ) (reply : ℕ → Option Reply) {ps : List ℕ}
    → read_attempts left attempt reply ≡ some ps
    → (length ps ≡ 6) × All (λ p. p ≤ 4095) ps
unfolding read_attempts
read_attempts-bounds zero attempt reply h = cc
read_attempts-bounds (suc left) attempt reply {ps = ps} h = elim (Option-cases (reply attempt)) [
  | inl e ↦ read_attempts-bounds left (attempt + 1) reply (rw (e, read_attempts) at h)
  | inr ((cmd, args), e) ↦ elim (Bool-cases (is_position_reply (some (cmd, args)))) [
    | inl good ↦
        let taken : decode_positions args ≡ ps = ground (arith, e, good) in
        subst (λ qs. (length qs ≡ 6) × All (λ p. p ≤ 4095) qs) taken (decode_positions-bounds args)
    | inr bad ↦ read_attempts-bounds left (attempt + 1) reply (ground (arith, e, bad))
  ]
]

-- What `read_positions` returns is six positions from 0 to 4095.
pub read_positions-bounds :
    (retries : ℕ) (reply : ℕ → Option Reply) {ps : List ℕ}
    → read_positions retries reply ≡ some ps
    → (length ps ≡ 6) × All (λ p. p ≤ 4095) ps
unfolding read_positions
read_positions-bounds retries reply h = read_attempts-bounds retries 0 reply h

read_attempts-first :
    (left attempt k : ℕ) (reply : ℕ → Option Reply) (args : List ℕ)
    → attempt ≤ k
    → k < attempt + left
    → reply k ≡ some (96, args)
    → 12 ≤ length args
    → ((i : ℕ) → attempt ≤ i → i < k → is_position_reply (reply i) ≡ false)
    → read_attempts left attempt reply ≡ some (decode_positions args)
unfolding read_attempts
read_attempts-first zero attempt k reply args h h' e n bad = absurd (omega arith)
read_attempts-first (suc left) attempt k reply args h h' e n bad = elim (dec_lt attempt k) [
  | yes lt ↦ ground (
    arith,
    bad attempt (omega arith) lt,
    read_attempts-first left (attempt + 1) k reply args (omega arith) (omega arith) e n
        (λ i l. bad i (omega arith)),
  )
  | no ge ↦
      let now : reply attempt ≡ some (96, args) =
        ap reply (let same : attempt ≡ k = omega arith in same) ∙ e in
      ground (arith, now)
]

-- If the reply at an attempt within the retries has command 96 and at least 12 arguments, and no
-- reply before it is a position reply, its positions are what is read.
pub read_positions-first :
    (retries k : ℕ) (reply : ℕ → Option Reply) (args : List ℕ)
    → k < retries
    → reply k ≡ some (96, args)
    → 12 ≤ length args
    → ((i : ℕ) → i < k → is_position_reply (reply i) ≡ false)
    → read_positions retries reply ≡ some (decode_positions args)
unfolding read_positions
read_positions-first retries k reply args h e n bad =
    read_attempts-first retries 0 k reply args (omega arith) (omega arith) e n (λ i _. bad i)

-- A position write, read back as a frame, carries the six positions cut to their range.
pub write_positions-parse_frame :
    (a b c d e f : ℤ)
    → let ps = a ∷ b ∷ c ∷ d ∷ e ∷ f ∷ [] in
      (args : List ℕ) × (parse_frame (write_positions ps) ≡ some (0xff, 97, args))
      × (decode_positions args ≡ map clamp_position ps)
unfolding write_positions
write_positions-parse_frame a b c d e f =
    let ps = a ∷ b ∷ c ∷ d ∷ e ∷ f ∷ [] in
    (
      encode_positions ps,
      rw append-nil at (
          parse_frame-build_frame 0xff 97 (encode_positions ps) [] (omega arith) (omega arith)
            (unfold encode_positions in omega arith)),
      decode_positions-encode_positions a b c d e f,
    )
