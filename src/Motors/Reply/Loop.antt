-- ===== src/Motors/Reply/Loop.antt =====
-- motors/nexarm.py: the loop of `_try_parse` ends, and finds a frame behind noise.
use lerobot_nexarm.Prelude.{
  ℕ, zero, suc, ◌+◌, ◌-◌, ◌<◌, ◌≡◌, ◌≢◌, refl, List, [], ◌∷◌, ◌++◌, Option, some, arith, inl, inr,
  Option-cases, length, length-append, drop, All, get_or, drop-append_length, take-append_length,
  append-nil,
}
use lerobot_nexarm.Motors.Frame.{build_frame, parse_frame}
use lerobot_nexarm.Motors.Frame.RoundTrip.{
  parse_frame-build_frame, length-build_frame, build_frame-header,
}
use lerobot_nexarm.Motors.Reply.{
  Reply, Round, finish, again, find_header, parse_at, round, try_rounds, try_parse,
}

length-drop {ℓ} : {A : Type ℓ} (n : ℕ) (xs : List A) → length (drop n xs) ≡ length xs - n
length-drop zero xs = omega arith
length-drop (suc n) [] = omega arith
length-drop (suc n) (x ∷ xs) = omega (arith, length-drop n xs)

-- Another round is made with a shorter buffer only.
abbrev Shortens : List ℕ → Round → Type 0
Shortens buf (finish reply rest) = Unit
Shortens buf (again rest) = length rest < length buf

parse_at-Shortens : (idx : ℕ) (buf : List ℕ) → Shortens buf (parse_at (drop idx buf))
unfolding parse_at
parse_at-Shortens idx buf = ground (arith, length-drop idx buf, length-drop 2 (drop idx buf))

round-Shortens : (buf : List ℕ) → Shortens buf (round buf)
unfolding round
round-Shortens buf = elim (Option-cases (find_header buf)) [
  | inl e ↦ ground arith
  | inr (idx, e) ↦ ground (arith, parse_at-Shortens idx buf)
]

-- The loop's result, by what one round makes of the buffer.
abbrev pub after_round : Round → Option Reply × List ℕ
after_round (finish reply rest) = (reply, rest)
after_round (again rest) = try_parse rest

abbrev rounds_after : ℕ → Round → Option Reply × List ℕ
rounds_after fuel (finish reply rest) = (reply, rest)
rounds_after fuel (again rest) = try_rounds fuel rest

-- With more fuel than the buffer has bytes, more of it changes nothing.
try_rounds-enough :
    (f g : ℕ) (buf : List ℕ) → length buf < f → length buf < g → try_rounds f buf ≡ try_rounds g buf
unfolding try_rounds
try_rounds-enough zero g buf h k = elim h [ ]
try_rounds-enough (suc f) zero buf h k = elim k [ ]
try_rounds-enough (suc f) (suc g) buf h k =
    split (round buf) (round-Shortens buf) (try_rounds-enough f g)
  where
    split :
        (r : Round)
        → Shortens buf r
        → ((b : List ℕ) → length b < f → length b < g → try_rounds f b ≡ try_rounds g b)
        → rounds_after f r ≡ rounds_after g r
    split (finish reply rest) s shorter = refl
    split (again rest) s shorter = shorter rest (omega arith) (omega arith)

-- `_try_parse` runs its loop to the end: its fuel never runs out.
pub try_parse-after_round : (buf : List ℕ) → try_parse buf ≡ after_round (round buf)
unfolding try_parse try_rounds
try_parse-after_round buf = split (round buf) (round-Shortens buf)
  where
    split : (r : Round) → Shortens buf r → rounds_after (length buf) r ≡ after_round r
    split (finish reply rest) s = refl
    split (again rest) s =
        try_rounds-enough (length buf) (suc (length rest)) rest (omega arith) (omega arith)

find_header-noise :
    (noise bs : List ℕ)
    → All (λ b. b ≢ 0xff) noise
    → find_header (noise ++ 0xff ∷ 0xff ∷ bs) ≡ some (length noise)
unfolding find_header
find_header-noise [] bs h = refl
find_header-noise (x ∷ []) bs h = ground arith
find_header-noise (x ∷ y ∷ noise) bs h = ground (arith, find_header-noise (y ∷ noise) bs h.1)

parse_at-build_frame :
    (device_id cmd : ℕ) (args rest : List ℕ)
    → device_id < 256
    → cmd < 256
    → length args < 254
    → parse_at (build_frame device_id cmd args ++ rest) ≡ finish (some (cmd, args)) rest
unfolding parse_at
parse_at-build_frame device_id cmd args rest hd hc hn =
    let (body, shape) = build_frame-header device_id cmd args hd hn in
    let sized : length (build_frame device_id cmd args) ≡ length args + 6 =
      length-build_frame device_id cmd args in
    let total : 4 + get_or (build_frame device_id cmd args ++ rest) 3 0
        ≡ length (build_frame device_id cmd args) =
      rw sized (rw shape (omega arith)) in
    let parsed : parse_frame (build_frame device_id cmd args) ≡ some (device_id, cmd, args) =
      rw append-nil at (parse_frame-build_frame device_id cmd args [] hd hc hn) in
    rw (total, take-append_length (build_frame device_id cmd args) rest, parsed)
      (rw (total, drop-append_length (build_frame device_id cmd args) rest)
        (ground (arith, sized, length-append (build_frame device_id cmd args) rest)))

-- A frame of a device, a command and less than 254 arguments, the first two being bytes, is found
-- behind noise that has no 0xff, and exactly what follows it is kept.
pub try_parse-noise :
    (noise : List ℕ) (device_id cmd : ℕ) (args rest : List ℕ)
    → All (λ b. b ≢ 0xff) noise
    → device_id < 256
    → cmd < 256
    → length args < 254
    → try_parse (noise ++ (build_frame device_id cmd args ++ rest)) ≡ (some (cmd, args), rest)
unfolding round
try_parse-noise noise device_id cmd args rest hn hd hc ha =
    let (body, shape) = build_frame-header device_id cmd args hd ha in
    let sized : length (build_frame device_id cmd args) ≡ length args + 6 =
      length-build_frame device_id cmd args in
    let found : find_header (noise ++ (build_frame device_id cmd args ++ rest))
        ≡ some (length noise) =
      rw shape (find_header-noise noise _ hn) in
    rw
      (
        try_parse-after_round (noise ++ (build_frame device_id cmd args ++ rest)),
        round,
        found,
        drop-append_length noise (build_frame device_id cmd args ++ rest),
        parse_at-build_frame device_id cmd args rest hd hc ha,
      )
      (ground (
        arith,
        length-append noise (build_frame device_id cmd args ++ rest),
        length-append (build_frame device_id cmd args) rest,
      ))
