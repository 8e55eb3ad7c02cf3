-- ===== src/Motors/Reply.antt =====
-- motors/nexarm.py: `_try_parse` and `_read_reply`, which find replies in what the port delivers.
-- A poll before the deadline is the list of bytes then available, [] where there are none.
pub mod Loop
pub mod Chunks
use lerobot_nexarm.Prelude.{
  ℕ, zero, suc, ◌+◌, Bool, true, false, ◌&&◌, List, [], ◌∷◌, ◌++◌, Option, none, some, length,
  get_or, take, drop, ltb, ◌==◌, if◌then◌else◌,
}
use mathlib.Core.Option
use lerobot_nexarm.Motors.Frame.{parse_frame}

-- `bytes(buf).find(b"\xff\xff")`.
pub find_header : List ℕ → Option ℕ
find_header [] = none
find_header (x ∷ []) = none
find_header (x ∷ y ∷ bs) =
    if x == 0xff && y == 0xff then some 0 else Option.map suc (find_header (y ∷ bs))

abbrev pub Reply : Type 0
Reply = ℕ × List ℕ

-- One round of the `while` loop of `_try_parse`: it returns, or goes on with a shorter buffer.
pub data Round : Type 0 where
  finish : Option Reply → List ℕ → Round
  again : List ℕ → Round

pub parse_at : List ℕ → Round
parse_at buf =
    if ltb (length buf) 4
    then finish none buf
    else let total = 4 + get_or buf 3 0 in
      if ltb (length buf) total then finish none buf else elim (parse_frame (take total buf)) [
        | some (device_id, cmd, args) ↦ finish (some (cmd, args)) (drop total buf)
        | none ↦ again (drop 2 buf)
      ]

pub round : List ℕ → Round
round buf =
    if ltb (length buf) 6
    then finish none buf
    else elim (find_header buf) [ none ↦ finish none [] | some idx ↦ parse_at (drop idx buf) ]

pub try_rounds : ℕ → List ℕ → Option Reply × List ℕ
try_rounds zero buf = (none, buf)
try_rounds (suc fuel) buf = elim (round buf) [
  | finish reply rest ↦ (reply, rest)
  | again rest ↦ try_rounds fuel rest
]

-- The reply, if there is one, and the buffer that is left. Each round shortens the buffer.
pub try_parse : List ℕ → Option Reply × List ℕ
try_parse buf = try_rounds (suc (length buf)) buf

-- `expected_cmd is None or cmd == expected_cmd`
abbrev pub is_expected : Option ℕ → ℕ → Bool
is_expected none cmd = true
is_expected (some expected_cmd) cmd = cmd == expected_cmd

-- The inner `while True` of `_read_reply`: replies to other commands are dropped.
pub drain_rounds : ℕ → Option ℕ → List ℕ → Option Reply × List ℕ
drain_rounds zero expected_cmd buf = (none, buf)
drain_rounds (suc fuel) expected_cmd buf =
    let (result, rest) = try_parse buf in
    elim result [
      | none ↦ (none, rest)
      | some (cmd, args) ↦
          let later = drain_rounds fuel expected_cmd rest in
          if is_expected expected_cmd cmd then (some (cmd, args), rest) else later
    ]

pub drain : Option ℕ → List ℕ → Option Reply × List ℕ
drain expected_cmd buf = drain_rounds (suc (length buf)) expected_cmd buf

-- The polls until the deadline, from the buffer so far.
pub read_reply : Option ℕ → List (List ℕ) → List ℕ → Option Reply
read_reply expected_cmd [] buf = none
read_reply expected_cmd ([] ∷ polls) buf = read_reply expected_cmd polls buf
read_reply expected_cmd ((b ∷ bs) ∷ polls) buf =
    let (result, rest) = drain expected_cmd (buf ++ (b ∷ bs)) in
    elim result [ some reply ↦ some reply | none ↦ read_reply expected_cmd polls rest ]
