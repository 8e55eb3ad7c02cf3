-- ===== src/Motors/Frame.antt =====
-- motors/nexarm.py: `build_frame` and `parse_frame`. A byte is a number below 256.
pub mod RoundTrip
use lerobot_nexarm.Prelude.{
  ℕ, ◌+◌, ◌-◌, ◌%◌, ◌||◌, ◌&&◌, List, [], ◌∷◌, ◌++◌, Option, none, some, length, get_or, sum, take,
  drop, ltb, ◌==◌, not, if◌then◌else◌,
}

-- `(~sum(bytes)) & 0xFF`.
unfoldable pub checksum : List ℕ → ℕ
unfolding sum
checksum bs = 255 - sum bs % 256

unfoldable pub build_frame : ℕ → ℕ → List ℕ → List ℕ
build_frame device_id cmd args =
    let n = length args + 2 in
    let data_raw = (device_id % 256) ∷ (n % 256) ∷ (cmd % 256) ∷ args in
    0xff ∷ 0xff ∷ (data_raw ++ (checksum data_raw ∷ []))

-- `frame[a:b]` for `a ≤ b`.
abbrev pub slice : ℕ → ℕ → List ℕ → List ℕ
slice a b bs = take (b - a) (drop a bs)

pub parse_frame : List ℕ → Option (ℕ × ℕ × List ℕ)
parse_frame frame =
    if ltb (length frame) 6 || not (get_or frame 0 0 == 0xff) || not (get_or frame 1 0 == 0xff)
    then none
    else let device_id = get_or frame 2 0 in
      let n = get_or frame 3 0 in
      let total = 4 + n in
      if ltb (length frame) total
      then none
      else let cmd = get_or frame 4 0 in
        let args = slice 5 (5 + (n - 2)) frame in
        let checksum_byte = get_or frame (total - 1) 0 in
        let expected_full = checksum (slice 2 (total - 1) frame) in
        let expected_short = checksum (slice 2 5 frame) in
        if not (checksum_byte == expected_full) && not (checksum_byte == expected_short)
        then none
        else some (device_id, cmd, args)
