-- ===== src/Motors/Frame/RoundTrip.antt =====
-- motors/nexarm.py: what `parse_frame` makes of a complete frame, and of what `build_frame` makes.
use lerobot_nexarm.Prelude.{
  ℕ, suc, ◌+◌, ◌-◌, ◌%◌, ◌≤◌, ◌<◌, ◌≡◌, refl, ap, ◌||◌, append_assoc, List, [], ◌∷◌, ◌++◌, none,
  some, arith, length, get_or, length-append, take-append_length, get_or-append_length, ◌==◌,
  if◌then◌else◌,
}
use lerobot_nexarm.Motors.Frame.{checksum, slice, build_frame, parse_frame}

-- The places of a complete frame that `parse_frame` reads.
module _ (device_id n cmd c : ℕ) (args rest : List ℕ) (sized : n ≡ length args + 2) where
  abbrev frame : List ℕ
  frame = 0xff ∷ 0xff ∷ device_id ∷ n ∷ cmd ∷ (args ++ c ∷ rest)

  frame-long : (6 ≤ length frame) × (4 + n ≤ length frame)
  frame-long = omega (arith, length-append args (c ∷ rest))

  frame-args : slice 5 (5 + (n - 2)) frame ≡ args
  frame-args =
      let e : 5 + (n - 2) - 5 ≡ length args = omega arith in
      rw e (take-append_length args (c ∷ rest))

  frame-covered : slice 2 (4 + n - 1) frame ≡ device_id ∷ n ∷ cmd ∷ args
  frame-covered =
      let e : 4 + n - 1 - 2 ≡ suc (suc (suc (length args))) = omega arith in
      rw e (ap (λ bs. device_id ∷ n ∷ cmd ∷ bs) (take-append_length args (c ∷ rest)))

  frame-checksum_byte : get_or frame (4 + n - 1) 0 ≡ c
  frame-checksum_byte =
      let e : 4 + n - 1 ≡ suc (suc (suc (suc (suc (length args))))) = omega arith in
      rw e (get_or-append_length args c rest 0)

  -- A frame whose length byte fits its arguments is accepted, whatever follows it, exactly when its
  -- last byte is the checksum of the whole frame or that of the frame without its arguments.
  pub parse_frame_complete : parse_frame frame ≡ (
      if c == checksum (device_id ∷ n ∷ cmd ∷ args) || c == checksum (device_id ∷ n ∷ cmd ∷ [])
      then some (device_id, cmd, args)
      else none)
  unfolding parse_frame
  parse_frame_complete = ground (arith, frame-long, frame-args, frame-covered, frame-checksum_byte)

pub length-build_frame :
    (device_id cmd : ℕ) (args : List ℕ) → length (build_frame device_id cmd args) ≡ length args + 6
unfolding build_frame
length-build_frame device_id cmd args = omega (arith, length-append {0} args)

-- The header and the length byte, by which a frame is cut out of a stream.
pub build_frame-header :
    (device_id cmd : ℕ) (args : List ℕ)
    → device_id < 256
    → length args < 254
    → (body : List ℕ) × (build_frame device_id cmd args
        ≡ 0xff ∷ 0xff ∷ device_id ∷ (length args + 2) ∷ body)
unfolding build_frame
build_frame-header device_id cmd args hd hn =
    let e : device_id % 256 ≡ device_id = omega arith in
    let g : (length args + 2) % 256 ≡ length args + 2 = omega arith in
    (
      (cmd % 256) ∷ (args ++ checksum (device_id ∷ (length args + 2) ∷ (cmd % 256) ∷ args) ∷ []),
      rw (e, g),
    )

-- Every frame that `build_frame` makes of a device, a command and less than 254 arguments, the
-- first two being bytes, is read back, whatever bytes follow it.
pub parse_frame-build_frame :
    (device_id cmd : ℕ) (args rest : List ℕ)
    → device_id < 256
    → cmd < 256
    → length args < 254
    → parse_frame (build_frame device_id cmd args ++ rest) ≡ some (device_id, cmd, args)
unfolding build_frame
parse_frame-build_frame device_id cmd args rest hd hc hn =
    let e : device_id % 256 ≡ device_id = omega arith in
    let f : cmd % 256 ≡ cmd = omega arith in
    let g : (length args + 2) % 256 ≡ length args + 2 = omega arith in
    rw (e, f, g)
      (rw (append_assoc args (checksum (device_id ∷ (length args + 2) ∷ cmd ∷ args) ∷ []) rest) (
        ground (
          arith,
          parse_frame_complete device_id (length args + 2) cmd
              (checksum (device_id ∷ (length args + 2) ∷ cmd ∷ args)) args rest refl,
        )))

-- The short checksum covers no argument: with it, any arguments of the right length are accepted.
pub parse_frame-short_checksum :
    (device_id cmd : ℕ) (args rest : List ℕ)
    → let n = length args + 2 in
      parse_frame
        (0xff ∷ 0xff ∷ device_id ∷ n ∷ cmd ∷ (args ++ checksum (device_id ∷ n ∷ cmd ∷ []) ∷ rest))
      ≡ some (device_id, cmd, args)
parse_frame-short_checksum device_id cmd args rest = ground (
  arith,
  parse_frame_complete device_id (length args + 2) cmd
      (checksum (device_id ∷ (length args + 2) ∷ cmd ∷ [])) args rest refl,
)
