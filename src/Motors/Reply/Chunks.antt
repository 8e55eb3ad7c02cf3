-- ===== src/Motors/Reply/Chunks.antt =====
-- motors/nexarm.py: how `_read_reply` takes a reply that arrives in pieces, and when it misses one.
use mathlib.Core.List.{flatten}
use native.Mathlib.Decide.{dec_lt}
use lerobot_nexarm.Prelude.{
  ℕ, ◌+◌, ◌≤◌, ◌<◌, ◌≡◌, refl, ap, ◌∙◌, true, List, [], ◌∷◌, ◌++◌, append_assoc, Option, none, some,
  arith, length, length-append, drop,
}
use lerobot_nexarm.Motors.Frame.{build_frame}
use lerobot_nexarm.Motors.Frame.RoundTrip.{length-build_frame, build_frame-header}
use lerobot_nexarm.Motors.Reply.{
  finish, find_header, parse_at, round, is_expected, drain, drain_rounds, read_reply,
}
use lerobot_nexarm.Motors.Reply.Loop.{after_round, try_parse-after_round, try_parse-noise}

-- A buffer that holds the first bytes of a frame, but not all of it, waits unchanged.
round-incomplete :
    (p q body : List ℕ) (device_id n : ℕ)
    → p ++ q ≡ 0xff ∷ 0xff ∷ device_id ∷ n ∷ body
    → length p < 4 + n
    → round p ≡ finish none p
unfolding round find_header parse_at
round-incomplete (a ∷ b ∷ c ∷ d ∷ e ∷ f ∷ p) q body device_id n h k = ground arith
round-incomplete [] q body device_id n h k = ground arith
round-incomplete (a ∷ []) q body device_id n h k = ground arith
round-incomplete (a ∷ b ∷ []) q body device_id n h k = ground arith
round-incomplete (a ∷ b ∷ c ∷ []) q body device_id n h k = ground arith
round-incomplete (a ∷ b ∷ c ∷ d ∷ []) q body device_id n h k = ground arith
round-incomplete (a ∷ b ∷ c ∷ d ∷ e ∷ []) q body device_id n h k = ground arith

drain-incomplete :
    (expected_cmd : Option ℕ) (p q body : List ℕ) (device_id n : ℕ)
    → p ++ q ≡ 0xff ∷ 0xff ∷ device_id ∷ n ∷ body
    → length p < 4 + n
    → drain expected_cmd p ≡ (none, p)
unfolding drain drain_rounds
drain-incomplete expected_cmd p q body device_id n h k =
    ground
      (arith, try_parse-after_round p ∙ ap after_round (round-incomplete p q body device_id n h k))

append-split {ℓ} :
    {A : Type ℓ} (xs q ys r : List A)
    → xs ++ q ≡ ys ++ r
    → length ys ≤ length xs
    → xs ≡ ys ++ drop (length ys) xs
append-split xs q [] r h k = refl
append-split [] q (y ∷ ys) r h k = absurd (omega arith)
append-split (x ∷ xs) q (y ∷ ys) r h k = ground (arith, append-split xs q ys r)

module _ (device_id cmd : ℕ) (args rest : List ℕ) (hd : device_id < 256) (hc : cmd < 256)
    (hn : length args < 254) (expected_cmd : Option ℕ)
    (expected : is_expected expected_cmd cmd ≡ true) where
  drain_complete :
      (tail : List ℕ)
      → drain expected_cmd (build_frame device_id cmd args ++ tail) ≡ (some (cmd, args), tail)
  unfolding drain drain_rounds
  drain_complete tail =
      ground (arith, try_parse-noise [] device_id cmd args tail tt hd hc hn, expected)

  read_reply-from :
      (polls : List (List ℕ)) (buf : List ℕ)
      → buf ++ flatten polls ≡ build_frame device_id cmd args ++ rest
      → length buf < length (build_frame device_id cmd args)
      → read_reply expected_cmd polls buf ≡ some (cmd, args)
  unfolding read_reply flatten
  read_reply-from [] buf h k = absurd (
      omega (
        arith,
        ap length h,
        length-append buf [],
        length-append (build_frame device_id cmd args) rest,
      ))
  read_reply-from ([] ∷ polls) buf h k = read_reply-from polls buf h k
  read_reply-from ((b ∷ bs) ∷ polls) buf h k =
      let buf' = buf ++ (b ∷ bs) in
      let h' : buf' ++ flatten polls ≡ build_frame device_id cmd args ++ rest =
        append_assoc buf (b ∷ bs) (flatten polls) ∙ h in
      let (body, shape) = build_frame-header device_id cmd args hd hn in
      elim (dec_lt (length buf') (length (build_frame device_id cmd args))) [
        | yes short ↦ ground (
          arith,
          drain-incomplete expected_cmd buf' (flatten polls) (body ++ rest) device_id
              (length args + 2) (rw shape at h')
              (omega (arith, length-build_frame device_id cmd args)),
          read_reply-from polls buf' h' short,
        )
        | no long ↦
            let e : buf'
                ≡ build_frame device_id cmd args
                  ++ drop (length (build_frame device_id cmd args)) buf' =
              append-split buf' (flatten polls) (build_frame device_id cmd args) rest h'
                (omega arith) in
            ground (
              arith,
              ap (drain expected_cmd) e,
              drain_complete (drop (length (build_frame device_id cmd args)) buf'),
            )
      ]

  -- However the port cuts up what it delivers, a reply at its front is found, if its command is the
  -- expected one, its device and command are bytes and it has less than 254 arguments.
  pub read_reply-chunks :
      (polls : List (List ℕ))
      → flatten polls ≡ build_frame device_id cmd args ++ rest
      → read_reply expected_cmd polls [] ≡ some (cmd, args)
  read_reply-chunks polls h =
      read_reply-from polls [] h (omega (arith, length-build_frame device_id cmd args))

-- While less has come than the length byte of the first frame announces, there is no reply.
pub read_reply-incomplete :
    (expected_cmd : Option ℕ) (polls : List (List ℕ)) (buf body : List ℕ) (device_id n : ℕ)
    → buf ++ flatten polls ≡ 0xff ∷ 0xff ∷ device_id ∷ n ∷ body
    → length body < n
    → read_reply expected_cmd polls buf ≡ none
unfolding read_reply flatten
read_reply-incomplete expected_cmd [] buf body device_id n h k = refl
read_reply-incomplete expected_cmd ([] ∷ polls) buf body device_id n h k =
    read_reply-incomplete expected_cmd polls buf body device_id n h k
read_reply-incomplete expected_cmd ((b ∷ bs) ∷ polls) buf body device_id n h k =
    let buf' = buf ++ (b ∷ bs) in
    let h' : buf' ++ flatten polls ≡ 0xff ∷ 0xff ∷ device_id ∷ n ∷ body =
      append_assoc buf (b ∷ bs) (flatten polls) ∙ h in
    ground (
      arith,
      drain-incomplete expected_cmd buf' (flatten polls) body device_id n h'
          (omega (arith, ap length h', length-append buf' (flatten polls))),
      read_reply-incomplete expected_cmd polls buf' body device_id n h' k,
    )

-- One stray 0xff before a reply of device 0xff with less than 250 arguments hides it until the
-- deadline, however the bytes come.
pub read_reply-stray :
    (expected_cmd : Option ℕ) (polls : List (List ℕ)) (cmd : ℕ) (args : List ℕ)
    → length args < 250
    → flatten polls ≡ 0xff ∷ build_frame 0xff cmd args
    → read_reply expected_cmd polls [] ≡ none
read_reply-stray expected_cmd polls cmd args h e =
    let (body, shape) = build_frame-header 0xff cmd args (omega arith) (omega arith) in
    read_reply-incomplete expected_cmd polls [] ((length args + 2) ∷ body) 0xff 0xff (rw shape at e)
      (omega (arith, ap length shape, length-build_frame 0xff cmd args))
