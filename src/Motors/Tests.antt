-- ===== src/Motors/Tests.antt =====
-- motors/nexarm.py: runs of the code, and the theorems at concrete inputs.
use lerobot_nexarm.Prelude.{ℕ, ◌≡◌, refl, List, [], ◌∷◌, ◌++◌, some, arith}
use mathlib.Core.List.{flatten}
use lerobot_nexarm.Motors.Frame.{checksum, build_frame, parse_frame}
use lerobot_nexarm.Motors.Frame.RoundTrip.{parse_frame-build_frame}
use lerobot_nexarm.Motors.Reply.{read_reply}
use lerobot_nexarm.Motors.Reply.Chunks.{read_reply-chunks}

parse_frame-build_frame_example :
    parse_frame (build_frame 255 96 (1 ∷ 2 ∷ []) ++ 7 ∷ []) ≡ some (255, 96, 1 ∷ 2 ∷ [])
parse_frame-build_frame_example =
    parse_frame-build_frame 255 96 (1 ∷ 2 ∷ []) (7 ∷ []) (omega arith) (omega arith) (omega arith)

abbrev two_polls : List (List ℕ)
two_polls = (0xff ∷ 0xff ∷ []) ∷ [] ∷ (1 ∷ 2 ∷ 96 ∷ 156 ∷ []) ∷ []

two_polls_sent : flatten two_polls ≡ build_frame 1 96 [] ++ []
unfolding build_frame checksum flatten
two_polls_sent = refl

read_reply-chunks_example : read_reply (some 96) two_polls [] ≡ some (96, [])
read_reply-chunks_example =
    read_reply-chunks 1 96 [] [] (omega arith) (omega arith) (omega arith) (some 96) refl two_polls
      two_polls_sent
