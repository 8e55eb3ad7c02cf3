-- ===== src/Frames/Tests.antt =====
-- The open containers on concrete calls.
use lerobot_nexarm.Prelude.{List, [], ◌∷◌}
use lerobot_nexarm.Frames.{Call, decodes, closes, opens, no_stream, no_containers}
use lerobot_nexarm.Frames.Laws.{run, IsRecent, run-IsRecent}

-- Five videos, of which one is asked for again and one has no video stream.
abbrev calls : List Call
calls =
    decodes 1 opens
    ∷ decodes 2 opens
    ∷ decodes 3 no_stream
    ∷ decodes 1 opens
    ∷ decodes 4 opens
    ∷ decodes 5 opens
    ∷ decodes 6 opens
    ∷ closes
    ∷ decodes 2 opens
    ∷ []

run-IsRecent_example : let r = run calls (no_containers, []) in IsRecent r.0 r.1
run-IsRecent_example = run-IsRecent calls
