-- ===== src/Safety.antt =====
-- packages/nexarm_service/src/nexarm_service/safety.py: the helpers that every session drives the
-- arm through. Positions are whole ticks; the bus delivers them from 0 to 4095.
pub mod Limits
pub mod Rest
pub mod Ramp
mod Tests
use lerobot_nexarm.Prelude.{
  ℕ, ◌+◌, ◌-◌, Bool, true, false, ◌&&◌, List, [], ◌∷◌, Option, none, some, length, ltb, leb, ◌==◌,
}

abbrev pub corrupt_margin : ℕ
corrupt_margin = 5

abbrev pub position_max : ℕ
position_max = 4095

abbrev pub joint_count : ℕ
joint_count = 6

-- A read that is not pinned near 0 or 4095, as a dropped packet's is.
unfoldable pub is_uncorrupted : ℕ → Bool
is_uncorrupted p = ltb corrupt_margin p && ltb p (position_max - corrupt_margin)

unfoldable pub all_uncorrupted : List ℕ → Bool
unfolding is_uncorrupted
all_uncorrupted [] = true
all_uncorrupted (p ∷ ps) = is_uncorrupted p && all_uncorrupted ps

unfoldable pub is_valid_read : List ℕ → Bool
unfolding all_uncorrupted
is_valid_read positions = length positions == joint_count && all_uncorrupted positions

-- `abs(a - b) <= tolerance`
abbrev pub within : ℕ → ℕ → ℕ → Bool
within tolerance a b = leb a (b + tolerance) && leb b (a + tolerance)

-- The same at every joint of two poses of one length.
unfoldable pub all_within : ℕ → List ℕ → List ℕ → Bool
all_within tolerance [] bs = true
all_within tolerance (a ∷ as') [] = true
all_within tolerance (a ∷ as') (b ∷ bs) = within tolerance a b && all_within tolerance as' bs

abbrev pub Pose : Type 0
Pose = List ℕ

-- A read that times out is taken for an empty one, which is not valid.
abbrev pub positions_of : Option Pose → Pose
positions_of none = []
positions_of (some positions) = positions
