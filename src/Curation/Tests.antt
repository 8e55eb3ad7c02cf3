-- ===== src/Curation/Tests.antt =====
-- dataset_store.py: the theorem at a concrete input.
use lerobot_nexarm.Prelude.{◌≡◌, refl, List, [], ◌∷◌, some}
use lerobot_nexarm.Prelude.Int.{ℤ, pos}
use lerobot_nexarm.Curation.{set_excluded}

abbrev episodes : List ℤ
episodes = pos 4 ∷ pos 1 ∷ pos 4 ∷ []

accepted : set_excluded 5 episodes ≡ some (1 ∷ 4 ∷ [])
unfolding set_excluded
accepted = refl
