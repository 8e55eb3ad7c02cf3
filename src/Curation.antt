-- ===== src/Curation.antt =====
-- packages/nexarm_service/src/nexarm_service/dataset_store.py: the list of the episodes of a dataset
-- that are excluded. The file is its content, none where there is no file.
pub mod Laws
mod Tests
use lerobot_nexarm.Prelude.{
  ℕ, Bool, true, false, ◌&&◌, List, [], ◌∷◌, Option, none, some, ltb, leb, ◌==◌, if◌then◌else◌,
}
use lerobot_nexarm.Prelude.Int.{ℤ, pos, negsuc}

-- `sorted(set(...))`, by insertion.
pub insert : ℕ → List ℕ → List ℕ
insert e [] = e ∷ []
insert e (x ∷ xs) =
    let rest = insert e xs in if ltb e x then e ∷ x ∷ xs else if e == x then x ∷ xs else x ∷ rest

pub sorted_set : List ℕ → List ℕ
unfolding insert
sorted_set [] = []
sorted_set (e ∷ es) = insert e (sorted_set es)

-- The test of each index, and the indices once all have passed it.
abbrev pub index_within : ℕ → ℤ → Option ℕ
index_within total (pos e) = if ltb e total then some e else none
index_within total (negsuc e) = none

abbrev pub consed : Option ℕ → Option (List ℕ) → Option (List ℕ)
consed (some e) (some es) = some (e ∷ es)
consed (some e) none = none
consed none rest = none

abbrev pub all_within : ℕ → List ℤ → Option (List ℕ)
all_within total [] = some []
all_within total (e ∷ es) = consed (index_within total e) (all_within total es)

-- `set_excluded`: the new content of the file, which is also what is returned; none is ValueError.
pub set_excluded : ℕ → List ℤ → Option (List ℕ)
unfolding sorted_set
set_excluded total episodes = elim (all_within total episodes) [
  | none ↦ none
  | some es ↦ some (sorted_set es)
]

-- Whether `episodes` marks an episode as excluded.
abbrev pub is_excluded : ℕ → List ℕ → Bool
is_excluded e [] = false
is_excluded e (x ∷ xs) = if e == x then true else is_excluded e xs
