-- ===== src/Datasets/Tests.antt =====
-- dataset_ops.py: the theorems at concrete inputs.
use lerobot_nexarm.Prelude.{ℕ, ◌≡◌, refl, Bool, true, false, List, [], ◌∷◌, some}
use lerobot_nexarm.Prelude.Texts.{Text, codes}
use lerobot_nexarm.Datasets.{
  dataset, other, Store, wrote, raised, at, Edit, deletes, merges, renames, imports, splits_in,
  modifies, edit_all,
}
use lerobot_nexarm.Datasets.Laws.{edit_all-at}

-- Every id is valid and nothing is being recorded.
abbrev valid : Text → Bool
valid k = true

abbrev busy : Text → Bool
busy k = false

abbrev two_datasets : Store ℕ
two_datasets = (codes "me/a", dataset 1) ∷ (codes "me/b", dataset 2) ∷ []

abbrev same_info : Text → ℕ × ℕ
same_info k = (30, 1)

abbrev some_edits : List (Edit ℕ)
some_edits =
    deletes (codes "me/a") (wrote (dataset 3)) (codes "me/c")
    ∷ merges same_info (codes "me/a" ∷ codes "me/b" ∷ []) (raised (some other)) (codes "me/d")
    ∷ renames (codes "me/b") (codes "me/e")
    ∷ splits_in (codes "me/a") true ((codes "me/a_train", some (wrote (dataset 6))) ∷ [])
    ∷ modifies 10 (9 ∷ []) false (codes "me/a") (wrote (dataset 7)) (codes "me/f")
    ∷ imports (codes "me/a") (wrote (dataset 4))
    ∷ []

edit_all-at_example :
    at (codes "me/a") (edit_all valid busy some_edits two_datasets) ≡ some (dataset 1)
edit_all-at_example =
    edit_all-at valid busy (codes "me/a") some_edits (dataset 1) two_datasets refl refl
