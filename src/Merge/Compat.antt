-- ===== src/Merge/Compat.antt =====
-- collection_merge.py: what a session and a root must share. Names of features and of their parts
-- are numbers; the library's default features are a parameter that a session's features include.
pub mod Laws
use lerobot_nexarm.Prelude.{
  ℕ, Bool, true, false, not, ◌&&◌, List, [], ◌∷◌, ◌++◌, Option, none, some, ◌==◌, if◌then◌else◌,
}

-- A feature as `_comparable` gives it.
pub record Feature : Type 0 where
  pub dtype : ℕ
  pub shape : List ℕ
  pub names : List ℕ

abbrev pub Features : Type 0
Features = List (ℕ × Feature)

pub record Contract : Type 0 where
  pub fps : ℕ
  pub robot_type : ℕ
  pub features : Features

pub data Problem : Type 0 where
  fps_differs robot_type_differs : Problem
  keys_differ : List ℕ → List ℕ → Problem
  feature_differs : ℕ → Bool → Problem

abbrev pub lookup : ℕ → Features → Option Feature
lookup k [] = none
lookup k ((j, f) ∷ fs) = if j == k then some f else lookup k fs

abbrev pub same_list : List ℕ → List ℕ → Bool
same_list [] [] = true
same_list (x ∷ xs) (y ∷ ys) = x == y && same_list xs ys
same_list _ _ = false

pub same_feature : Feature → Feature → Bool
same_feature f g = f.dtype == g.dtype && same_list f.shape g.shape && same_list f.names g.names

-- The keys of the first that the second has not, in the order of the first.
pub only_in : Features → Features → List ℕ
only_in [] gs = []
only_in ((k, f) ∷ fs) gs =
    let rest = only_in fs gs in elim (lookup k gs) [ none ↦ k ∷ rest | some g ↦ rest ]

abbrev pub names_differ : Feature → Feature → Bool
names_differ f g = f.dtype == g.dtype && same_list f.shape g.shape

-- The loop over the keys that both have.
pub feature_problems : Features → Features → List Problem
unfolding same_feature
feature_problems [] gs = []
feature_problems ((k, f) ∷ fs) gs =
    let rest = feature_problems fs gs in
    elim (lookup k gs) [
      | none ↦ rest
      | some g ↦ if same_feature f g then rest else feature_differs k (names_differ f g) ∷ rest
    ]

pub key_problems : List ℕ → List ℕ → List Problem
key_problems [] [] = []
key_problems root session = keys_differ root session ∷ []

unfoldable pub merge_incompatibilities : Contract → Contract → List Problem
unfolding only_in feature_problems key_problems
merge_incompatibilities root session =
    (if root.fps == session.fps then [] else fps_differs ∷ [])
    ++ ((if root.robot_type == session.robot_type then [] else robot_type_differs ∷ [])
        ++ (key_problems (only_in root.features session.features)
              (only_in session.features root.features)
            ++ feature_problems root.features session.features))
