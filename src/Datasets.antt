-- ===== src/Datasets.antt =====
-- packages/nexarm_service/src/nexarm_service/dataset_ops.py: the edits of the local datasets. Repo ids
-- are texts, told valid or not by a parameter that stands for `valid_repo_id`; the datasets library
-- and the Hub are what they leave in the target directory.
pub mod Laws
mod Tests
use lerobot_nexarm.Prelude.{
  ℕ, Bool, true, false, not, ◌&&◌, ◌||◌, List, [], ◌∷◌, ◌++◌, Option, none, some, ltb, ◌==◌, length,
  if◌then◌else◌,
}
use lerobot_nexarm.Prelude.Texts.{Text, same_text}

-- A directory under the root of the store: a dataset, or one that is none.
pub data Directory (A : Type 0) : Type 0 where
  dataset : A → Directory A
  other : Directory A

abbrev pub Store : Type 0 → Type 0
Store A = List (Text × Directory A)

-- What a call of the library comes to: what it wrote, or an error and what it left behind.
pub data Writing (A : Type 0) : Type 0 where
  wrote : Directory A → Writing A
  raised : Option (Directory A) → Writing A

pub data EditError : Type 0 where
  not_found is_recorded invalid_id already_exists none_excluded too_few differ not_lerobot
        wrong_count nothing_to_change failed :
      EditError

-- The answer of an edit, `ok` or an error, and the store after it.
pub record Edited (A : Type 0) : Type 0 where
  pub error : Option EditError
  pub store : Store A

-- The first error of two checks.
abbrev pub or_error : Option EditError → Option EditError → Option EditError
or_error none e = e
or_error (some e) _ = some e

-- Whether all have the rate and robot type of the first.
abbrev pub all_same : ℕ × ℕ → List (ℕ × ℕ) → Bool
all_same i [] = true
all_same i (j ∷ js) = i.0 == j.0 && i.1 == j.1 && all_same i js

abbrev pub agree : List (ℕ × ℕ) → Bool
agree [] = false
agree (i ∷ is) = all_same i is

abbrev pub infos : (Text → ℕ × ℕ) → List Text → List (ℕ × ℕ)
infos info [] = []
infos info (k ∷ ks) = info k ∷ infos info ks

-- The rows of each added feature against the frames of the dataset.
abbrev pub check_counts : ℕ → List ℕ → Option EditError
check_counts frames [] = none
check_counts frames (n ∷ ns) =
    let rest = check_counts frames ns in if n == frames then rest else some wrong_count

abbrev pub check_changes : List ℕ → Bool → Option EditError
check_changes [] false = some nothing_to_change
check_changes _ _ = none

abbrev pub is_error : Option EditError → Bool
is_error none = false
is_error (some e) = true

module _ {A : Type 0} where
  abbrev pub at : Text → Store A → Option (Directory A)
  at k [] = none
  at k ((j, d) ∷ store) = let rest = at k store in if same_text j k then some d else rest

  abbrev pub refused : EditError → Store A → Edited A
  refused e store = record { error = some e; store = store }

  abbrev pub edited : Store A → Edited A
  edited store = record { error = none; store = store }

  -- `_require_source`; `busy` is the set of datasets that are being recorded.
  pub require_source : (Text → Bool) → (Text → Bool) → Text → Store A → Option EditError
  require_source valid busy k store = elim (at k store) [
    | none ↦ some not_found
    | some d ↦ elim d [
      | other ↦ some not_found
      | dataset a ↦
          if not (valid k) then some not_found else if busy k then some is_recorded else none
    ]
  ]

  pub require_new : (Text → Bool) → Text → Store A → Option EditError
  require_new valid k store =
      if not (valid k)
      then some invalid_id
      else elim (at k store) [ none ↦ none | some d ↦ some already_exists ]

  abbrev pub write : Text → Writing A → Store A → Edited A
  write target w store = elim w [
    | wrote d ↦ edited ((target, d) ∷ store)
    | raised left ↦ elim left [
      | none ↦ refused failed store
      | some d ↦ refused failed ((target, d) ∷ store)
    ]
  ]

  abbrev pub guarded : Option EditError → Store A → Edited A → Edited A
  guarded none store e = e
  guarded (some error) store e = refused error store

  pub delete_episodes : (Text → Bool) → (Text → Bool) → Text → Writing A → Text → Store A → Edited A
  unfolding require_source require_new
  delete_episodes valid busy source w target store =
      guarded (or_error (require_source valid busy source store) (require_new valid target store))
        store (write target w store)

  -- `excluded` is the list that the store gives.
  pub drop_excluded :
      (Text → Bool) → (Text → Bool) → List ℕ → Text → Writing A → Text → Store A → Edited A
  unfolding delete_episodes
  drop_excluded valid busy excluded source w target store = elim excluded [
    | [] ↦ refused none_excluded store
    | e ∷ es ↦ delete_episodes valid busy source w target store
  ]

  abbrev pub require_sources :
      (Text → Bool) → (Text → Bool) → List Text → Store A → Option EditError
  unfolding require_source
  require_sources valid busy [] store = none
  require_sources valid busy (k ∷ ks) store =
      or_error (require_source valid busy k store) (require_sources valid busy ks store)

  pub merge :
      (Text → Bool)
      → (Text → Bool)
      → (Text → ℕ × ℕ)
      → List Text
      → Writing A
      → Text
      → Store A
      → Edited A
  unfolding require_sources require_new
  merge valid busy info sources w target store =
      if ltb (length sources) 2
      then refused too_few store
      else guarded (require_sources valid busy sources store) store (
          if agree (infos info sources)
          then guarded (require_new valid target store) store (write target w store)
          else refused differ store)

  -- `added` holds the number of values of each feature, `removes` tells whether any is removed.
  pub modify_features :
      (Text → Bool)
      → (Text → Bool)
      → ℕ
      → List ℕ
      → Bool
      → Text
      → Writing A
      → Text
      → Store A
      → Edited A
  unfolding require_source require_new
  modify_features valid busy frames added removes source w target store =
      guarded (or_error (require_source valid busy source store) (require_new valid target store))
        store
        (guarded (or_error (check_counts frames added) (check_changes added removes)) store
          (write target w store))

  -- The first error of the targets, each of which must be new.
  abbrev pub require_targets :
      (Text → Bool) → List (Text × Option (Writing A)) → Store A → Option EditError
  unfolding require_new
  require_targets valid [] store = none
  require_targets valid ((target, part) ∷ splits) store =
      or_error (require_new valid target store) (require_targets valid splits store)

  -- The moves out of the staging directory; a split without episodes has no directory there. A move
  -- that raises ends them.
  abbrev pub move_splits : List (Text × Option (Writing A)) → Store A → Edited A
  move_splits [] store = edited store
  move_splits ((target, none) ∷ splits) store = move_splits splits store
  move_splits ((target, some w) ∷ splits) store =
      let moved_one = write target w store in
      let rest = move_splits splits moved_one.store in
      if is_error moved_one.error then moved_one else rest

  -- `splits` has the new repo id of each split with what its move does, `is_split` tells that the
  -- library's split has returned. The staging directory is removed on every way out.
  pub split :
      (Text → Bool)
      → (Text → Bool)
      → Text
      → Bool
      → List (Text × Option (Writing A))
      → Store A
      → Edited A
  unfolding require_source require_targets
  split valid busy source is_split splits store =
      let moves = move_splits splits store in
      guarded
        (or_error (require_source valid busy source store) (require_targets valid splits store))
        store (if is_split then moves else refused failed store)

  abbrev pub without : Text → Store A → Store A
  without k [] = []
  without k ((j, d) ∷ store) =
      let rest = without k store in if same_text j k then rest else (j, d) ∷ rest

  abbrev pub moved : Text → Text → Store A → Store A
  moved source target store = elim (at source store) [
    | none ↦ store
    | some d ↦ (target, d) ∷ without source store
  ]

  pub rename : (Text → Bool) → (Text → Bool) → Text → Text → Store A → Edited A
  unfolding require_source require_new
  rename valid busy source target store =
      guarded (or_error (require_source valid busy source store) (require_new valid target store))
        store (edited (moved source target store))

  -- The download, then the look at what has come; only a download that ends is cleaned up.
  pub import_from_hub : (Text → Bool) → Text → Writing A → Store A → Edited A
  unfolding require_new
  import_from_hub valid k w store = guarded (require_new valid k store) store (elim w [
    | raised left ↦ write k (raised left) store
    | wrote d ↦ elim d [
      | dataset a ↦ edited ((k, dataset a) ∷ store)
      | other ↦ refused not_lerobot store
    ]
  ])

-- The edits, with what the library leaves; an edit of a list of sources is a merge.
pub data Edit (A : Type 0) : Type 0 where
  deletes : Text → Writing A → Text → Edit A
  drops : List ℕ → Text → Writing A → Text → Edit A
  merges : (Text → ℕ × ℕ) → List Text → Writing A → Text → Edit A
  renames : Text → Text → Edit A
  imports : Text → Writing A → Edit A
  splits_in : Text → Bool → List (Text × Option (Writing A)) → Edit A
  modifies : ℕ → List ℕ → Bool → Text → Writing A → Text → Edit A

module _ {A : Type 0} where
  pub edit : (Text → Bool) → (Text → Bool) → Edit A → Store A → Edited A
  unfolding delete_episodes drop_excluded merge rename import_from_hub split modify_features
  edit valid busy (deletes source w target) store = delete_episodes valid busy source w target store
  edit valid busy (drops excluded source w target) store =
      drop_excluded valid busy excluded source w target store
  edit valid busy (merges info sources w target) store =
      merge valid busy info sources w target store
  edit valid busy (renames source target) store = rename valid busy source target store
  edit valid busy (imports k w) store = import_from_hub valid k w store
  edit valid busy (splits_in source is_split splits) store =
      split valid busy source is_split splits store
  edit valid busy (modifies frames added removes source w target) store =
      modify_features valid busy frames added removes source w target store

  abbrev pub edit_all : (Text → Bool) → (Text → Bool) → List (Edit A) → Store A → Store A
  edit_all valid busy [] store = store
  edit_all valid busy (e ∷ es) store = edit_all valid busy es (edit valid busy e store).store
