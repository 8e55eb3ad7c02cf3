-- ===== src/Merge/Tests.antt =====
-- collection_merge.py: the theorems at concrete inputs.
use lerobot_nexarm.Prelude.{ℕ, ◌≡◌, refl, true, false, [], ◌∷◌, none, some, All, arith}
use lerobot_nexarm.Merge.Compat.{Feature, Contract, merge_incompatibilities}
use lerobot_nexarm.Merge.Check.{mergeable, check_session_mergeable}
use lerobot_nexarm.Merge.{
  file, hub_root_info, Dataset, Session, absent, Disk, merge_locked, last_disk, content,
}
use lerobot_nexarm.Merge.Crash.{
  merge_content, may_merge, merge_locked-merge_content, IsOldOrNew, merge_locked-IsOldOrNew,
}
use lerobot_nexarm.Merge.Laws.{extend, HasMerged, merge_locked-again}

abbrev state_feature : Feature
state_feature = record { dtype = 1; shape = 6 ∷ []; names = 1 ∷ 2 ∷ 3 ∷ 4 ∷ 5 ∷ 6 ∷ [] }

abbrev one_contract : Contract
one_contract = record { fps = 30; robot_type = 7; features = (1, state_feature) ∷ [] }

abbrev one_session : Session ℕ
one_session = record { id = 4; items = 11 ∷ 12 ∷ 13 ∷ []; contract = one_contract }

abbrev one_root : Dataset ℕ
one_root = record { episodes = 9 ∷ 11 ∷ []; sessions = (4, 1) ∷ []; contract = one_contract }

-- The disk of a merge that stopped between its two renames.
abbrev moved_away : Disk ℕ
moved_away = record { root = none; backup = some one_root }

one_contract_lem : merge_incompatibilities one_contract one_contract ≡ []
unfolding merge_incompatibilities
one_contract_lem = refl

merge_locked-merge_content_example :
    content (last_disk moved_away (merge_locked true absent one_session moved_away).disks)
    ≡ merge_content absent one_session (content moved_away)
merge_locked-merge_content_example = merge_locked-merge_content absent one_session moved_away

merge_locked-IsOldOrNew_example :
    All
      (λ e. IsOldOrNew absent one_session (content moved_away) (content e))
      (merge_locked false absent one_session moved_away).disks
merge_locked-IsOldOrNew_example = merge_locked-IsOldOrNew false absent one_session moved_away

-- Of the three episodes one is merged, and a fourth comes before the merge is tried again.
one_may_merge : may_merge (some one_root) one_session ≡ true
one_may_merge = ground (arith, one_contract_lem)

merge_locked-again_example :
    All
      (λ e.
        HasMerged
          (extend one_session (14 ∷ []))
          one_root
          (content (last_disk e (merge_locked true absent (extend one_session (14 ∷ [])) e).disks)))
      (merge_locked false absent one_session moved_away).disks
merge_locked-again_example =
    merge_locked-again false absent one_session (14 ∷ []) moved_away one_root refl one_may_merge

one_check :
    check_session_mergeable (hub_root_info true (file one_root)) moved_away one_contract ≡ mergeable
unfolding check_session_mergeable
one_check = ground (arith, one_contract_lem)
