-- ===== src/Merge/Crash.antt =====
-- collection_merge.py: the disk after a merge, and at every point where it may stop.
use lerobot_nexarm.Prelude.{
  ◌≡◌, ◌⊎◌, inl, Bool, true, ◌&&◌, Option, none, some, ltb, length, if◌then◌else◌, arith, All,
}
use lerobot_nexarm.Merge.{
  merged_of, Dataset, Session, Hub, unreachable, absent, found, Disk, hub_error, refused, Run,
  Existing, fails, starts_from, is_nil, recover, existing, ledger_of, problems_of, merged_dataset,
  switch, stops, merge_into, merge_locked, last_disk, content,
}

module _ {A : Type 0} where
  -- What a merge does to the content: the specification that forgets the directories.
  abbrev pub start : Hub A → Option (Dataset A) → Existing A
  start hub (some r) = starts_from (some r)
  start unreachable none = fails
  start absent none = starts_from none
  start (found h) none = starts_from (some h)

  abbrev pub may_merge : Option (Dataset A) → Session A → Bool
  may_merge base s =
      ltb (merged_of s.id (ledger_of base)) (length s.items) && is_nil (problems_of base s)

  abbrev pub merge_content : Hub A → Session A → Option (Dataset A) → Option (Dataset A)
  merge_content hub s c = elim (start hub c) [
    | fails ↦ c
    | starts_from base ↦ if may_merge base s then some (merged_dataset base s) else c
  ]

  recover-content : (d : Disk A) → content (recover d) ≡ content d
  unfolding recover
  recover-content d = ground arith

  pub existing-recover :
      (hub : Hub A) (d : Disk A) → existing hub (recover d) ≡ start hub (content d)
  unfolding recover existing
  existing-recover hub d = ground arith

  merge_into-content :
      (s : Session A) (base : Option (Dataset A)) (d : Disk A)
      → content (last_disk d (merge_into true s base d).disks)
        ≡ (if may_merge base s then some (merged_dataset base s) else content d)
  unfolding merge_into switch
  merge_into-content s base d = ground arith

  -- The last disk of a merge whose renames succeed has the content that the specification gives
  -- for the content before it, whichever directories held that.
  pub merge_locked-merge_content :
      (hub : Hub A) (s : Session A) (d : Disk A)
      → content (last_disk d (merge_locked true hub s d).disks) ≡ merge_content hub s (content d)
  unfolding merge_locked
  merge_locked-merge_content hub s d =
      let d' = recover d in
      rw (merge_locked, existing-recover hub d)
        (ended (start hub (content d)) d' (content d) (recover-content d))
    where
      ended :
          (x : Existing A) (d' : Disk A) (c : Option (Dataset A))
          → content d' ≡ c
          → content (
              last_disk d'
                (elim x as (λ _. Run A) [
                  | fails ↦ stops (refused hub_error) d'
                  | starts_from base ↦ merge_into true s base d'
                ]).disks)
            ≡ (elim x as (λ _. Option (Dataset A)) [
              | fails ↦ c
              | starts_from base ↦ if may_merge base s then some (merged_dataset base s) else c
            ])
      ended fails d' c same = same
      ended (starts_from base) d' c same = rw (← same) (merge_into-content s base d')

  -- Old or new: a content that a merge of `s` may leave.
  abbrev pub IsOldOrNew : Hub A → Session A → Option (Dataset A) → Option (Dataset A) → Type 0
  IsOldOrNew hub s old c = (c ≡ old) ⊎ (c ≡ merge_content hub s old)

  merge_into-disks :
      (renames : Bool) (s : Session A) (base : Option (Dataset A)) (d : Disk A)
      → All
          (λ e.
            (content e ≡ content d)
            ⊎ (content e ≡ (if may_merge base s then some (merged_dataset base s) else content d)))
          (merge_into renames s base d).disks
  unfolding merge_into switch recover
  merge_into-disks renames s base d = ground arith

  -- Wherever a merge stops, also where its last rename fails, the content is that of before or that
  -- of the whole merge.
  pub merge_locked-IsOldOrNew :
      (renames : Bool) (hub : Hub A) (s : Session A) (d : Disk A)
      → All (λ e. IsOldOrNew hub s (content d) (content e)) (merge_locked renames hub s d).disks
  unfolding merge_locked
  merge_locked-IsOldOrNew renames hub s d =
      let d' = recover d in
      let same = recover-content d in
      rw (merge_locked, existing-recover hub d)
        (inl same, all_ended (start hub (content d)) d' (content d) same)
    where
      all_ended :
          (x : Existing A) (d' : Disk A) (c : Option (Dataset A))
          → content d' ≡ c
          → All
              (λ e.
                (content e ≡ c)
                ⊎ (content e ≡ (elim x as (λ _. Option (Dataset A)) [
                  | fails ↦ c
                  | starts_from base ↦ if may_merge base s then some (merged_dataset base s) else c
                ])))
              (elim x as (λ _. Run A) [
                | fails ↦ stops (refused hub_error) d'
                | starts_from base ↦ merge_into renames s base d'
              ]).disks
      all_ended fails d' c e = tt
      all_ended (starts_from base) d' c e = rw (← e) (merge_into-disks renames s base d')
