-- ===== src/Merge.antt =====
-- packages/lerobot_robot_nexarm/src/lerobot_robot_nexarm/collection_merge.py: the merge of a
-- recording session into the local root dataset. A dataset is its episodes, its import ledger and
-- its contract; a function that changes directories returns the disk after each of its changes,
-- in order, since the process may stop after any of them. Ids are numbers. The Hub is a parameter.
pub mod Compat
pub mod Laws
pub mod Crash
pub mod Check
mod Tests
use lerobot_nexarm.Prelude.{
  ℕ, zero, suc, ◌-◌, Bool, true, false, List, [], ◌∷◌, ◌++◌, Option, none, some, ltb, ◌==◌, length,
  drop, if◌then◌else◌,
}
use lerobot_nexarm.Merge.Compat.{Contract, Problem, merge_incompatibilities}

-- The manifest's "sessions": how many episodes of a session are merged.
abbrev pub Ledger : Type 0
Ledger = List (ℕ × ℕ)

abbrev pub merged_of : ℕ → Ledger → ℕ
merged_of id [] = 0
merged_of id ((k, n) ∷ l) = if k == id then n else merged_of id l

abbrev pub set_merged : ℕ → ℕ → Ledger → Ledger
set_merged id n [] = (id, n) ∷ []
set_merged id n ((k, m) ∷ l) = if k == id then (id, n) ∷ l else (k, m) ∷ set_merged id n l

pub record Dataset (A : Type 0) : Type 0 where
  pub episodes : List A
  pub sessions : Ledger
  pub contract : Contract

pub record Session (A : Type 0) : Type 0 where
  pub id : ℕ
  pub items : List A
  pub contract : Contract

-- The Hub's answer to a download of the root's `meta/info.json`.
pub data HubReply (A : Type 0) : Type 0 where
  gated not_found failed : HubReply A
  file : Dataset A → HubReply A

-- What `hub_root_info` finds.
pub data Hub (A : Type 0) : Type 0 where
  unreachable absent : Hub A
  found : Dataset A → Hub A

pub record Disk (A : Type 0) : Type 0 where
  pub root : Option (Dataset A)
  pub backup : Option (Dataset A)

pub data Refusal : Type 0 where
  same_dataset hub_error fewer_episodes rename_failed : Refusal
  incompatible : List Problem → Refusal

pub data Outcome : Type 0 where
  merged : ℕ → Outcome
  refused : Refusal → Outcome

pub record Run (A : Type 0) : Type 0 where
  pub disks : List (Disk A)
  pub outcome : Outcome

-- The root that a merge starts from: none where there is none yet.
pub data Existing (A : Type 0) : Type 0 where
  fails : Existing A
  starts_from : Option (Dataset A) → Existing A

abbrev pub is_nil : List Problem → Bool
is_nil [] = true
is_nil (p ∷ ps) = false

module _ {A : Type 0} where
  -- An anonymous client cannot tell a private root from a new one.
  pub hub_root_info : Bool → HubReply A → Hub A
  hub_root_info has_token gated = unreachable
  hub_root_info has_token not_found = if has_token then absent else unreachable
  hub_root_info has_token failed = unreachable
  hub_root_info has_token (file r) = found r

  -- The recovery of a merge that stopped between its two renames.
  pub recover : Disk A → Disk A
  recover d = elim d.root [
    | some r ↦ d
    | none ↦ elim d.backup [ none ↦ d | some b ↦ record { root = some b; backup = none } ]
  ]

  pub existing : Hub A → Disk A → Existing A
  existing hub d = elim d.root [
    | some r ↦ starts_from (some r)
    | none ↦ elim hub [
      | unreachable ↦ fails
      | absent ↦ starts_from none
      | found h ↦ starts_from (some h)
    ]
  ]

  abbrev pub ledger_of : Option (Dataset A) → Ledger
  ledger_of none = []
  ledger_of (some r) = r.sessions

  abbrev pub episodes_of : Option (Dataset A) → List A
  episodes_of none = []
  episodes_of (some r) = r.episodes

  abbrev pub problems_of : Option (Dataset A) → Session A → List Problem
  problems_of none s = []
  problems_of (some r) s = merge_incompatibilities r.contract s.contract

  abbrev pub contract_of : Option (Dataset A) → Session A → Contract
  contract_of none s = s.contract
  contract_of (some r) s = r.contract

  -- The dataset that is built beside the root.
  pub merged_dataset : Option (Dataset A) → Session A → Dataset A
  merged_dataset base s = record {
    episodes = episodes_of base ++ drop (merged_of s.id (ledger_of base)) s.items;
    sessions = set_merged s.id (length s.items) (ledger_of base);
    contract = contract_of base s;
  }

  -- The switch of the root directory; `renames` tells whether the last rename succeeds.
  pub switch : Bool → Dataset A → ℕ → Disk A → Run A
  switch renames new count d =
      let put : Disk A = record { root = some new; backup = d.root } in
      let put_first : Disk A = record { root = some new; backup = d.backup } in
      let cleared : Disk A = record { root = d.root; backup = none } in
      let moved : Disk A = record { root = none; backup = d.root } in
      let back : Disk A = record { root = d.root; backup = none } in
      elim d.root [
        | some r ↦
            if renames
            then record { disks = cleared ∷ moved ∷ put ∷ []; outcome = merged count }
            else record { disks = cleared ∷ moved ∷ back ∷ []; outcome = refused rename_failed }
        | none ↦
            if renames
            then record { disks = put_first ∷ []; outcome = merged count }
            else record { disks = recover d ∷ []; outcome = refused rename_failed }
      ]

  abbrev pub stops : Outcome → Disk A → Run A
  stops o d = record { disks = []; outcome = o }

  -- The part under the file lock once the root has been recovered.
  pub merge_into : Bool → Session A → Option (Dataset A) → Disk A → Run A
  unfolding switch merged_dataset
  merge_into renames s base d =
      let previous = merged_of s.id (ledger_of base) in
      let count = length s.items in
      let problems = problems_of base s in
      if ltb count previous
      then stops (refused fewer_episodes) d
      else if previous == count
      then stops (merged 0) d
      else if is_nil problems
      then switch renames (merged_dataset base s) (count - previous) d
      else stops (refused (incompatible problems)) d

  abbrev pub after_recovery : Disk A → Run A → Run A
  after_recovery d r = record r { disks = d ∷ r.disks }

  pub merge_locked : Bool → Hub A → Session A → Disk A → Run A
  unfolding recover existing merge_into
  merge_locked renames hub s d =
      let d' = recover d in
      after_recovery d' (elim (existing hub d') [
        | fails ↦ stops (refused hub_error) d'
        | starts_from base ↦ merge_into renames s base d'
      ])

  -- `merge_collection_session`; `is_root` tells whether the session is the root itself.
  pub merge_collection_session : Bool → Bool → Hub A → Session A → Disk A → Run A
  unfolding merge_locked
  merge_collection_session is_root renames hub s d =
      if length s.items == 0
      then stops (merged 0) d
      else if is_root
      then stops (refused same_dataset) d
      else merge_locked renames hub s d

  -- The disk when a run has ended.
  abbrev pub last_disk : Disk A → List (Disk A) → Disk A
  last_disk d [] = d
  last_disk d (e ∷ es) = last_disk e es

  -- What the next merge starts from.
  abbrev pub content : Disk A → Option (Dataset A)
  content d = elim d.root [ some r ↦ some r | none ↦ d.backup ]
