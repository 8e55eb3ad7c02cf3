-- ===== src/Merge/Check.antt =====
-- collection_merge.py: the check before a recording, and the merge after it.
use lerobot_nexarm.Prelude.{
  ◌≡◌, ◌≢◌, refl, Bool, true, List, Option, none, some, if◌then◌else◌, arith,
}
use lerobot_nexarm.Merge.Compat.{Contract, Problem, merge_incompatibilities}
use lerobot_nexarm.Merge.{
  Dataset, Session, Hub, unreachable, absent, found, HubReply, hub_root_info, Disk, refused,
  hub_error, incompatible, Run, Existing, fails, starts_from, is_nil, recover, problems_of, switch,
  stops, merge_into, merge_locked, content,
}
use lerobot_nexarm.Merge.Crash.{start, existing-recover}

-- The results of `check_session_mergeable`; the second is its False.
pub data Check : Type 0 where
  root_unreadable new_root mergeable : Check
  not_mergeable : List Problem → Check

module _ {A : Type 0} where
  -- The local root, else its backup, else the Hub's.
  abbrev pub root_info : Hub A → Disk A → Existing A
  root_info hub d = elim d.root [
    | some r ↦ starts_from (some r)
    | none ↦ elim d.backup [
      | some b ↦ starts_from (some b)
      | none ↦ elim hub [
        | unreachable ↦ fails
        | absent ↦ starts_from none
        | found h ↦ starts_from (some h)
      ]
    ]
  ]

  abbrev pub check_contract : Dataset A → Contract → Check
  check_contract r c =
      let problems = merge_incompatibilities r.contract c in
      if is_nil problems then mergeable else not_mergeable problems

  abbrev pub check_base : Option (Dataset A) → Contract → Check
  check_base none c = new_root
  check_base (some r) c = check_contract r c

  unfoldable pub check_session_mergeable : Hub A → Disk A → Contract → Check
  check_session_mergeable hub d c = elim (root_info hub d) [
    | fails ↦ root_unreadable
    | starts_from base ↦ check_base base c
  ]

  root_info-start : (hub : Hub A) (d : Disk A) → root_info hub d ≡ start hub (content d)
  root_info-start hub d = ground arith

  check_base-problems_of :
      (base : Option (Dataset A)) (s : Session A)
      → check_base base s.contract ≡ mergeable
      → is_nil (problems_of base s) ≡ true
  check_base-problems_of none s ok = refl
  check_base-problems_of (some r) s ok = ground arith

  merge_into-compatible :
      (renames : Bool) (s : Session A) (base : Option (Dataset A)) (d : Disk A)
      (problems : List Problem)
      → is_nil (problems_of base s) ≡ true
      → (merge_into renames s base d).outcome ≢ refused (incompatible problems)
  unfolding merge_into switch
  merge_into-compatible renames s base d problems ok = ground arith

  -- A session that the check found mergeable before it was recorded is not refused for its contract
  -- when it is merged into the same root after it.
  pub check_session_mergeable-merge_locked :
      (has_token renames : Bool) (reply : HubReply A) (s : Session A) (d : Disk A)
      (problems : List Problem)
      → check_session_mergeable (hub_root_info has_token reply) d s.contract ≡ mergeable
      → (merge_locked renames (hub_root_info has_token reply) s d).outcome
        ≢ refused (incompatible problems)
  unfolding merge_locked check_session_mergeable
  check_session_mergeable-merge_locked has_token renames reply s d problems ok =
      let hub = hub_root_info has_token reply in
      let d' = recover d in
      rw (merge_locked, existing-recover hub d)
        (not_refused (start hub (content d)) d' (rw (← root_info-start hub d) ok))
    where
      not_refused :
          (x : Existing A) (d' : Disk A)
          → (elim x as (λ _. Check) [
            | fails ↦ root_unreadable
            | starts_from base ↦ check_base base s.contract
          ])
            ≡ mergeable
          → (elim x as (λ _. Run A) [
            | fails ↦ stops (refused hub_error) d'
            | starts_from base ↦ merge_into renames s base d'
          ]).outcome
            ≢ refused (incompatible problems)
      not_refused fails d' ok = ground arith
      not_refused (starts_from base) d' ok =
          merge_into-compatible renames s base d' problems (check_base-problems_of base s ok)
