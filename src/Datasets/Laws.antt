-- ===== src/Datasets/Laws.antt =====
-- dataset_ops.py: no edit touches a dataset that is there, but for the one that it renames.
use lerobot_nexarm.Prelude.{
  ℕ, ◌≡◌, ◌≢◌, ◌⊎◌, inl, inr, refl, sym, ap, ◌∙◌, Bool, true, false, ◌||◌, List, [], ◌∷◌, Option,
  none, some, ltb, length, if◌then◌else◌, arith, Bool-cases, Option-cases,
}
use lerobot_nexarm.Prelude.Texts.{Text, same_text, same_text_lem, same_text_refl}
use lerobot_nexarm.Datasets.{
  Directory, dataset, other, Store, Writing, wrote, raised, EditError, already_exists, differ,
  not_lerobot, failed, Edited, at, refused, edited, require_source, require_new, or_error, write,
  guarded, delete_episodes, drop_excluded, require_sources, agree, infos, merge, without, moved,
  rename, import_from_hub, Edit, deletes, drops, merges, renames, imports, splits_in, modifies,
  check_counts, check_changes, modify_features, require_targets, is_error, move_splits, split, edit,
  edit_all,
}

or_error-none : (a b : Option EditError) → or_error a b ≡ none → (a ≡ none) × (b ≡ none)
or_error-none none b h = (refl, h)
or_error-none (some e) b h = absurd (ground arith)

module _ {A : Type 0} where
  -- A store that still has what another has at a name.
  abbrev pub Keeps : Text → Store A → Store A → Type 0
  Keeps k store store' = (at k store ≡ none) ⊎ (at k store' ≡ at k store)

  write-Keeps :
      (k target : Text) (w : Writing A) (store : Store A)
      → at target store ≡ none
      → Keeps k store (write target w store).store
  write-Keeps k target w store new = elim (Bool-cases (same_text target k)) [
    | inl e ↦ inl (ap (λ t. at t store) (sym (same_text_lem target k e)) ∙ new)
    | inr e ↦ inr (ground arith)
  ]

  require_new-at :
      (valid : Text → Bool) (k : Text) (store : Store A)
      → require_new valid k store ≡ none
      → at k store ≡ none
  unfolding require_new
  require_new-at valid k store h = ground arith

  guarded-Keeps :
      (k : Text) (error : Option EditError) (store : Store A) (e : Edited A)
      → (error ≢ none) ⊎ Keeps k store e.store
      → Keeps k store (guarded error store e).store
  guarded-Keeps k none store e h = elim h [
    | inl no_error ↦ absurd (no_error refl)
    | inr keeps ↦ keeps
  ]
  guarded-Keeps k (some x) store e h = inr refl

  at-without :
      (k source : Text) (store : Store A)
      → same_text source k ≡ false
      → at k (without source store) ≡ at k store
  at-without k source [] h = refl
  at-without k source ((j, d) ∷ store) h = elim (Bool-cases (same_text j source)) [
    | inl e ↦
        let same : j ≡ source = same_text_lem j source e in
        ground (arith, at-without k source store, ap (λ t. same_text t k) same)
    | inr e ↦ ground (arith, at-without k source store)
  ]

  new_guard :
      (valid : Text → Bool) (target : Text) (first : Option EditError) (store : Store A)
      → (or_error first (require_new valid target store) ≢ none) ⊎ (at target store ≡ none)
  new_guard valid target first store = elim (Option-cases (require_new valid target store)) [
    | inl e ↦ inr (require_new-at valid target store e)
    | inr (x, e) ↦ inl (ground arith)
  ]

  guarded-write-Keeps :
      (valid : Text → Bool) (k target : Text) (first : Option EditError) (w : Writing A)
      (store : Store A)
      → Keeps k store
          (guarded
            (or_error first (require_new valid target store))
            store
            (write target w store)).store
  guarded-write-Keeps valid k target first w store =
      let error = or_error first (require_new valid target store) in
      guarded-Keeps k error store (write target w store)
        (elim (new_guard valid target first store) [
          | inl e ↦ inl e
          | inr new ↦ inr (write-Keeps k target w store new)
        ])

  moved-Keeps :
      (k source target : Text) (store : Store A)
      → at target store ≡ none
      → same_text source k ≡ false
      → Keeps k store (moved source target store)
  moved-Keeps k source target store new h = elim (Option-cases (at source store)) [
    | inl e ↦ rw (e, moved) (inr refl)
    | inr (d, e) ↦
        rw (e, moved)
          (elim (Bool-cases (same_text target k)) [
            | inl s ↦ inl (ap (λ t. at t store) (sym (same_text_lem target k s)) ∙ new)
            | inr s ↦ inr (rw s (at-without k source store h))
          ])
  ]

  -- Whether an edit renames a dataset.
  abbrev pub moves : Text → Edit A → Bool
  moves k (renames source target) = same_text source k
  moves k _ = false

  merge-Keeps :
      (valid busy : Text → Bool) (info : Text → ℕ × ℕ) (sources : List Text) (w : Writing A)
      (k target : Text) (store : Store A)
      → Keeps k store (merge valid busy info sources w target store).store
  unfolding merge
  merge-Keeps valid busy info sources w k target store =
      let put = guarded (require_new valid target store) store (write target w store) in
      let after : Edited A = if agree (infos info sources) then put else refused differ store in
      let put_keeps : Keeps k store put.store = guarded-write-Keeps valid k target none w store in
      let after_keeps : Keeps k store after.store = elim (Bool-cases (agree (infos info sources))) [
        | inl e ↦ rw e put_keeps
        | inr e ↦ rw e (inr refl)
      ] in
      elim (Bool-cases (ltb (length sources) 2)) [
        | inl e ↦ rw e (inr refl)
        | inr e ↦ rw e (
            guarded-Keeps k (require_sources valid busy sources store) store after
              (inr after_keeps))
      ]

  import_from_hub-Keeps :
      (valid : Text → Bool) (w : Writing A) (k target : Text) (store : Store A)
      → Keeps k store (import_from_hub valid target w store).store
  unfolding import_from_hub
  import_from_hub-Keeps valid (raised left) k target store =
      guarded-write-Keeps valid k target none (raised left) store
  import_from_hub-Keeps valid (wrote (dataset a)) k target store =
      guarded-write-Keeps valid k target none (wrote (dataset a)) store
  import_from_hub-Keeps valid (wrote other) k target store =
      guarded-Keeps k (require_new valid target store) store (refused not_lerobot store)
        (inr (inr refl))

  modify_features-Keeps :
      (valid busy : Text → Bool) (frames : ℕ) (added : List ℕ) (removes : Bool) (k source : Text)
      (w : Writing A) (target : Text) (store : Store A)
      → Keeps k store (modify_features valid busy frames added removes source w target store).store
  unfolding modify_features
  modify_features-Keeps valid busy frames added removes k source w target store =
      let first = require_source valid busy source store in
      let changes = or_error (check_counts frames added) (check_changes added removes) in
      guarded-Keeps k (or_error first (require_new valid target store)) store
        (guarded changes store (write target w store))
        (elim (new_guard valid target first store) [
          | inl e ↦ inl e
          | inr new ↦ inr (
              guarded-Keeps k changes store (write target w store)
                (inr (write-Keeps k target w store new)))
        ])

  abbrev AreNew : List (Text × Option (Writing A)) → Store A → Type 0
  AreNew [] store = Unit
  AreNew ((target, part) ∷ splits) store = (at target store ≡ none) × AreNew splits store

  require_targets-AreNew :
      (valid : Text → Bool) (splits : List (Text × Option (Writing A))) (store : Store A)
      → require_targets valid splits store ≡ none
      → AreNew splits store
  unfolding require_new require_targets
  require_targets-AreNew valid [] store h = tt
  require_targets-AreNew valid ((target, part) ∷ splits) store h =
      let both =
        or_error-none (require_new valid target store) (require_targets valid splits store) h in
      (require_new-at valid target store both.0, require_targets-AreNew valid splits store both.1)

  -- Moves to names that a store had nothing at keep what it had, whatever came to it since.
  write-Keeps_from :
      (k target : Text) (w : Writing A) (old store : Store A)
      → at target old ≡ none
      → Keeps k old store
      → Keeps k old (write target w store).store
  write-Keeps_from k target w old store new h = elim (Bool-cases (same_text target k)) [
    | inl e ↦ inl (ap (λ t. at t old) (sym (same_text_lem target k e)) ∙ new)
    | inr e ↦ elim h [ inl gone ↦ inl gone | inr same ↦ inr (ground arith) ]
  ]

  move_splits-Keeps :
      (k : Text) (splits : List (Text × Option (Writing A))) (old store : Store A)
      → AreNew splits old
      → Keeps k old store
      → Keeps k old (move_splits splits store).store
  move_splits-Keeps k [] old store n h = h
  move_splits-Keeps k ((target, none) ∷ splits) old store n h =
      move_splits-Keeps k splits old store n.1 h
  move_splits-Keeps k ((target, some w) ∷ splits) old store n h =
      let one = write target w store in
      let kept = write-Keeps_from k target w old store n.0 h in
      elim (Bool-cases (is_error one.error)) [
        | inl e ↦ rw e kept
        | inr e ↦ rw e (move_splits-Keeps k splits old one.store n.1 kept)
      ]

  split-Keeps :
      (valid busy : Text → Bool) (k source : Text) (is_split : Bool)
      (splits : List (Text × Option (Writing A))) (store : Store A)
      → Keeps k store (split valid busy source is_split splits store).store
  unfolding split
  split-Keeps valid busy k source is_split splits store =
      let first = require_source valid busy source store in
      let moves = move_splits splits store in
      let done : Edited A = if is_split then moves else refused failed store in
      guarded-Keeps k (or_error first (require_targets valid splits store)) store done
        (elim (Option-cases (require_targets valid splits store)) [
          | inr (x, e) ↦ inl (ground arith)
          | inl e ↦ elim (Bool-cases is_split) [
            | inr f ↦ rw f (inr (inr refl))
            | inl f ↦ rw f (
                inr (
                  move_splits-Keeps k splits store store
                    (require_targets-AreNew valid splits store e) (inr refl)))
          ]
        ])

  edit-Keeps :
      (valid busy : Text → Bool) (k : Text) (e : Edit A) (store : Store A)
      → moves k e ≡ false
      → Keeps k store (edit valid busy e store).store
  unfolding edit delete_episodes drop_excluded rename
  edit-Keeps valid busy k (deletes source w target) store h =
      guarded-write-Keeps valid k target (require_source valid busy source store) w store
  edit-Keeps valid busy k (drops [] source w target) store h = inr refl
  edit-Keeps valid busy k (drops (x ∷ xs) source w target) store h =
      guarded-write-Keeps valid k target (require_source valid busy source store) w store
  edit-Keeps valid busy k (merges info sources w target) store h =
      merge-Keeps valid busy info sources w k target store
  edit-Keeps valid busy k (splits_in source is_split splits) store h =
      split-Keeps valid busy k source is_split splits store
  edit-Keeps valid busy k (modifies frames added removes source w target) store h =
      modify_features-Keeps valid busy frames added removes k source w target store
  edit-Keeps valid busy k (imports target w) store h = import_from_hub-Keeps valid w k target store
  edit-Keeps valid busy k (renames source target) store h =
      let first = require_source valid busy source store in
      guarded-Keeps k (or_error first (require_new valid target store)) store
        (edited (moved source target store))
        (elim (new_guard valid target first store) [
          | inl e ↦ inl e
          | inr new ↦ inr (moved-Keeps k source target store new h)
        ])

  abbrev pub any_moves : Text → List (Edit A) → Bool
  any_moves k [] = false
  any_moves k (e ∷ es) = moves k e || any_moves k es

  -- Whatever edits are tried, whichever the library carries out or fails in, a dataset that is there
  -- and that none of them renames is the same after them.
  pub edit_all-at :
      (valid busy : Text → Bool) (k : Text) (es : List (Edit A)) (d : Directory A) (store : Store A)
      → at k store ≡ some d
      → any_moves k es ≡ false
      → at k (edit_all valid busy es store) ≡ some d
  edit_all-at valid busy k [] d store h m = h
  edit_all-at valid busy k (e ∷ es) d store h m =
      let store' = (edit valid busy e store).store in
      let kept : at k store' ≡ some d = elim (edit-Keeps valid busy k e store (ground arith)) [
        | inl gone ↦ ground arith
        | inr same ↦ same ∙ h
      ] in
      edit_all-at valid busy k es d store' kept (ground arith)

  -- A download that fails and leaves a part of a new dataset makes every later import of it fail.
  pub import_from_hub-again :
      (valid : Text → Bool) (k : Text) (part : Directory A) (w : Writing A) (store : Store A)
      → valid k ≡ true
      → at k store ≡ none
      → let failing = import_from_hub valid k (raised (some part)) store in
        (failing.error ≡ some failed)
        × ((import_from_hub valid k w failing.store).error ≡ some already_exists)
  unfolding import_from_hub require_new
  import_from_hub-again valid k part w store v new = ground (arith, same_text_refl k)
