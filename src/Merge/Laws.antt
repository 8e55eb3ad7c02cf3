-- ===== src/Merge/Laws.antt =====
-- collection_merge.py: merging again, and merging a session that has grown.
use lerobot_nexarm.Prelude.{
  drop-append_length, ℕ, zero, suc, ◌≤◌, ◌≡◌, refl, ap, ◌∙◌, inl, inr, Bool, true, false, List, [],
  ◌∷◌, subst, ◌++◌, append_assoc, append-nil, Option, some, length, length-append, drop,
  if◌then◌else◌, arith, All, Bool-cases,
}
use lerobot_nexarm.Merge.{
  Ledger, merged_of, set_merged, Dataset, Session, Hub, Disk, Existing, fails, starts_from,
  ledger_of, merged_dataset, merge_locked, last_disk, content,
}
use lerobot_nexarm.Merge.Crash.{
  start, may_merge, merge_content, merge_locked-merge_content, IsOldOrNew, merge_locked-IsOldOrNew,
}

merged_of-set_merged : (id n : ℕ) (l : Ledger) → merged_of id (set_merged id n l) ≡ n
merged_of-set_merged id n [] = ground arith
merged_of-set_merged id n ((k, m) ∷ l) = ground (arith, merged_of-set_merged id n l)

set_merged-set_merged :
    (id n m : ℕ) (l : Ledger) → set_merged id n (set_merged id m l) ≡ set_merged id n l
set_merged-set_merged id n m [] = ground arith
set_merged-set_merged id n m ((k, o) ∷ l) = ground (arith, set_merged-set_merged id n m l)

drop-append {ℓ} :
    {A : Type ℓ} (n : ℕ) (xs ys : List A) → n ≤ length xs → drop n (xs ++ ys) ≡ drop n xs ++ ys
drop-append zero xs ys h = refl
drop-append (suc n) [] ys h = absurd (omega arith)
drop-append (suc n) (x ∷ xs) ys h = drop-append n xs ys (omega arith)

module _ {A : Type 0} where
  may_merge-merged_dataset :
      (base : Option (Dataset A)) (s : Session A)
      → may_merge (some (merged_dataset base s)) s ≡ false
  unfolding merged_dataset
  may_merge-merged_dataset base s =
      ground (arith, merged_of-set_merged s.id (length s.items) (ledger_of base))

  merge_content_idem :
      (hub : Hub A) (s : Session A) (c : Option (Dataset A))
      → merge_content hub s (merge_content hub s c) ≡ merge_content hub s c
  merge_content_idem hub s c = again (start hub c) refl
    where
      again :
          (x : Existing A)
          → start hub c ≡ x
          → merge_content hub s (elim x as (λ _. Option (Dataset A)) [
            | fails ↦ c
            | starts_from base ↦ if may_merge base s then some (merged_dataset base s) else c
          ])
            ≡ (elim x as (λ _. Option (Dataset A)) [
              | fails ↦ c
              | starts_from base ↦ if may_merge base s then some (merged_dataset base s) else c
            ])
      again fails e = rw (merge_content, e)
      again (starts_from base) e = elim (Bool-cases (may_merge base s)) [
        | inl m ↦ rw m (rw (may_merge-merged_dataset base s))
        | inr m ↦ rw m (rw (merge_content, e) (rw m))
      ]

  -- A merge that stopped at any point is completed by merging again: the content is then that of
  -- the whole merge.
  merge_locked-repeat :
      (renames : Bool) (hub : Hub A) (s : Session A) (d : Disk A)
      → All
          (λ e.
            content (last_disk e (merge_locked true hub s e).disks)
            ≡ merge_content hub s (content d))
          (merge_locked renames hub s d).disks
  merge_locked-repeat renames hub s d =
      each (merge_locked renames hub s d).disks (merge_locked-IsOldOrNew renames hub s d)
    where
      each :
          (es : List (Disk A))
          → All (λ e. IsOldOrNew hub s (content d) (content e)) es
          → All
              (λ e.
                content (last_disk e (merge_locked true hub s e).disks)
                ≡ merge_content hub s (content d))
              es
      each [] h = tt
      each (e ∷ es) h = (
        merge_locked-merge_content hub s e ∙ (elim (h.0) [
          | inl old ↦ ap (merge_content hub s) old
          | inr new ↦ ap (merge_content hub s) new ∙ merge_content_idem hub s (content d)
        ]),
        each es h.1,
      )

  -- A session with more episodes than when it was last merged.
  abbrev pub extend : Session A → List A → Session A
  extend s more = record s { items = s.items ++ more }

  -- Merging a session as it grows gives what merging it once at its end gives: each episode comes
  -- into the root once and in order.
  pub merge_content-extend :
      (hub : Hub A) (s : Session A) (more : List A) (r : Dataset A)
      → may_merge (some r) s ≡ true
      → merge_content hub (extend s more) (merge_content hub s (some r))
        ≡ merge_content hub (extend s more) (some r)
  unfolding merged_dataset
  merge_content-extend hub s [] r m = rw (append-nil s.items) (merge_content_idem hub s (some r))
  merge_content-extend hub s (x ∷ more) r m =
      let ys = x ∷ more in
      let id = s.id in
      let n = length s.items in
      let seen = merged_of id r.sessions in
      ground (
        arith,
        length-append {0} s.items ys,
        merged_of-set_merged id n r.sessions,
        set_merged-set_merged id (length (s.items ++ ys)) n r.sessions,
        drop-append seen s.items ys,
        drop-append_length s.items ys,
        append_assoc r.episodes (drop seen s.items) ys,
      )

  -- What a merge of a session makes of a root.
  abbrev pub HasMerged : Session A → Dataset A → Option (Dataset A) → Type 0
  HasMerged s r c =
      (new : Dataset A) × (c ≡ some new)
      × (new.episodes ≡ r.episodes ++ drop (merged_of s.id r.sessions) s.items)
      × (merged_of s.id new.sessions ≡ length s.items)

  merge_content-HasMerged :
      (hub : Hub A) (s : Session A) (more : List A) (r : Dataset A)
      → may_merge (some r) s ≡ true
      → HasMerged (extend s more) r (merge_content hub (extend s more) (some r))
  unfolding merged_dataset
  merge_content-HasMerged hub s more r m =
      let s' = extend s more in
      let may : may_merge (some r) s' ≡ true = ground (arith, length-append {0} s.items more) in
      (
        merged_dataset (some r) s',
        rw may refl,
        refl,
        merged_of-set_merged s.id (length s'.items) r.sessions,
      )

  -- The merge of a session into a root that takes it may stop at any point, also at a failed rename,
  -- and the session may have grown before it is merged again. Then the root has its old episodes and
  -- behind them those of the session that it had not merged before, in order and none of them
  -- twice, and the ledger counts all episodes of the session.
  pub merge_locked-again :
      (renames : Bool) (hub : Hub A) (s : Session A) (more : List A) (d : Disk A) (r : Dataset A)
      → content d ≡ some r
      → may_merge (some r) s ≡ true
      → All
          (λ e.
            HasMerged
              (extend s more)
              r
              (content (last_disk e (merge_locked true hub (extend s more) e).disks)))
          (merge_locked renames hub s d).disks
  merge_locked-again renames hub s more d r c m =
      each (merge_locked renames hub s d).disks (merge_locked-IsOldOrNew renames hub s d)
    where
      s' : Session A
      s' = extend s more

      again :
          (x : Option (Dataset A))
          → IsOldOrNew hub s (some r) x
          → HasMerged s' r (merge_content hub s' x)
      again x h = elim h [
        | inl old ↦ rw old (merge_content-HasMerged hub s more r m)
        | inr new ↦
            rw new
              (rw (merge_content-extend hub s more r m) (merge_content-HasMerged hub s more r m))
      ]

      each :
          (es : List (Disk A))
          → All (λ e. IsOldOrNew hub s (content d) (content e)) es
          → All (λ e. HasMerged s' r (content (last_disk e (merge_locked true hub s' e).disks))) es
      each [] h = tt
      each (e ∷ es) h = (
        rw (merge_locked-merge_content hub s' e)
            (again (content e) (subst (λ x. IsOldOrNew hub s x (content e)) c h.0)),
        each es h.1,
      )
