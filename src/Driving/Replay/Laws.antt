-- ===== src/Driving/Replay/Laws.antt =====
-- replay.py: a prepared episode is played.
use Prim.Native.String.{String}
use text.Mathlib.Text.{◌==◌ as str_eq}
use text.Mathlib.TextEquality.{eq_iff}
use lerobot_nexarm.Prelude.{
  ℕ, suc, ◌≡◌, ◌≢◌, inl, inr, refl, sym, ap, ◌∙◌, subst, true, List, [], ◌∷◌, ◌++◌, Option, none,
  some, if◌then◌else◌, arith, All, length, ◌+◌, ◌↔◌, Bool-cases,
}
use lerobot_nexarm.Prelude.Int.{ℤ}
use lerobot_nexarm.Safety.Limits.{Action, Limit, lookup, soft_limits, clamp_action}
use lerobot_nexarm.Safety.Limits.Laws.{IsClamped, clamp_action-IsClamped, clamp_action-total}
use lerobot_nexarm.Driving.{Round, Ending, played, stopped, device_failed, key_error, Driven, ended}
use lerobot_nexarm.Driving.Replay.{
  Index, index_names, has_key, joint_keys, missing_keys, cell, action_entry, action_of,
  action_before, actions_of, Prepared, prepared, prepare_from, prepare, play_round, play, pose_of,
  ready,
}

-- A key of the index is a key of each row's action.
action_of-has_key :
    (key : String) (index : Index) (row : List ℤ) (action : Action)
    → has_key key index ≡ true
    → action_of index row ≡ some action
    → lookup key action ≢ none
unfolding has_key action_of lookup
action_of-has_key key [] row action h e = λ n. cc
action_of-has_key key ((k, i) ∷ index) row action h e =
    entry (cell i row) (action_of index row) (action_of-has_key key index row) h e
  where
    entry :
        (value : Option ℤ) (rest : Option Action)
        → ((a : Action) → has_key key index ≡ true → rest ≡ some a → lookup key a ≢ none)
        → (if str_eq k key then true else has_key key index) ≡ true
        → action_entry k value rest ≡ some action
        → lookup key action ≢ none
    entry none rest r h e = λ n. cc
    entry (some v) none r h e = λ n. cc
    entry (some v) (some a) r h e = ground (arith, r a)

missing_keys-has_key :
    (ls : List Limit) (index : Index)
    → missing_keys (joint_keys ls) index ≡ []
    → All (λ l. has_key l.key index ≡ true) ls
unfolding missing_keys
missing_keys-has_key [] index h = tt
missing_keys-has_key (l ∷ ls) index h = ground (arith, missing_keys-has_key ls index)

action_of-lookup :
    (ls : List Limit) (index : Index) (row : List ℤ) (action : Action)
    → All (λ l. has_key l.key index ≡ true) ls
    → action_of index row ≡ some action
    → All (λ l. lookup l.key action ≢ none) ls
action_of-lookup [] index row action h e = tt
action_of-lookup (l ∷ ls) index row action h e =
    (action_of-has_key l.key index row action h.0 e, action_of-lookup ls index row action h.1 e)

-- The actions and what `clamp_action` makes of them, one by one.
abbrev pub Clamps : List Action → List Action → Type 0
Clamps [] [] = Unit
Clamps (action ∷ actions) (out ∷ outs) =
    (clamp_action action ≡ some out) × IsClamped soft_limits action out × Clamps actions outs
Clamps _ _ = ⊥

abbrev HasClamps : Option (List Action) → Type 0
HasClamps none = Unit
HasClamps (some actions) = (outs : List Action) × Clamps actions outs

actions_of-HasClamps :
    (index : Index) (rows : List (List ℤ))
    → All (λ l. has_key l.key index ≡ true) soft_limits
    → HasClamps (actions_of index rows)
unfolding actions_of
actions_of-HasClamps index [] h = ([], tt)
actions_of-HasClamps index (row ∷ rows) h =
    entry (action_of index row) (actions_of index rows) refl (actions_of-HasClamps index rows h)
  where
    entry :
        (action : Option Action) (rest : Option (List Action))
        → action_of index row ≡ action
        → HasClamps rest
        → HasClamps (action_before action rest)
    entry none rest e r = tt
    entry (some a) none e r = tt
    entry (some a) (some actions) e (outs, r) =
        let found = clamp_action-total a (action_of-lookup soft_limits index row a h e) in
        (found.0 ∷ outs, (found.1, clamp_action-IsClamped a found.0 found.1, r))

-- What a prepared episode's actions are clamped to.
prepare-Clamps :
    (names : List String) (rows : List (List ℤ)) (actions : List Action)
    → prepare names rows ≡ prepared actions
    → (outs : List Action) × Clamps actions outs
unfolding prepare
prepare-Clamps names rows actions e =
    from (index_names 0 names []) (missing_keys (joint_keys soft_limits) (index_names 0 names []))
      refl (actions_of (index_names 0 names []) rows) refl e
  where
    from :
        (index : Index) (missing : List String)
        → missing_keys (joint_keys soft_limits) index ≡ missing
        → (found : Option (List Action)) → actions_of index rows ≡ found
        → prepare_from missing found ≡ prepared actions
        → (outs : List Action) × Clamps actions outs
    from index (key ∷ missing) hm found hf h = absurd (ground arith)
    from index [] hm none hf h = absurd (ground arith)
    from index [] hm (some []) hf h = absurd (ground arith)
    from index [] hm (some (a ∷ more)) hf h =
        subst (λ (x : List Action). (outs : List Action) × Clamps x outs) (ap actions_in h)
          (subst HasClamps hf
            (actions_of-HasClamps index rows (missing_keys-has_key soft_limits index hm)))
      where
        actions_in : Prepared → List Action
        actions_in (prepared x) = x
        actions_in _ = []

-- What is sent is the outs from the first, all of them exactly where the loop has played.
abbrev pub SendsFrom : ℕ → List Action → Driven → Type 0
SendsFrom ticks outs d =
    (unsent : List Action) × (d.sent ++ unsent ≡ outs)
    × (d.ending ≢ key_error)
    × (d.ticks ≡ ticks + length d.sent)
    × ((d.ending ≡ played) ↔ (unsent ≡ []))

play_round-SendsFrom :
    (r : Round) (ticks : ℕ) (o : Action) (outs : List Action) (rest : Driven)
    → SendsFrom (suc ticks) outs rest
    → SendsFrom ticks (o ∷ outs) (play_round r (some o) ticks rest)
play_round-SendsFrom r ticks o outs rest h = elim (Bool-cases r.is_stopped) [
  | inl s ↦ rw s (stop stopped (ground arith) (ground arith))
  | inr s ↦ rw s (elim (Bool-cases r.observe_fails) [
    | inl b ↦ rw b (stop device_failed (ground arith) (ground arith))
    | inr b ↦ rw b (elim (Bool-cases r.send_fails) [
      | inl f ↦ rw f (stop device_failed (ground arith) (ground arith))
      | inr f ↦ rw f (h.0, ap (◌∷◌ o) h.1, h.2, omega (arith, h.3), h.4)
    ])
  ])
]
  where
    stop : (e : Ending) → e ≢ key_error → e ≢ played → SendsFrom ticks (o ∷ outs) (ended e ticks)
    stop e k p = (o ∷ outs, refl, k, omega arith, (λ x. absurd (p x), λ x. ground arith))

play-SendsFrom :
    (rounds : ℕ → Round) (ticks : ℕ) (actions outs : List Action)
    → Clamps actions outs
    → SendsFrom ticks outs (play rounds ticks actions)
unfolding play
play-SendsFrom rounds ticks [] [] h = ([], refl, ground arith, omega arith, (λ x. refl, λ x. refl))
play-SendsFrom rounds ticks [] (o ∷ outs) h = absurd h
play-SendsFrom rounds ticks (a ∷ actions) [] h = absurd h
play-SendsFrom rounds ticks (a ∷ actions) (o ∷ outs) (e, c, h) =
    subst
      (λ (x : Option Action).
        SendsFrom ticks (o ∷ outs)
          (play_round (rounds ticks) x ticks (play rounds (suc ticks) actions)))
      (sym e)
      (play_round-SendsFrom (rounds ticks) ticks o outs (play rounds (suc ticks) actions)
        (play-SendsFrom rounds (suc ticks) actions outs h))

IsClamped-lookup :
    (ls : List Limit) (action out : Action)
    → IsClamped ls action out
    → All (λ l. lookup l.key out ≢ none) ls
unfolding lookup
IsClamped-lookup [] action out h = tt
IsClamped-lookup (l ∷ ls) action [] h = absurd h
IsClamped-lookup (l ∷ ls) action ((k, v) ∷ out) (asked, e, f, lo, hi, same, h) =
    (ground (arith, (eq_iff k l.key).1 e), later ls (IsClamped-lookup ls action out h))
  where
    later :
        (ms : List Limit)
        → All (λ (m : Limit). lookup m.key out ≢ none) ms
        → All (λ (m : Limit). lookup m.key ((k, v) ∷ out) ≢ none) ms
    later [] r = tt
    later (m ∷ ms) r = (ground (arith, r.0), later ms r.1)

pose_of-total :
    (ls : List Limit) (action : Action)
    → All (λ l. lookup l.key action ≢ none) ls
    → pose_of (joint_keys ls) action ≢ none
unfolding pose_of
pose_of-total [] action h = ground arith
pose_of-total (l ∷ ls) action h = ground (arith, h.0, pose_of-total ls action h.1)

prepare_from-has_frames :
    (missing : List String) (found : Option (List Action))
    → prepare_from missing found ≢ prepared []
prepare_from-has_frames (key ∷ missing) found = ground arith
prepare_from-has_frames [] none = ground arith
prepare_from-has_frames [] (some []) = ground arith
prepare_from-has_frames [] (some (a ∷ actions)) = ground arith

prepare-has_frames : (names : List String) (rows : List (List ℤ)) → prepare names rows ≢ prepared []
unfolding prepare
prepare-has_frames names rows =
    let index = index_names 0 names [] in
    prepare_from-has_frames (missing_keys (joint_keys soft_limits) index) (actions_of index rows)

-- An episode that is prepared goes to a pose, and is played without a KeyError, whatever the
-- follower does: what is sent is the clamped actions from the first frame on, one for each tick, all
-- of them exactly if the loop comes to its end.
pub play-prepare :
    (names : List String) (rows : List (List ℤ)) (actions : List Action) (rounds : ℕ → Round)
    → prepare names rows ≡ prepared actions
    → (ready actions ≢ none)
      × ((outs : List Action) × Clamps actions outs × SendsFrom 0 outs (play rounds 0 actions))
unfolding ready
play-prepare names rows actions rounds e =
    let clamped = prepare-Clamps names rows actions e in
    (
      goes actions (has_frames actions e) clamped.0 clamped.1,
      (clamped.0, clamped.1, play-SendsFrom rounds 0 actions clamped.0 clamped.1),
    )
  where
    has_frames : (xs : List Action) → prepare names rows ≡ prepared xs → xs ≢ []
    has_frames xs h n = prepare-has_frames names rows (h ∙ ap prepared n)

    goes : (xs : List Action) → xs ≢ [] → (ys : List Action) → Clamps xs ys → ready xs ≢ none
    goes [] n ys c = absurd (n refl)
    goes (x ∷ xs) n [] c = absurd c
    goes (x ∷ xs) n (y ∷ ys) (h, i, c) =
        rw h (pose_of-total soft_limits y (IsClamped-lookup soft_limits x y i))
