-- ===== src/Safety/Limits/Laws.antt =====
-- safety.py: what `clamp_action` sends on.
use Prim.Native.String.{String}
use text.Mathlib.Text.{◌==◌ as str_eq}
use lerobot_nexarm.Prelude.{
  ◌≤◌, ◌≡◌, ◌≢◌, refl, ap₂, subst, false, List, [], ◌∷◌, Option, none, some, arith, All, inl, inr,
  Option-cases,
}
use lerobot_nexarm.Prelude.Int.{ℤ, pos, ◌≤ℤ◌, clamp_bounds, clamp_id}
use lerobot_nexarm.Safety.Limits.{
  Action, lookup, Limit, soft_limits, clamp_entry, clamp_joints, clamp_action,
}

-- One entry for each joint, in their order: within its limit, and as it was asked where that is
-- within the limit.
abbrev pub IsClamped : List Limit → Action → Action → Type 0
IsClamped [] action [] = Unit
IsClamped (l ∷ ls) action ((key, v) ∷ out) =
    (asked : ℤ) × (key ≡ l.key)
    × (lookup l.key action ≡ some asked)
    × (pos l.low ≤ℤ v)
    × (v ≤ℤ pos l.high)
    × (pos l.low ≤ℤ asked → asked ≤ℤ pos l.high → v ≡ asked)
    × IsClamped ls action out
IsClamped _ _ _ = ⊥

abbrev pub Ordered : Limit → Type 0
Ordered l = l.low ≤ l.high

abbrev IsClampedIf : List Limit → Action → Option Action → Type 0
IsClampedIf ls action none = Unit
IsClampedIf ls action (some out) = IsClamped ls action out

clamp_joints-IsClamped :
    (ls : List Limit) (action : Action)
    → All Ordered ls
    → IsClampedIf ls action (clamp_joints ls action)
unfolding clamp_joints
clamp_joints-IsClamped [] action o = tt
clamp_joints-IsClamped (l ∷ ls) action o =
    split (lookup l.key action) refl (clamp_joints ls action) (clamp_joints-IsClamped ls action o.1)
  where
    split :
        (value : Option ℤ)
        → lookup l.key action ≡ value
        → (rest : Option Action) → IsClampedIf ls action rest
        → IsClampedIf (l ∷ ls) action (clamp_entry l value rest)
    split none found rest h = tt
    split (some v) found none h = tt
    split (some v) found (some out) h =
        let bounds = clamp_bounds (pos l.low) (pos l.high) v (omega arith) in
        (v, refl, found, bounds.0, bounds.1, clamp_id (pos l.low) (pos l.high) v, h)

-- An action that is let through has one entry for each joint, in their order, within the soft
-- limit of the joint, and unchanged where it was within it.
pub clamp_action-IsClamped :
    (action out : Action) → clamp_action action ≡ some out → IsClamped soft_limits action out
unfolding clamp_action
clamp_action-IsClamped action out e =
    subst (IsClampedIf soft_limits action) e
      (clamp_joints-IsClamped soft_limits action (omega arith))

clamp_joints-total :
    (ls : List Limit) (action : Action)
    → All (λ l. lookup l.key action ≢ none) ls
    → clamp_joints ls action ≢ none
unfolding clamp_joints
clamp_joints-total [] action h = λ e. cc
clamp_joints-total (l ∷ ls) action h = ground (arith, h.0, clamp_joints-total ls action h.1)

-- An action with a value for each joint is let through.
pub clamp_action-total :
    (action : Action)
    → All (λ l. lookup l.key action ≢ none) soft_limits
    → (out : Action) × (clamp_action action ≡ some out)
unfolding clamp_action
clamp_action-total action h = elim (Option-cases (clamp_joints soft_limits action)) [
  | inl e ↦ absurd (clamp_joints-total soft_limits action h e)
  | inr found ↦ found
]

lookup-unknown_key :
    (key other : String) (v : ℤ) (action : Action)
    → str_eq key other ≡ false
    → lookup other ((key, v) ∷ action) ≡ lookup other action
unfolding lookup
lookup-unknown_key key other v action h = rw h

clamp_joints-unknown_key :
    (key : String) (v : ℤ) (ls : List Limit) (action : Action)
    → All (λ l. str_eq key l.key ≡ false) ls
    → clamp_joints ls ((key, v) ∷ action) ≡ clamp_joints ls action
unfolding clamp_joints
clamp_joints-unknown_key key v [] action h = refl
clamp_joints-unknown_key key v (l ∷ ls) action h =
    ap₂ (clamp_entry l) (lookup-unknown_key key l.key v action h.0)
      (clamp_joints-unknown_key key v ls action h.1)

-- A key that is no joint's is dropped without an error.
pub clamp_action-unknown_key :
    (key : String) (v : ℤ) (action : Action)
    → All (λ l. str_eq key l.key ≡ false) soft_limits
    → clamp_action ((key, v) ∷ action) ≡ clamp_action action
unfolding clamp_action
clamp_action-unknown_key key v action h = clamp_joints-unknown_key key v soft_limits action h
