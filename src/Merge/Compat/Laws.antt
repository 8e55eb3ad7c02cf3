-- ===== src/Merge/Compat/Laws.antt =====
-- collection_merge.py: what a session that may be merged shares with the root.
use lerobot_nexarm.Prelude.{
  ℕ, ◌≡◌, refl, sym, ◌∙◌, inl, inr, true, List, [], ◌∷◌, ◌++◌, none, some, ◌==◌, if◌then◌else◌,
  arith, Option-cases,
}
use lerobot_nexarm.Merge.Compat.{
  Feature, Features, Contract, Problem, fps_differs, robot_type_differs, lookup, same_list,
  same_feature, only_in, feature_problems, key_problems, merge_incompatibilities,
}

same_list_lem : (xs ys : List ℕ) → same_list xs ys ≡ true → xs ≡ ys
same_list_lem [] [] h = refl
same_list_lem [] (y ∷ ys) h = ground arith
same_list_lem (x ∷ xs) [] h = ground arith
same_list_lem (x ∷ xs) (y ∷ ys) h = ground (arith, same_list_lem xs ys)

same_feature_lem : (f g : Feature) → same_feature f g ≡ true → f ≡ g
unfolding same_feature
same_feature_lem f g h =
    ground (arith, same_list_lem f.shape g.shape, same_list_lem f.names g.names)

lookup-some :
    (k : ℕ) (f : Feature) (fs gs : Features)
    → only_in fs gs ≡ []
    → feature_problems fs gs ≡ []
    → lookup k fs ≡ some f
    → lookup k gs ≡ some f
unfolding only_in feature_problems
lookup-some k f [] gs o p h = ground arith
lookup-some k f ((j, g) ∷ fs) gs o p h = elim (Option-cases (lookup j gs)) [
  | inl none_ ↦ ground arith
  | inr (g', e) ↦ ground (arith, lookup-some k f fs gs, same_feature_lem g g')
]

lookup-none :
    (k : ℕ) (fs gs : Features) → only_in gs fs ≡ [] → lookup k fs ≡ none → lookup k gs ≡ none
unfolding only_in
lookup-none k fs [] o h = refl
lookup-none k fs ((j, g) ∷ gs) o h = elim (Option-cases (lookup j fs)) [
  | inl e ↦ ground arith
  | inr (g', e) ↦ ground (arith, lookup-none k fs gs)
]

append_nil-both {ℓ} : {A : Type ℓ} (xs ys : List A) → xs ++ ys ≡ [] → (xs ≡ []) × (ys ≡ [])
append_nil-both [] ys h = (refl, h)
append_nil-both (x ∷ xs) ys h = ground arith

feature-lookup :
    (k : ℕ) (fs gs : Features)
    → only_in fs gs ≡ []
    → only_in gs fs ≡ []
    → feature_problems fs gs ≡ []
    → lookup k fs ≡ lookup k gs
feature-lookup k fs gs o o' p = elim (Option-cases (lookup k fs)) [
  | inl e ↦ e ∙ sym (lookup-none k fs gs o' e)
  | inr (f, e) ↦ e ∙ sym (lookup-some k f fs gs o p e)
]

key_problems-nil : (xs ys : List ℕ) → key_problems xs ys ≡ [] → (xs ≡ []) × (ys ≡ [])
unfolding key_problems
key_problems-nil [] [] h = (refl, refl)
key_problems-nil [] (y ∷ ys) h = ground arith
key_problems-nil (x ∷ xs) ys h = ground arith

-- A session without incompatibilities has the root's rate and robot type, and every feature name
-- has the same feature in both or is missing in both.
pub merge_incompatibilities-lookup :
    (k : ℕ) (root session : Contract)
    → merge_incompatibilities root session ≡ []
    → (root.fps ≡ session.fps)
      × (root.robot_type ≡ session.robot_type)
      × (lookup k root.features ≡ lookup k session.features)
unfolding merge_incompatibilities
merge_incompatibilities-lookup k root session h =
    let fs = root.features in
    let gs = session.features in
    let rates : List Problem = if root.fps == session.fps then [] else fps_differs ∷ [] in
    let robots : List Problem =
      if root.robot_type == session.robot_type then [] else robot_type_differs ∷ [] in
    let keys = key_problems (only_in fs gs) (only_in gs fs) in
    let h1 = append_nil-both rates (robots ++ (keys ++ feature_problems fs gs)) h in
    let h2 = append_nil-both robots (keys ++ feature_problems fs gs) h1.1 in
    let h3 = append_nil-both keys (feature_problems fs gs) h2.1 in
    let same_keys = key_problems-nil (only_in fs gs) (only_in gs fs) h3.0 in
    (
      ground (arith, h1.0),
      ground (arith, h2.0),
      feature-lookup k fs gs same_keys.0 same_keys.1 h3.1,
    )
