-- ===== src/Curation/Laws.antt =====
-- dataset_store.py: the list that `set_excluded` writes.
use lerobot_nexarm.Prelude.{
  ℕ, ◌<◌, ◌≡◌, refl, subst, ◌∙◌, Bool, true, false, List, [], ◌∷◌, some, ◌==◌, if◌then◌else◌, arith,
  All, Option-cases, inl, inr,
}
use lerobot_nexarm.Prelude.Int.{ℤ, pos, negsuc}
use lerobot_nexarm.Curation.{insert, sorted_set, all_within, set_excluded, is_excluded}

abbrev pub IsAbove : ℕ → List ℕ → Type 0
IsAbove x [] = Unit
IsAbove x (y ∷ ys) = x < y

-- Each index is larger than the one before it.
abbrev pub IsIncreasing : List ℕ → Type 0
IsIncreasing [] = Unit
IsIncreasing (x ∷ xs) = IsAbove x xs × IsIncreasing xs

insert-IsAbove : (x e : ℕ) (xs : List ℕ) → x < e → IsAbove x xs → IsAbove x (insert e xs)
unfolding insert
insert-IsAbove x e [] h a = h
insert-IsAbove x e (y ∷ ys) h a = ground arith

insert-IsIncreasing : (e : ℕ) (xs : List ℕ) → IsIncreasing xs → IsIncreasing (insert e xs)
unfolding insert
insert-IsIncreasing e [] i = (tt, tt)
insert-IsIncreasing e (x ∷ xs) i =
    ground (arith, insert-IsIncreasing e xs i.1, λ (h : x < e). insert-IsAbove x e xs h i.0)

insert-is_excluded :
    (d e : ℕ) (xs : List ℕ)
    → is_excluded d (insert e xs) ≡ (if d == e then true else is_excluded d xs)
unfolding insert
insert-is_excluded d e [] = ground arith
insert-is_excluded d e (x ∷ xs) = ground (arith, insert-is_excluded d e xs)

insert-below :
    (total e : ℕ) (xs : List ℕ)
    → e < total
    → All (λ x. x < total) xs
    → All (λ x. x < total) (insert e xs)
unfolding insert
insert-below total e [] h a = (h, tt)
insert-below total e (x ∷ xs) h a = ground (arith, insert-below total e xs h a.1)

sorted_set-IsIncreasing : (es : List ℕ) → IsIncreasing (sorted_set es)
unfolding sorted_set
sorted_set-IsIncreasing [] = tt
sorted_set-IsIncreasing (e ∷ es) =
    insert-IsIncreasing e (sorted_set es) (sorted_set-IsIncreasing es)

sorted_set-is_excluded : (d : ℕ) (es : List ℕ) → is_excluded d (sorted_set es) ≡ is_excluded d es
unfolding sorted_set
sorted_set-is_excluded d [] = refl
sorted_set-is_excluded d (e ∷ es) =
    ground (arith, insert-is_excluded d e (sorted_set es), sorted_set-is_excluded d es)

sorted_set-below :
    (total : ℕ) (es : List ℕ) → All (λ e. e < total) es → All (λ e. e < total) (sorted_set es)
unfolding sorted_set
sorted_set-below total [] a = tt
sorted_set-below total (e ∷ es) a =
    insert-below total e (sorted_set es) a.0 (sorted_set-below total es a.1)

-- Whether an index is among those asked for.
abbrev pub is_asked : ℕ → List ℤ → Bool
is_asked d [] = false
is_asked d (pos e ∷ es) = if d == e then true else is_asked d es
is_asked d (negsuc e ∷ es) = is_asked d es

all_within-below :
    (total : ℕ) (es : List ℤ) (ns : List ℕ)
    → all_within total es ≡ some ns
    → All (λ n. n < total) ns × ((d : ℕ) → is_excluded d ns ≡ is_asked d es)
all_within-below total [] ns e =
    let same : [] ≡ ns = ground arith in
    subst (λ l. All (λ n. n < total) l × ((d : ℕ) → is_excluded d l ≡ false)) same (tt, λ d. refl)
all_within-below total (pos n ∷ es) ns e = elim (Option-cases (all_within total es)) [
  | inl f ↦ absurd (ground arith)
  | inr (ms, f) ↦
      let rest = all_within-below total es ms f in
      let small : n < total = ground arith in
      let same : n ∷ ms ≡ ns = ground arith in
      subst
        (λ l.
          All (λ m. m < total) l
          × ((d : ℕ) → is_excluded d l ≡ (if d == n then true else is_asked d es)))
        same ((small, rest.0), λ d. let g = rest.1 d in ground arith)
]
all_within-below total (negsuc n ∷ es) ns e = absurd (ground arith)

-- A list that is accepted is written without repetition and in increasing order, each index is
-- below the number of episodes, and an episode is in it exactly when it was asked for.
pub set_excluded-IsIncreasing :
    (total : ℕ) (episodes : List ℤ) (out : List ℕ)
    → set_excluded total episodes ≡ some out
    → IsIncreasing out
      × (All (λ e. e < total) out × ((d : ℕ) → is_excluded d out ≡ is_asked d episodes))
unfolding set_excluded
set_excluded-IsIncreasing total episodes out e = elim (Option-cases (all_within total episodes)) [
  | inl f ↦ absurd (ground arith)
  | inr (ns, f) ↦
      let rest = all_within-below total episodes ns f in
      let same : sorted_set ns ≡ out = ground arith in
      subst
        (λ l.
          IsIncreasing l
          × (All (λ x. x < total) l × ((d : ℕ) → is_excluded d l ≡ is_asked d episodes)))
        same
        (
          sorted_set-IsIncreasing ns,
          (sorted_set-below total ns rest.0, λ d. sorted_set-is_excluded d ns ∙ rest.1 d),
        )
]
