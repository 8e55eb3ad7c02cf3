-- ===== src/Access/Profiles/Order.antt =====
-- profiles.py: the order in which the profiles are listed.
use lerobot_nexarm.Prelude.{
  ℕ, ◌≡◌, ◌<◌, refl, ◌∙◌, List, [], ◌∷◌, Option, none, some, ◌==◌, if◌then◌else◌, arith, All,
}
use lerobot_nexarm.Access.Profiles.{
  Profile, Profiles, load, find, get, insert_sorted, sorted, list, Call, call_all,
}
use lerobot_nexarm.Access.Profiles.Laws.{replay, IsFile, call_all-IsFile, call_all-replay}

module _ {A : Type 0} where
  pub named : ℕ → List (Profile A) → Option (Profile A)
  named n [] = none
  named n (p ∷ ps) = if p.name == n then some p else named n ps

  abbrev pub IsIncreasing : List (Profile A) → Type 0
  IsIncreasing [] = Unit
  IsIncreasing (p ∷ ps) = All (λ q. p.name < q.name) ps × IsIncreasing ps

  insert_sorted-All :
      (m : ℕ) (p : Profile A) (qs : List (Profile A))
      → m < p.name
      → All (λ q. m < q.name) qs
      → All (λ q. m < q.name) (insert_sorted p qs)
  unfolding insert_sorted
  insert_sorted-All m p [] h a = ground arith
  insert_sorted-All m p (q ∷ qs) h a = ground (arith, insert_sorted-All m p qs)

  All-lower :
      (m n : ℕ) (qs : List (Profile A))
      → m < n
      → All (λ q. n < q.name) qs
      → All (λ q. m < q.name) qs
  All-lower m n [] h a = tt
  All-lower m n (q ∷ qs) h a = ground (arith, All-lower m n qs)

  insert_sorted-IsIncreasing :
      (p : Profile A) (qs : List (Profile A))
      → named p.name qs ≡ none
      → IsIncreasing qs
      → IsIncreasing (insert_sorted p qs)
  unfolding insert_sorted named
  insert_sorted-IsIncreasing p [] h i = ground arith
  insert_sorted-IsIncreasing p (q ∷ qs) h i = ground (
    arith,
    insert_sorted-IsIncreasing p qs,
    insert_sorted-All q.name p qs,
    All-lower p.name q.name qs,
  )

  named-insert_sorted :
      (n : ℕ) (p : Profile A) (qs : List (Profile A))
      → named p.name qs ≡ none
      → named n (insert_sorted p qs) ≡ (if p.name == n then some p else named n qs)
  unfolding insert_sorted named
  named-insert_sorted n p [] h = ground arith
  named-insert_sorted n p (q ∷ qs) h = ground (arith, named-insert_sorted n p qs)

  named-sorted : (n : ℕ) (ps : Profiles A) → IsFile ps → named n (sorted ps) ≡ find n ps
  unfolding find named sorted
  named-sorted n [] h = refl
  named-sorted n ((k, p) ∷ ps) h =
      ground (arith, named-sorted k ps, named-sorted n ps, named-insert_sorted n p (sorted ps))

  sorted-IsIncreasing : (ps : Profiles A) → IsFile ps → IsIncreasing (sorted ps)
  unfolding sorted
  sorted-IsIncreasing [] h = tt
  sorted-IsIncreasing ((k, p) ∷ ps) h =
      ground
        (arith, named-sorted k ps, sorted-IsIncreasing ps, insert_sorted-IsIncreasing p (sorted ps))

  -- After any writing calls on an empty store, the list is strictly in the order of the names and
  -- has under each name exactly what the specification has there.
  pub list-replay :
      (cs : List (Call A)) (n : ℕ)
      → IsIncreasing (list (call_all cs none))
        × (named n (list (call_all cs none)) ≡ replay cs (λ m. none) n)
  unfolding list get
  list-replay cs n =
      let file = call_all-IsFile cs none tt in
      (
        sorted-IsIncreasing (load (call_all cs none)) file,
        named-sorted n (load (call_all cs none)) file
            ∙ call_all-replay cs none (λ m. none) n tt (λ m. refl),
      )
