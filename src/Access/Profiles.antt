-- ===== src/Access/Profiles.antt =====
-- packages/nexarm_service/src/nexarm_service/profiles.py: the profiles in one file. Names are
-- numbers in the order of the texts; what the file holds is read back as it was written.
pub mod Laws
pub mod Order
use lerobot_nexarm.Prelude.{
  ℕ, Bool, true, false, List, [], ◌∷◌, Option, none, some, ltb, ◌==◌, if◌then◌else◌,
}

pub record Profile (A : Type 0) : Type 0 where
  pub name : ℕ
  pub body : A

-- The dictionary of the file, in its order.
abbrev pub Profiles : Type 0 → Type 0
Profiles A = List (ℕ × Profile A)

-- The calls that write.
pub data Call (A : Type 0) : Type 0 where
  puts : Profile A → Call A
  deletes : ℕ → Call A

module _ {A : Type 0} where
  -- None where there is no file.
  abbrev pub load : Option (Profiles A) → Profiles A
  load none = []
  load (some profiles) = profiles

  pub find : ℕ → Profiles A → Option (Profile A)
  find n [] = none
  find n ((k, p) ∷ ps) = if k == n then some p else find n ps

  pub assign : ℕ → Profile A → Profiles A → Profiles A
  assign n p [] = (n, p) ∷ []
  assign n p ((k, q) ∷ ps) = if k == n then (k, p) ∷ ps else (k, q) ∷ assign n p ps

  pub remove : ℕ → Profiles A → Profiles A
  remove n [] = []
  remove n ((k, q) ∷ ps) = if k == n then ps else (k, q) ∷ remove n ps

  unfoldable pub get : ℕ → Option (Profiles A) → Option (Profile A)
  unfolding find
  get n file = find n (load file)

  pub put : Profile A → Option (Profiles A) → Option (Profiles A)
  unfolding assign
  put p file = some (assign p.name p (load file))

  -- The answer, and the file after it.
  pub delete : ℕ → Option (Profiles A) → Bool × Option (Profiles A)
  unfolding find remove
  delete n file = elim (find n (load file)) [
    | none ↦ (false, file)
    | some p ↦ (true, some (remove n (load file)))
  ]

  pub insert_sorted : Profile A → List (Profile A) → List (Profile A)
  insert_sorted p [] = p ∷ []
  insert_sorted p (q ∷ qs) = if ltb q.name p.name then q ∷ insert_sorted p qs else p ∷ q ∷ qs

  abbrev pub sorted : Profiles A → List (Profile A)
  unfolding insert_sorted
  sorted [] = []
  sorted ((k, p) ∷ ps) = insert_sorted p (sorted ps)

  -- `ProfileStore.list`.
  pub list : Option (Profiles A) → List (Profile A)
  unfolding insert_sorted
  list file = sorted (load file)

  abbrev pub call : Call A → Option (Profiles A) → Option (Profiles A)
  unfolding put delete
  call (puts p) file = put p file
  call (deletes n) file = (delete n file).1

  abbrev pub call_all : List (Call A) → Option (Profiles A) → Option (Profiles A)
  call_all [] file = file
  call_all (c ∷ cs) file = call_all cs (call c file)
