-- ===== src/Access/Profiles/Laws.antt =====
-- profiles.py: the store is a function from names to profiles, whatever its file's order.
use lerobot_nexarm.Prelude.{
  ℕ, ◌≡◌, inl, inr, refl, List, [], ◌∷◌, Option, none, some, ◌==◌, if◌then◌else◌, arith,
  Option-cases,
}
use lerobot_nexarm.Access.Profiles.{
  Profile, Profiles, load, find, assign, remove, get, put, delete, Call, puts, deletes, call,
  call_all,
}

module _ {A : Type 0} where
  -- The specification: a function, with neither a file nor an order.
  abbrev pub replay : List (Call A) → (ℕ → Option (Profile A)) → ℕ → Option (Profile A)
  replay [] f n = f n
  replay (puts p ∷ cs) f n = replay cs (λ m. if p.name == m then some p else f m) n
  replay (deletes k ∷ cs) f n = replay cs (λ m. if k == m then none else f m) n

  -- What each file that the store writes has: no name twice, and each profile under its name.
  abbrev pub IsFile : Profiles A → Type 0
  IsFile [] = Unit
  IsFile ((k, p) ∷ ps) = (find k ps ≡ none) × (p.name ≡ k) × IsFile ps

  find-assign :
      (m n : ℕ) (p : Profile A) (ps : Profiles A)
      → find m (assign n p ps) ≡ (if n == m then some p else find m ps)
  unfolding find assign
  find-assign m n p [] = ground arith
  find-assign m n p ((k, q) ∷ ps) = ground (arith, find-assign m n p ps)

  find-remove :
      (m n : ℕ) (ps : Profiles A)
      → IsFile ps
      → find m (remove n ps) ≡ (if n == m then none else find m ps)
  unfolding find remove
  find-remove m n [] h = ground arith
  find-remove m n ((k, q) ∷ ps) h = ground (arith, find-remove m n ps)

  assign-IsFile : (p : Profile A) (ps : Profiles A) → IsFile ps → IsFile (assign p.name p ps)
  unfolding find assign
  assign-IsFile p [] h = ground arith
  assign-IsFile p ((k, q) ∷ ps) h = ground (arith, assign-IsFile p ps, find-assign k p.name p ps)

  remove-IsFile : (n : ℕ) (ps : Profiles A) → IsFile ps → IsFile (remove n ps)
  unfolding find remove
  remove-IsFile n [] h = h
  remove-IsFile n ((k, q) ∷ ps) h = ground (arith, remove-IsFile n ps, find-remove k n ps)

  find-delete :
      (m n : ℕ) (file : Option (Profiles A))
      → IsFile (load file)
      → find m (load (delete n file).1) ≡ (if n == m then none else find m (load file))
  unfolding delete
  find-delete m n file h = elim (Option-cases (find n (load file))) [
    | inl e ↦ ground (arith, find-remove m n (load file))
    | inr (p, e) ↦ ground (arith, find-remove m n (load file))
  ]

  delete-IsFile :
      (n : ℕ) (file : Option (Profiles A)) → IsFile (load file) → IsFile (load (delete n file).1)
  unfolding delete
  delete-IsFile n file h = elim (Option-cases (find n (load file))) [
    | inl e ↦ ground arith
    | inr (p, e) ↦ ground (arith, remove-IsFile n (load file))
  ]

  pub call_all-IsFile :
      (cs : List (Call A)) (file : Option (Profiles A))
      → IsFile (load file)
      → IsFile (load (call_all cs file))
  unfolding put call
  call_all-IsFile [] file h = h
  call_all-IsFile (puts p ∷ cs) file h =
      call_all-IsFile cs (put p file) (assign-IsFile p (load file) h)
  call_all-IsFile (deletes n ∷ cs) file h =
      call_all-IsFile cs (delete n file).1 (delete-IsFile n file h)

  -- The profiles that are found after any writing calls are those of a function from names to
  -- profiles that is updated at the name of each call. The file before them is none or one that
  -- the store may have written.
  pub call_all-replay :
      (cs : List (Call A)) (file : Option (Profiles A)) (f : ℕ → Option (Profile A)) (n : ℕ)
      → IsFile (load file)
      → ((m : ℕ) → get m file ≡ f m)
      → get n (call_all cs file) ≡ replay cs f n
  unfolding get put call
  call_all-replay [] file f n h e = e n
  call_all-replay (puts p ∷ cs) file f n h e =
      call_all-replay cs (put p file) (λ m. if p.name == m then some p else f m) n
        (assign-IsFile p (load file) h)
        (λ m. rw (find-assign m p.name p (load file)) (rw (← e m) refl))
  call_all-replay (deletes k ∷ cs) file f n h e =
      call_all-replay cs (delete k file).1 (λ m. if k == m then none else f m) n
        (delete-IsFile k file h) (λ m. rw (find-delete m k file h) (rw (← e m) refl))
