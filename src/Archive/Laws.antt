-- ===== src/Archive/Laws.antt =====
-- archive.py: an extraction is whole and inside its directory, or leaves nothing.
use lerobot_nexarm.Prelude.{
  ℕ, ◌+◌, ◌≤◌, ◌≡◌, ◌≢◌, ◌⊎◌, All, inl, inr, refl, sym, ap, ◌∙◌, Bool, true, false, List, [], ◌∷◌,
  ◌++◌, append_assoc, append-nil, Option, none, some, ltb, if◌then◌else◌, arith, Bool-cases,
}
use lerobot_nexarm.Prelude.Texts.{Text, codes, same_text}
use lerobot_nexarm.Archive.{
  Member, Files, has_up, check_member, link, target, resolve, extract_members, Extracted, extract,
}

abbrev pub sizes : List Member → ℕ
sizes [] = 0
sizes (m ∷ ms) = m.size + sizes ms

-- Where the members stand below a directory, each by its own parts.
abbrev pub places : (Text → List Text) → List Text → List Member → Files
places parts staging [] = []
places parts staging (m ∷ ms) = (staging ++ parts m.name) ∷ places parts staging ms

resolve-append : (base ps : List Text) → has_up ps ≡ false → resolve base ps ≡ base ++ ps
unfolding resolve
resolve-append base [] h = sym (append-nil base)
resolve-append base (p ∷ ps) h = elim (Bool-cases (same_text p (codes ".."))) [
  | inl e ↦ ground arith
  | inr e ↦ rw e (resolve-append (base ++ p ∷ []) ps (ground arith) ∙ append_assoc base (p ∷ []) ps)
]

check_member-target :
    (parts : Text → List Text) (staging : List Text) (m : Member)
    → check_member parts m ≡ true
    → (target parts staging m ≡ staging ++ parts m.name) × (m.kind ≢ link)
unfolding check_member target
check_member-target parts staging m h =
    (ground (arith, resolve-append staging (parts m.name)), ground arith)

-- What a whole extraction has written.
abbrev pub IsWritten :
    (Text → List Text) → List Text → ℕ → List Member → ℕ → Files → Option (ℕ × Files) → Type 0
IsWritten parts staging most ms total files none = Unit
IsWritten parts staging most ms total files (some (sum, out)) =
    (sum ≡ total + sizes ms)
    × ((total ≤ most) → sum ≤ most)
    × (out ≡ files ++ places parts staging ms)
    × All (λ m. m.kind ≢ link) ms

IsWritten-cons :
    (parts : Text → List Text) (staging : List Text) (most : ℕ) (m : Member) (ms : List Member)
    (total : ℕ) (files : Files) (r : Option (ℕ × Files))
    → total + m.size ≤ most
    → m.kind ≢ link
    → IsWritten parts staging most ms (total + m.size) (files ++ (staging ++ parts m.name) ∷ []) r
    → IsWritten parts staging most (m ∷ ms) total files r
IsWritten-cons parts staging most m ms total files none h k w = tt
IsWritten-cons parts staging most m ms total files (some (sum, out)) h k w = (
  omega (arith, w.0),
  (λ _. w.1 h),
  w.2 ∙ append_assoc files ((staging ++ parts m.name) ∷ []) (places parts staging ms),
  (k, w.3),
)

extract_members-IsWritten :
    (parts : Text → List Text) (staging : List Text) (most : ℕ) (is_cut : Bool) (ms : List Member)
    (total : ℕ) (files : Files)
    → IsWritten parts staging most ms total files
        (extract_members parts staging most is_cut ms total files)
unfolding extract_members
extract_members-IsWritten parts staging most true [] total files = tt
extract_members-IsWritten parts staging most false [] total files =
    (omega arith, (λ h. h), sym (append-nil files), tt)
extract_members-IsWritten parts staging most is_cut (m ∷ ms) total files =
    elim (Bool-cases (check_member parts m)) [
      | inr c ↦ rw c tt
      | inl c ↦ rw c (elim (Bool-cases (ltb most (total + m.size))) [
        | inl l ↦ rw l tt
        | inr l ↦ rw l (elim (Bool-cases m.is_broken) [
          | inl b ↦ rw b tt
          | inr b ↦
              let safe = check_member-target parts staging m c in
              rw b (
                rw safe.0 (
                  IsWritten-cons parts staging most m ms total files
                    (extract_members parts staging most is_cut ms (total + m.size)
                      (files ++ (staging ++ parts m.name) ∷ []))
                    (ground arith) safe.1
                    (extract_members-IsWritten parts staging most is_cut ms (total + m.size)
                      (files ++ (staging ++ parts m.name) ∷ []))))
        ])
      ])
    ]

-- An extraction fails and leaves the destination as it was, or there was none and it has every
-- member at its own place below the directory, none of them a link, within the bound on the bytes,
-- and their number is returned.
pub extract_lem :
    (parts : Text → List Text) (staging : List Text) (most : ℕ) (is_cut moves : Bool)
    (ms : List Member) (destination : Option Files)
    → let r = extract parts staging most is_cut moves ms destination in
      ((r.result ≡ none) × (r.destination ≡ destination))
      ⊎ ((destination ≡ none)
          × (r.result ≡ some (sizes ms))
          × (sizes ms ≤ most)
          × (r.destination ≡ some (places parts staging ms))
          × All (λ m. m.kind ≢ link) ms)
unfolding extract
extract_lem parts staging most is_cut moves ms (some files) = inl (refl, refl)
extract_lem parts staging most is_cut moves ms none =
    whole (extract_members parts staging most is_cut ms 0 [])
      (extract_members-IsWritten parts staging most is_cut ms 0 [])
  where
    whole :
        (o : Option (ℕ × Files))
        → IsWritten parts staging most ms 0 [] o
        → let r = elim o as (λ _. Extracted) [
          | none ↦ record { result = none; destination = none }
          | some (total, files) ↦
              if moves
              then record { result = some total; destination = some files }
              else record { result = none; destination = none }
        ] in
          ((r.result ≡ none) × (r.destination ≡ none))
          ⊎ ((◌≡◌ {A = Option Files} none none)
              × (r.result ≡ some (sizes ms))
              × (sizes ms ≤ most)
              × (r.destination ≡ some (places parts staging ms))
              × All (λ m. m.kind ≢ link) ms)
    whole none w = inl (refl, refl)
    whole (some (total, files)) w = elim (Bool-cases moves) [
      | inl e ↦
          let sum : total ≡ sizes ms = omega (arith, w.0) in
          rw e (inr (refl, ap some sum, omega (arith, w.0, w.1 (omega arith)), ap some w.2, w.3))
      | inr e ↦ rw e (inl (refl, refl))
    ]
