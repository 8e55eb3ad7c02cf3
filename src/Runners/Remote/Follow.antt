-- ===== src/Runners/Remote/Follow.antt =====
-- remote.py: what the local log and metrics have of the remote job's.
use lerobot_nexarm.Prelude.{
  ℕ, ◌+◌, ◌≡◌, ◌≢◌, ◌≤◌, ◌⊎◌, inl, inr, refl, sym, ◌∙◌, Bool, true, false, List, [], ◌∷◌, ◌++◌,
  Option, none, some, leb, length, drop, if◌then◌else◌, arith, Option-cases, append_assoc,
  append-nil, length-append, drop-append_length,
}
use lerobot_nexarm.Runners.Remote.{
  max_poll_failures, RemoteState, Poll, Following, retry, again, lost, ends, is_terminal,
  poll_failed, take_lines, take_points, poll_job,
}

abbrev pub IsPrefix {ℓ} : {A : Type ℓ} → List A → List A → Type ℓ
IsPrefix {A = A} xs ys = (rest : List A) × (xs ++ rest ≡ ys)

-- A copied beginning is continued by what stands behind it in another beginning.
drop-cases {ℓ} :
    {A : Type ℓ} (a l r s : List A)
    → a ++ r ≡ l ++ s
    → (drop (length a) l ≡ []) ⊎ (a ++ drop (length a) l ≡ l)
drop-cases [] l r s e = inr refl
drop-cases (x ∷ a) [] r s e = inl refl
drop-cases (x ∷ a) (y ∷ l) r s e = ground (arith, drop-cases a l r s)

drop-IsPrefix {ℓ} :
    {A : Type ℓ} (a l F : List A)
    → IsPrefix a F
    → IsPrefix l F
    → IsPrefix (a ++ drop (length a) l) F
drop-IsPrefix a l F (r, p) (s, q) = elim (drop-cases a l r s (p ∙ sym q)) [
  | inl none_ ↦ rw none_ (rw (append-nil a) (r, p))
  | inr all ↦ rw all (s, q)
]

pub drop-append_all {ℓ} : {A : Type ℓ} (a F : List A) → IsPrefix a F → a ++ drop (length a) F ≡ F
drop-append_all a F (r, p) = rw (← p) (rw (drop-append_length a r) refl)

length-append_drop {ℓ} :
    {A : Type ℓ} (a l : List A) → length a ≤ length l → length (a ++ drop (length a) l) ≡ length l
length-append_drop [] l h = refl
length-append_drop (x ∷ a) [] h = absurd (omega arith)
length-append_drop (x ∷ a) (y ∷ l) h = ground (arith, length-append_drop a l)

abbrev pub list_of {ℓ} : {A : Type ℓ} → Option (List A) → List A
list_of none = []
list_of (some xs) = xs

same_second {ℓ κ} :
    {A : Type ℓ} {B : Type κ} (b : Bool) (x z : A) (y : B)
    → (if◌then◌else◌ {A = A × B} b (x, y) (z, y)).1 ≡ y
same_second true x z y = refl
same_second false x z y = refl

module _ {L P : Type 0} where
  pub take_lines_lem :
      (ls : List L) (f : Following L P)
      → take_lines ls f ≡ record f { lines = f.lines ++ ls; seen_lines = f.seen_lines + length ls }
  take_lines_lem [] f = ground (arith, append-nil f.lines)
  take_lines_lem (l ∷ ls) f = ground (
    arith,
    take_lines_lem ls (record f { lines = f.lines ++ l ∷ []; seen_lines = f.seen_lines + 1 }),
    append_assoc f.lines (l ∷ []) ls,
  )

  -- What the sink has of the job's log and metrics: a beginning of each, as long as was counted.
  abbrev pub IsCopied : List L → List P → Following L P → Type 0
  IsCopied log metric f =
      IsPrefix f.lines log
      × (f.seen_lines ≡ length f.lines)
      × IsPrefix f.points metric
      × (f.seen_points ≡ length f.points)

  -- The answers to a poll are beginnings of the job's log and metrics, and whole once the job was
  -- seen to have ended.
  abbrev pub IsTold : List L → List P → Poll L P → Type 0
  IsTold log metric p =
      IsPrefix (list_of p.logs) log
      × IsPrefix (list_of p.metrics) metric
      × ((elim p.state [ none ↦ false | some s ↦ is_terminal s ] ≡ false)
          ⊎ (((p.logs ≡ none) ⊎ (p.logs ≡ some log))
              × ((p.metrics ≡ none) ⊎ (p.metrics ≡ some metric))))

  -- The metrics never shrink, from so many on.
  abbrev pub IsGrowing : ℕ → List (Poll L P) → Type 0
  IsGrowing n [] = Unit
  IsGrowing n (p ∷ ps) =
      ((p.metrics ≡ none) × IsGrowing n ps)
      ⊎ ((n ≤ length (list_of p.metrics)) × IsGrowing (length (list_of p.metrics)) ps)

  copy_lines :
      (log : List L) (metric : List P) (f : Following L P) (l : List L)
      → IsCopied log metric f
      → IsPrefix l log
      → IsCopied log metric (take_lines (drop f.seen_lines l) f)
  copy_lines log metric f l c p = rw (take_lines_lem (drop f.seen_lines l) f) (
    rw c.1 (drop-IsPrefix f.lines l log c.0 p),
    ground (arith, c.1, length-append f.lines (drop f.seen_lines l)),
    c.2,
    c.3,
  )

  copy_points :
      (log : List L) (metric : List P) (f : Following L P) (points : List P)
      → IsCopied log metric f
      → IsPrefix points metric
      → f.seen_points ≤ length points
      → IsCopied log metric (take_points points f)
  copy_points log metric f points c p h = (
    c.0,
    c.1,
    rw c.3 (drop-IsPrefix f.points points metric c.2 p),
    rw c.3 (sym (length-append_drop f.points points (ground (arith, c.3)))),
  )

  poll_failed-IsCopied :
      (log : List L) (metric : List P) (f : Following L P)
      → IsCopied log metric f
      → IsCopied log metric (poll_failed f).1
  poll_failed-IsCopied log metric f c =
      let f' = record f { failures = f.failures + 1 } in
      rw (same_second (leb max_poll_failures (f.failures + 1)) lost retry f') c

  pub poll_job-IsCopied :
      (log : List L) (metric : List P) (p : Poll L P) (f : Following L P)
      → IsTold log metric p
      → IsCopied log metric f
      → (p.metrics ≡ none) ⊎ (f.seen_points ≤ length (list_of p.metrics))
      → IsCopied log metric (poll_job p f).1
  poll_job-IsCopied log metric p f t c g = polled p.state p.logs p.metrics t.0 t.1 g
    where
      seen_points-take_lines : (ls : List L) → (take_lines ls f).seen_points ≡ f.seen_points
      seen_points-take_lines ls = rw (take_lines_lem ls f) refl

      polled :
          (state : Option RemoteState) (logs : Option (List L)) (metrics : Option (List P))
          → IsPrefix (list_of logs) log
          → IsPrefix (list_of metrics) metric
          → (metrics ≡ none) ⊎ (f.seen_points ≤ length (list_of metrics))
          → IsCopied log metric
              (poll_job (record p { state = state; logs = logs; metrics = metrics }) f).1
      polled none logs metrics a b g = poll_failed-IsCopied log metric f c
      polled (some s) none metrics a b g = poll_failed-IsCopied log metric f c
      polled (some s) (some l) none a b g =
          poll_failed-IsCopied log metric (take_lines (drop f.seen_lines l) f)
            (copy_lines log metric f l c a)
      polled (some s) (some l) (some m) a b g =
          let f' = take_lines (drop f.seen_lines l) f in
          rw (same_second (is_terminal s) (ends s) again (take_points m f')) (
            copy_points log metric f' m (copy_lines log metric f l c a) b
              (ground (arith, seen_points-take_lines (drop f.seen_lines l))))

  pub poll_job-seen_points :
      (p : Poll L P) (f : Following L P)
      → ((poll_job p f).1.seen_points ≡ f.seen_points)
        ⊎ ((p.metrics ≢ none) × ((poll_job p f).1.seen_points ≡ length (list_of p.metrics)))
  poll_job-seen_points p f = elim (Option-cases p.state) [
    | inl e ↦ ground arith
    | inr (s, e) ↦ elim (Option-cases p.logs) [
      | inl e' ↦ ground arith
      | inr (l, e') ↦ ground (arith, take_lines_lem (drop f.seen_lines l) f)
    ]
  ]
