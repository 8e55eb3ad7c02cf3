-- ===== src/Runners/Remote/Complete.antt =====
-- remote.py: a remote job that has ended has given its whole log and metrics.
use lerobot_nexarm.Prelude.{
  ℕ, ◌≡◌, ◌≢◌, ◌≤◌, ◌⊎◌, inl, inr, refl, true, not, ◌&&◌, List, [], ◌∷◌, none, length, drop, arith,
  Bool-cases, Option-cases, All,
}
use lerobot_nexarm.Runners.Remote.{
  RemoteState, Poll, Following, Next, retry, again, lost, cancel_failed, ends, connection_lost,
  cancel_raised, still_running, Followed, ending_of, poll_job, round, end_as, follow,
}
use lerobot_nexarm.Runners.Remote.Follow.{
  list_of, drop-append_all, take_lines_lem, IsCopied, IsTold, IsGrowing, poll_job-IsCopied,
  poll_job-seen_points,
}

module _ {L P : Type 0} where
  -- A log and metrics that the sink has in whole.
  abbrev pub IsWhole : List L → List P → Following L P → Type 0
  IsWhole log metric f = (f.lines ≡ log) × (f.points ≡ metric)

  poll_job-IsWhole :
      (log : List L) (metric : List P) (p : Poll L P) (f : Following L P) (s : RemoteState)
      → IsTold log metric p
      → IsCopied log metric f
      → (poll_job p f).0 ≡ ends s
      → IsWhole log metric (poll_job p f).1
  poll_job-IsWhole log metric p f s t c e = elim (Option-cases p.state) [
    | inl no_state ↦ ground arith
    | inr (state, is_state) ↦ elim (Option-cases p.logs) [
      | inl no_logs ↦ ground arith
      | inr (l, is_logs) ↦ elim (Option-cases p.metrics) [
        | inl no_metrics ↦ ground arith
        | inr (m, is_metrics) ↦ ground (
          arith,
          t.2,
          c.1,
          c.3,
          take_lines_lem (drop f.seen_lines l) f,
          drop-append_all f.lines log c.0,
          drop-append_all f.points metric c.2,
        )
      ]
    ]
  ]

  round-IsCopied :
      (log : List L) (metric : List P) (p : Poll L P) (f : Following L P)
      → IsTold log metric p
      → IsCopied log metric f
      → (p.metrics ≡ none) ⊎ (f.seen_points ≤ length (list_of p.metrics))
      → IsCopied log metric (round p f).1
  unfolding round
  round-IsCopied log metric p f t c g = elim (Bool-cases (p.is_cancelled && not f.cancel_sent)) [
    | inl e ↦ rw e (elim (Bool-cases p.accepts_cancel) [
      | inl a ↦ rw a (poll_job-IsCopied log metric p (record f { cancel_sent = true }) t c g)
      | inr a ↦ rw a c
    ])
    | inr e ↦ rw e (poll_job-IsCopied log metric p f t c g)
  ]

  round-seen_points :
      (p : Poll L P) (f : Following L P)
      → ((round p f).1.seen_points ≡ f.seen_points)
        ⊎ ((p.metrics ≢ none) × ((round p f).1.seen_points ≡ length (list_of p.metrics)))
  unfolding round
  round-seen_points p f =
      ground
        (arith, poll_job-seen_points p f, poll_job-seen_points p (record f { cancel_sent = true }))

  round-IsWhole :
      (log : List L) (metric : List P) (p : Poll L P) (f : Following L P) (s : RemoteState)
      → IsTold log metric p
      → IsCopied log metric f
      → (round p f).0 ≡ ends s
      → IsWhole log metric (round p f).1
  unfolding round
  round-IsWhole log metric p f s t c = elim (Bool-cases (p.is_cancelled && not f.cancel_sent)) [
    | inl e ↦ rw e (elim (Bool-cases p.accepts_cancel) [
      | inl a ↦ rw a (poll_job-IsWhole log metric p (record f { cancel_sent = true }) s t c)
      | inr a ↦ rw a (λ h. ground arith)
    ])
    | inr e ↦ rw e (poll_job-IsWhole log metric p f s t c)
  ]

  -- What a follower comes to.
  abbrev pub IsEnd : List L → List P → Followed L P → Type 0
  IsEnd log metric r =
      IsCopied log metric r.following
      × ((r.ending ≡ still_running)
          ⊎ (r.ending ≡ connection_lost)
          ⊎ (r.ending ≡ cancel_raised)
          ⊎ IsWhole log metric r.following)

  round-IsGrowing :
      (n : ℕ) (p : Poll L P) (ps : List (Poll L P)) (f : Following L P)
      → f.seen_points ≤ n
      → IsGrowing n (p ∷ ps)
      → ((p.metrics ≡ none) ⊎ (f.seen_points ≤ length (list_of p.metrics)))
        × ((m : ℕ) × ((round p f).1.seen_points ≤ m) × IsGrowing m ps)
  round-IsGrowing n p ps f h (inl g) = (inl g.0, (n, ground (arith, round-seen_points p f), g.1))
  round-IsGrowing n p ps f h (inr g) = (
    inr (omega (arith, g.0)),
    (length (list_of p.metrics), ground (arith, round-seen_points p f, g.0), g.1),
  )

  after_round :
      (log : List L) (metric : List P) (x : Next) (f : Following L P) (later : Followed L P)
      → IsCopied log metric f
      → IsEnd log metric later
      → ((s : RemoteState) → x ≡ ends s → IsWhole log metric f)
      → IsEnd log metric (elim x as (λ _. Followed L P) [
        | retry ↦ later
        | again ↦ later
        | lost ↦ end_as connection_lost f
        | cancel_failed ↦ end_as cancel_raised f
        | ends state ↦ end_as (ending_of state) f
      ])
  after_round log metric retry f later c i w = i
  after_round log metric again f later c i w = i
  after_round log metric lost f later c i w = (c, inr (inl refl))
  after_round log metric cancel_failed f later c i w = (c, inr (inr (inl refl)))
  after_round log metric (ends s) f later c i w = (c, inr (inr (inr (w s refl))))

  follow-IsEnd :
      (n : ℕ) (log : List L) (metric : List P) (ps : List (Poll L P)) (f : Following L P)
      → f.seen_points ≤ n
      → All (IsTold log metric) ps
      → IsGrowing n ps
      → IsCopied log metric f
      → IsEnd log metric (follow ps f)
  unfolding follow
  follow-IsEnd n log metric [] f h t g c = (c, inl refl)
  follow-IsEnd n log metric (p ∷ ps) f h t g c =
      let r = round p f in
      let next = round-IsGrowing n p ps f h g in
      let c' = round-IsCopied log metric p f t.0 c next.0 in
      after_round log metric r.0 r.1 (follow ps r.1) c'
        (follow-IsEnd next.1.0 log metric ps r.1 next.1.1 t.1 next.1.2 c')
        (λ s e. round-IsWhole log metric p f s t.0 c e)

  -- Whatever polls fail and wherever a cancel comes, the sink has a beginning of the job's log and
  -- of its metrics, in order and nothing twice; once the job was seen to have ended, it has both in
  -- whole. The server's answers are beginnings of the two, metrics that do not shrink, and whole
  -- after the answer that the job has ended.
  pub follow-IsWhole :
      (log : List L) (metric : List P) (ps : List (Poll L P)) (f : Following L P)
      → All (IsTold log metric) ps
      → IsGrowing f.seen_points ps
      → IsCopied log metric f
      → IsEnd log metric (follow ps f)
  follow-IsWhole log metric ps f t g c =
      follow-IsEnd f.seen_points log metric ps f (omega arith) t g c
