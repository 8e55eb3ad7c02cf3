-- ===== src/Remote/Stream/Laws.antt =====
-- remote_teleop.py: the frames that wait for their echo.
use lerobot_nexarm.Prelude.{
  ℕ, zero, suc, ◌+◌, ◌-◌, ◌≤◌, ◌<◌, ◌≡◌, ap, refl, inl, inr, Bool, false, List, [], ◌∷◌, Option,
  none, some, length, drop, arith, Bool-cases,
}
use lerobot_nexarm.Remote.Stream.{
  SentAt, Operator, new_operator, Received, Incoming, Turn, Streamed, sent_time, without, echoed,
  take_sample, publish, state, parked, other, garbled, field_or, on_state, on_frame, drain, prune,
  append_frame, number_frame, end_round, round, run,
}

-- The numbers rise, above the first number and up to the last.
abbrev pub Rises : ℕ → SentAt → ℕ → Type 0
Rises lo [] hi = lo ≤ hi
Rises lo ((s, t) ∷ sent) hi = (lo < s) × Rises s sent hi

Rises-from : (lo mid : ℕ) (sent : SentAt) (hi : ℕ) → lo ≤ mid → Rises mid sent hi → Rises lo sent hi
Rises-from lo mid [] hi h r = omega arith
Rises-from lo mid ((s, t) ∷ sent) hi h r = (omega (arith, r.0), r.1)

Rises-append_frame :
    (lo : ℕ) (sent : SentAt) (hi began : ℕ)
    → Rises lo sent hi
    → Rises lo (append_frame sent (suc hi) began) (suc hi)
Rises-append_frame lo [] hi began r = (omega arith, omega arith)
Rises-append_frame lo ((s, t) ∷ sent) hi began r = (r.0, Rises-append_frame s sent hi began r.1)

length-append_frame :
    (sent : SentAt) (seq began : ℕ) → length (append_frame sent seq began) ≡ suc (length sent)
length-append_frame [] seq began = refl
length-append_frame (frame ∷ sent) seq began = ap suc (length-append_frame sent seq began)

Rises-without :
    (seq lo : ℕ) (sent : SentAt) (hi : ℕ) → Rises lo sent hi → Rises lo (without seq sent) hi
unfolding without
Rises-without seq lo [] hi r = r
Rises-without seq lo ((s, t) ∷ sent) hi r =
    ground (arith, Rises-from lo s sent hi, Rises-without seq s sent hi r.1)

length-without :
    (seq t : ℕ) (sent : SentAt)
    → sent_time seq sent ≡ some t
    → suc (length (without seq sent)) ≡ length sent
unfolding without sent_time
length-without seq t [] e = ground arith
length-without seq t ((s, u) ∷ sent) e = ground (arith, length-without seq t sent)

Rises-drop : (n lo : ℕ) (sent : SentAt) (hi : ℕ) → Rises lo sent hi → Rises lo (drop n sent) hi
Rises-drop zero lo sent hi r = r
Rises-drop (suc n) lo [] hi r = r
Rises-drop (suc n) lo ((s, t) ∷ sent) hi r =
    Rises-from lo s (drop n sent) hi (omega (arith, r.0)) (Rises-drop n s sent hi r.1)

length-drop : (n : ℕ) (sent : SentAt) → length (drop n sent) ≡ length sent - n
length-drop zero sent = omega arith
length-drop (suc n) [] = omega arith
length-drop (suc n) (frame ∷ sent) = omega (arith, length-drop n sent)

-- The waiting frames are numbered in order up to the last one sent, they and the samples are not
-- more than the frames sent, and at most `most` wait.
pub record IsTracked (most : ℕ) (o : Operator) : Type 0 where
  pub rises : Rises 0 o.sent_at o.seq
  pub samples : length o.rtts + length o.sent_at ≤ o.seq
  pub waiting : length o.sent_at ≤ most

take_sample-IsTracked :
    (most at seq : ℕ) (found : Option ℕ) (o : Operator)
    → sent_time seq o.sent_at ≡ found
    → IsTracked most o
    → IsTracked most (take_sample at seq found o)
take_sample-IsTracked most at seq none o e h = h
take_sample-IsTracked most at seq (some t) o e h =
    let shorter = length-without seq t o.sent_at e in
    record {
      rises = Rises-without seq 0 o.sent_at o.seq h.rises;
      samples = omega (arith, h.samples, shorter);
      waiting = omega (arith, h.waiting, shorter);
    }

echoed-IsTracked :
    (most at : ℕ) (seq : Option ℕ) (o : Operator)
    → IsTracked most o
    → IsTracked most (echoed at seq o)
echoed-IsTracked most at none o h = h
echoed-IsTracked most at (some seq) o h =
    take_sample-IsTracked most at seq (sent_time seq o.sent_at) o refl h

publish-IsTracked :
    (most : ℕ) (o : Operator) → IsTracked most o → IsTracked most (publish o).operator
unfolding publish
publish-IsTracked most o h = record {
  rises = ground (arith, h.rises);
  samples = ground (arith, h.samples);
  waiting = ground (arith, h.waiting);
}

on_frame-IsTracked :
    (most at : ℕ) (frame : Incoming) (o : Operator)
    → IsTracked most o
    → IsTracked most (on_frame (record { at = at; frame = frame }) o).operator
unfolding on_frame on_state
on_frame-IsTracked most at (state phase ticks seq) o h =
    let o' = record o {
      station_phase = field_or phase o.station_phase;
      remote_ticks = field_or ticks o.remote_ticks;
    } in
    publish-IsTracked most (echoed at seq o') (
      echoed-IsTracked most at seq o'
        (record { rises = h.rises; samples = h.samples; waiting = h.waiting }))
on_frame-IsTracked most at parked o h = record {
  rises = h.rises;
  samples = h.samples;
  waiting = h.waiting;
}
on_frame-IsTracked most at other o h = h
on_frame-IsTracked most at garbled o h = h

drain-IsTracked :
    (most : ℕ) (received : List Received) (fails : Bool) (o : Operator)
    → IsTracked most o
    → IsTracked most (drain received fails o).operator
unfolding drain
drain-IsTracked most [] fails o h = h
drain-IsTracked most (r ∷ received) fails o h =
    let first = on_frame-IsTracked most r.at r.frame o h in
    let rest = drain-IsTracked most received fails (on_frame r o).operator first in
    elim (Bool-cases (on_frame r o).has_failed) [ inl e ↦ rw e first | inr e ↦ rw e rest ]

number_frame-IsTracked :
    (most began : ℕ) (o : Operator) → IsTracked most o → IsTracked (suc most) (number_frame began o)
number_frame-IsTracked most began o h =
    let longer = length-append_frame o.sent_at (suc o.seq) began in
    record {
      rises = Rises-append_frame 0 o.sent_at o.seq began h.rises;
      samples = omega (arith, h.samples, longer);
      waiting = omega (arith, h.waiting, longer);
    }

prune-IsTracked : (o : Operator) → IsTracked 257 o → IsTracked 256 (prune o)
unfolding prune
prune-IsTracked o h =
    let shorter = length-drop (length o.sent_at - 128) o.sent_at in
    record {
      rises =
          ground (arith, h.rises, Rises-drop (length o.sent_at - 128) 0 o.sent_at o.seq h.rises);
      samples = ground (arith, h.samples, shorter);
      waiting = ground (arith, h.waiting, shorter);
    }

-- What a round or a run leaves: at most 256 frames wait, or one more where an exception has ended
-- it before they were cut down.
abbrev pub Tracks : Streamed → Type 0
Tracks s = IsTracked 257 s.operator × (s.has_failed ≡ false → IsTracked 256 s.operator)

IsTracked-more : (o : Operator) → IsTracked 256 o → IsTracked 257 o
IsTracked-more o h = record {
  rises = h.rises;
  samples = h.samples;
  waiting = omega (arith, h.waiting);
}

end_round-Tracks : (s : Streamed) → IsTracked 257 s.operator → Tracks (end_round s)
end_round-Tracks s h =
    let pruned = prune-IsTracked s.operator h in
    elim (Bool-cases s.has_failed) [
      | inl e ↦ rw e (h, λ n. absurd (ground arith))
      | inr e ↦ rw e (IsTracked-more (prune s.operator) pruned, λ n. pruned)
    ]

round-Tracks : (t : Turn) (o : Operator) → IsTracked 256 o → Tracks (round t o)
unfolding round
round-Tracks t o h =
    let numbered = number_frame-IsTracked 256 t.began o h in
    let drained = drain-IsTracked 257 t.received t.recv_fails (number_frame t.began o) numbered in
    elim (Bool-cases t.leader_fails) [
      | inl e ↦ rw e (IsTracked-more o h, λ n. h)
      | inr e ↦ rw e (elim (Bool-cases t.send_fails) [
        | inl b ↦ rw b (numbered, λ n. absurd (ground arith))
        | inr b ↦
            rw b (end_round-Tracks (drain t.received t.recv_fails (number_frame t.began o)) drained)
      ])
    ]

run-Tracks_from : (turns : List Turn) (o : Operator) → IsTracked 256 o → Tracks (run turns o)
unfolding run
run-Tracks_from [] o h = (IsTracked-more o h, λ n. h)
run-Tracks_from (t ∷ turns) o h =
    let first = round-Tracks t o h in
    elim (Bool-cases (round t o).has_failed) [
      | inl e ↦ rw e (first.0, λ n. absurd (ground arith))
      | inr e ↦ rw e (run-Tracks_from turns (round t o).operator (first.1 e))
    ]

-- However the leader, the socket and the station behave, the frames that wait for an echo are
-- numbered in their order, they and the samples of the round-trip time are not more than the frames
-- that were sent, and at most
-- 256 frames wait, or 257 where an exception has ended the loop.
pub run-Tracks : (turns : List Turn) → Tracks (run turns new_operator)
unfolding new_operator
run-Tracks turns =
    run-Tracks_from turns new_operator
      (record { rises = omega arith; samples = omega arith; waiting = omega arith })
