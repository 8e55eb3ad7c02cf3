-- ===== src/Events/Laws.antt =====
-- events.py: what a slow client still gets.
use lerobot_nexarm.Prelude.{
  ℕ, suc, ◌-◌, ◌≤◌, ◌≡◌, refl, sym, ap, ap₂, ◌∙◌, inl, inr, false, List, [], ◌∷◌, ◌++◌, map,
  append_assoc, append-nil, All, ltb, length, drop, length-append, Bool-cases, arith, ltb→lt,
}
use lerobot_nexarm.Events.{queue_size, Message, Queue, deliver, put_all, deliver_all, received}

module _ {A : Type 0} where
  put_all-last :
      (size : ℕ) (items ms : List (Message A))
      → 1 ≤ size
      → length items ≤ size
      → put_all size items ms ≡ drop (length (items ++ ms) - size) (items ++ ms)
  put_all-last size items [] some_room fits =
      let same = append-nil items in
      let small : length (items ++ []) - size ≡ 0 = rw same (omega arith) in rw small (sym same)
  put_all-last size items (m ∷ ms) some_room fits = elim (Bool-cases (ltb (length items) size)) [
    | inl room ↦
        let fewer = ltb→lt (length items) size room in
        let sizes = length-append items (m ∷ []) in
        rw room (
          put_all-last size (items ++ m ∷ []) ms some_room (omega arith)
          ∙ ap (λ l. drop (length l - size) l) (append_assoc items (m ∷ []) ms))
    | inr full ↦ rw full (of_full (λ q h. put_all-last size q ms some_room h) items fits full)
  ]
    where
      of_full :
          ((q : List (Message A))
            → length q ≤ size
            → put_all size q ms ≡ drop (length (q ++ ms) - size) (q ++ ms))
          → (q : List (Message A)) → length q ≤ size
          → ltb (length q) size ≡ false
          → put_all size (drop 1 q ++ m ∷ []) ms ≡ drop (length (q ++ m ∷ ms) - size) (q ++ m ∷ ms)
      of_full rest [] le is_full = ground arith
      of_full rest (x ∷ q) le is_full =
          let sizes = length-append q (m ∷ []) in
          let all = length-append q (m ∷ ms) in
          let more : length (x ∷ q ++ m ∷ ms) - size ≡ suc (length (q ++ m ∷ ms) - size) =
            ground arith in
          rest (q ++ m ∷ []) (ground arith)
          ∙ ap (λ l. drop (length l - size) l) (append_assoc q (m ∷ []) ms)
          ∙ rw more refl

  -- Delivering messages one by one gives each subscriber's queue, which holds at most 256, the
  -- newest 256 of what it held and the messages after that, in their order.
  pub deliver_all-received :
      (ms : List (Message A)) (hub : List (Queue A))
      → All (λ q. length q.items ≤ queue_size) hub
      → deliver_all ms hub
        ≡ map {A = Queue A}
            (λ q. record q { items = drop (length (q.items ++ ms) - queue_size) (q.items ++ ms) })
            hub
  deliver_all-received ms hub fit = deliver_all-map ms hub ∙ lasts hub fit
    where
      deliver_all-map :
          (ms' : List (Message A)) (hub' : List (Queue A))
          → deliver_all ms' hub' ≡ map (received ms') hub'
      deliver_all-map [] hub' = unchanged hub'
        where
          unchanged : (qs : List (Queue A)) → qs ≡ map (received []) qs
          unchanged [] = refl
          unchanged (q ∷ qs) = ap (◌∷◌ q) (unchanged qs)
      deliver_all-map (m ∷ ms') hub' = deliver_all-map ms' (deliver m hub') ∙ again hub'
        where
          again :
              (qs : List (Queue A))
              → map (received ms') (deliver m qs) ≡ map (received (m ∷ ms')) qs
          again [] = refl
          again (q ∷ qs) = ap (◌∷◌ (received (m ∷ ms') q)) (again qs)

      lasts :
          (qs : List (Queue A))
          → All (λ q. length q.items ≤ queue_size) qs
          → map (received ms) qs
            ≡ map {A = Queue A}
                (λ q. record q {
                  items = drop (length (q.items ++ ms) - queue_size) (q.items ++ ms);
                })
                qs
      lasts [] fits = refl
      lasts (q ∷ qs) fits =
          ap₂ (λ items rest. record q { items = items } ∷ rest)
            (put_all-last queue_size (q.items) ms (omega arith) fits.0) (lasts qs fits.1)
