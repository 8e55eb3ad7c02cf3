-- ===== src/Frames/Laws.antt =====
-- dataset_store.py: which containers are open.
use lerobot_nexarm.Prelude.{
  ℕ, zero, suc, ◌+◌, ◌≡◌, ◌≤◌, refl, ap, ◌∙◌, sym, inl, inr, List, [], ◌∷◌, ◌++◌, Option, none,
  some, length, take, ltb, ◌==◌, if◌then◌else◌, arith, Bool-cases,
}
use lerobot_nexarm.Frames.{
  Cache, Containers, no_containers, find, pop, without_oldest, oldest, close_oldest, evict, keep,
  keep_found, Opening, opens, raises, no_stream, open_next, decode, ids, close, Call, decodes,
  closes,
}

abbrev pub videos : Cache → List ℕ
videos [] = []
videos ((v, c) ∷ cache) = v ∷ videos cache

abbrev pub remove : ℕ → List ℕ → List ℕ
remove video [] = []
remove video (v ∷ vs) = let rest = remove video vs in if v == video then vs else v ∷ rest

-- The videos of a history, the latest first, each once, by when it was last asked for.
abbrev pub recent : List ℕ → List ℕ
recent [] = []
recent (v ∷ history) = v ∷ remove v (recent history)

-- The calls in order, with the history of the videos that had a container, since the last close.
abbrev pub after_call : Call → List ℕ → Containers → Containers × List ℕ
after_call (decodes video opening) history s =
    let r = decode video opening s in (r.0, if r.1 then video ∷ history else history)
after_call closes history s = (close s, [])

abbrev pub run : List Call → Containers × List ℕ → Containers × List ℕ
run [] r = r
run (c ∷ cs) (s, history) = run cs (after_call c history s)

take-remove : (n v : ℕ) (vs : List ℕ) → take n (remove v (take (suc n) vs)) ≡ take n (remove v vs)
take-remove zero v vs = refl
take-remove (suc n) v [] = refl
take-remove (suc n) v (w ∷ vs) = elim (Bool-cases (w == v)) [
  | inl e ↦ rw e (take-take (suc n) vs)
  | inr e ↦ rw e (ap (◌∷◌ w) (take-remove n v vs))
]
  where
    take-take : (m : ℕ) (xs : List ℕ) → take m (take m xs) ≡ take m xs
    take-take zero xs = refl
    take-take (suc m) [] = refl
    take-take (suc m) (x ∷ xs) = ap (◌∷◌ x) (take-take m xs)

videos-pop : (v : ℕ) (cache : Cache) → videos (pop v cache) ≡ remove v (videos cache)
unfolding pop
videos-pop v [] = refl
videos-pop v ((w, c) ∷ cache) = elim (Bool-cases (w == v)) [
  | inl e ↦ rw e refl
  | inr e ↦ rw e (ap (◌∷◌ w) (videos-pop v cache))
]

-- How often a number occurs.
abbrev pub count : ℕ → List ℕ → ℕ
count c [] = 0
count c (d ∷ ds) = let rest = count c ds in if d == c then suc rest else rest

count-append : (c : ℕ) (xs ys : List ℕ) → count c (xs ++ ys) ≡ count c xs + count c ys
count-append c [] ys = omega arith
count-append c (x ∷ xs) ys = ground (arith, count-append c xs ys)

abbrev pub containers : Cache → List ℕ
containers [] = []
containers ((v, c) ∷ cache) = c ∷ containers cache

count-pop :
    (c video : ℕ) (cache : Cache)
    → count c (containers cache) ≡ (elim (find video cache) [
      | none ↦ count c (containers (pop video cache))
      | some d ↦ count c (d ∷ containers (pop video cache))
    ])
unfolding find pop
count-pop c video [] = refl
count-pop c video ((w, d) ∷ cache) = ground (arith, count-pop c video cache)

count-without_oldest :
    (c : ℕ) (cache : Cache)
    → count c (containers cache)
      ≡ count c (containers (without_oldest cache)) + count c (oldest cache)
unfolding without_oldest oldest
count-without_oldest c [] = refl
count-without_oldest c ((v, d) ∷ []) = ground arith
count-without_oldest c ((v, d) ∷ f ∷ cache) = ground (arith, count-without_oldest c (f ∷ cache))

length-without_oldest :
    (cache : Cache) → length cache ≡ length (without_oldest cache) + length (oldest cache)
unfolding without_oldest oldest
length-without_oldest [] = refl
length-without_oldest ((v, c) ∷ []) = refl
length-without_oldest ((v, c) ∷ f ∷ cache) = omega (arith, length-without_oldest (f ∷ cache))

length-oldest : (cache : Cache) → 1 ≤ length cache → length (oldest cache) ≡ 1
unfolding oldest
length-oldest [] h = ground arith
length-oldest ((v, c) ∷ []) h = refl
length-oldest ((v, c) ∷ f ∷ cache) h = length-oldest (f ∷ cache) (omega arith)

take-without_oldest :
    (n : ℕ) (cache : Cache)
    → suc n ≤ length cache
    → take n (videos (without_oldest cache)) ≡ take n (videos cache)
unfolding without_oldest
take-without_oldest zero cache h = refl
take-without_oldest (suc n) [] h = refl
take-without_oldest (suc n) ((v, c) ∷ []) h = absurd (omega arith)
take-without_oldest (suc n) ((v, c) ∷ f ∷ cache) h =
    ap (◌∷◌ v) (take-without_oldest n (f ∷ cache) (omega arith))

length-videos : (cache : Cache) → length (videos cache) ≡ length cache
length-videos [] = refl
length-videos ((v, c) ∷ cache) = ap suc (length-videos cache)

take-all : (n : ℕ) (vs : List ℕ) → length vs ≤ n → take n vs ≡ vs
take-all zero [] h = refl
take-all zero (v ∷ vs) h = absurd (omega arith)
take-all (suc n) [] h = refl
take-all (suc n) (v ∷ vs) h = ap (◌∷◌ v) (take-all n vs (omega arith))

-- With enough fuel the latest four stay, and each entry that goes is closed.
evict_lem :
    (fuel : ℕ) (s : Containers)
    → length s.cache ≤ 4 + fuel
    → let r = evict fuel s in
      (videos r.cache ≡ take 4 (videos s.cache))
      × ((c : ℕ)
          → count c (containers r.cache) + count c r.closed
            ≡ count c (containers s.cache) + count c s.closed)
      × (r.opened ≡ s.opened)
      × (r.dropped ≡ s.dropped)
unfolding evict
evict_lem zero s h = (
  sym (take-all 4 (videos s.cache) (omega (arith, length-videos s.cache))),
  (λ c. refl),
  refl,
  refl,
)
evict_lem (suc fuel) s h = elim (Bool-cases (ltb 4 (length s.cache))) [
  | inr e ↦ rw e (
    sym (take-all 4 (videos s.cache) (ground (arith, length-videos s.cache))),
    (λ c. refl),
    refl,
    refl,
  )
  | inl e ↦
      let parts = length-without_oldest s.cache in
      let one = length-oldest s.cache (ground arith) in
      let rest = evict_lem fuel (close_oldest s) (omega (arith, parts, one)) in
      rw e (
        rest.0 ∙ take-without_oldest 4 s.cache (ground arith),
        (λ c. omega (
          arith,
          rest.1 c,
          count-without_oldest c s.cache,
          count-append c s.closed (oldest s.cache),
        )),
        rest.2,
        rest.3,
      )
]

-- The kept containers are those of the latest four videos of the history, the latest first, and
-- each container that was ever opened is exactly once either kept, closed or dropped.
pub record IsRecent (s : Containers) (history : List ℕ) : Type 0 where
  pub latest : videos s.cache ≡ take 4 (recent history)
  pub once :
      (c : ℕ)
      → count c (containers s.cache) + count c s.closed + count c s.dropped
        ≡ (if ltb c s.opened then 1 else 0)

keep-IsRecent :
    (video c : ℕ) (s : Containers) (history : List ℕ)
    → videos s.cache ≡ take 4 (recent history)
    → ((d : ℕ)
        → count d (c ∷ containers (pop video s.cache)) + count d s.closed + count d s.dropped
          ≡ (if ltb d s.opened then 1 else 0))
    → IsRecent (keep video c s) (video ∷ history)
keep-IsRecent video c s history e n =
    let kept = record s { cache = (video, c) ∷ pop video s.cache } in
    let evicted = evict_lem (length kept.cache) kept (omega arith) in
    record {
      latest =
          evicted.0
          ∙ ap (λ (x : List ℕ). video ∷ take 3 x) (videos-pop video s.cache ∙ ap (remove video) e)
          ∙ ap (◌∷◌ video) (take-remove 3 video (recent history));
      once = λ d.
          rw (evicted.2, evicted.3) (ap (λ (x : ℕ). x + count d s.dropped) (evicted.1 d) ∙ n d);
    }

keep_found-IsRecent :
    (video : ℕ) (opening : Opening) (found : Option ℕ) (s : Containers) (history : List ℕ)
    → find video s.cache ≡ found
    → IsRecent s history
    → let r = keep_found video opening found s in
      IsRecent r.0 (if r.1 then video ∷ history else history)
keep_found-IsRecent video opening (some c) s history e h =
    keep-IsRecent video c s history h.latest
      (λ d. ground (arith, count-pop d video s.cache, e, h.once d))
keep_found-IsRecent video raises none s history e h = h
keep_found-IsRecent video no_stream none s history e h = record {
  latest = h.latest;
  once = λ d. ground (arith, h.once d);
}
keep_found-IsRecent video opens none s history e h =
    keep-IsRecent video s.opened (open_next s) history h.latest
      (λ d. ground (arith, count-pop d video s.cache, e, h.once d))

count-ids : (c : ℕ) (cache : Cache) → count c (ids cache) ≡ count c (containers cache)
count-ids c [] = refl
count-ids c ((v, d) ∷ cache) =
    ground (arith, count-append c (ids cache) (d ∷ []), count-ids c cache)

after_call-IsRecent :
    (c : Call) (history : List ℕ) (s : Containers)
    → IsRecent s history
    → let r = after_call c history s in IsRecent r.0 r.1
unfolding decode close
after_call-IsRecent (decodes video opening) history s h =
    keep_found-IsRecent video opening (find video s.cache) s history refl h
after_call-IsRecent closes history s h = record {
  latest = refl;
  once = λ c. ground (arith, h.once c, count-append c s.closed (ids s.cache), count-ids c s.cache);
}

run-IsRecent_from :
    (cs : List Call) (s : Containers) (history : List ℕ)
    → IsRecent s history
    → let r = run cs (s, history) in IsRecent r.0 r.1
run-IsRecent_from [] s history h = h
run-IsRecent_from (c ∷ cs) s history h =
    let r = after_call c history s in
    run-IsRecent_from cs r.0 r.1 (after_call-IsRecent c history s h)

-- After any calls, the kept containers are those of the four videos that were asked for last since
-- the last `close`, those that could not be opened left out, the latest first; and each container
-- that was opened is exactly once either kept, or closed, or was dropped for want of a video stream.
pub run-IsRecent : (cs : List Call) → let r = run cs (no_containers, []) in IsRecent r.0 r.1
run-IsRecent cs =
    run-IsRecent_from cs no_containers [] (record { latest = refl; once = λ c. ground arith })
