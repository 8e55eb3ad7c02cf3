-- ===== src/Remote/Route/Laws.antt =====
-- routes/remote.py: no operator without its connection.
use lerobot_nexarm.Prelude.{
  ℕ, ◌≡◌, ◌⊎◌, inl, inr, sym, ◌∙◌, true, List, [], ◌∷◌, Option, none, some, arith, Bool-cases,
}
use lerobot_nexarm.Prelude.Int.{ℤ}
use lerobot_nexarm.Hosting.{
  Params, Station, Control, new_station, try_attach, detach, on_action, control, follow, round,
}
use lerobot_nexarm.Remote.Route.{
  Server, is_open, Event, hello, action, unknown, bye, Step, message, controlled, looped, leave,
  attached, received, parse_action, handle, step, run,
}

-- The operator that drives the station, if any, is a connection that is still received from.
abbrev pub IsServed : Server → Type 0
IsServed s = (c : ℕ) → s.station.operator ≡ some c → is_open c s.connections ≡ true

-- An operation that lets the operator go or keeps it.
abbrev Keeps : Station → Station → Type 0
Keeps s t = (t.operator ≡ none) ⊎ (t.operator ≡ s.operator)

on_action-Keeps : (now seq : ℕ) (ticks : List ℤ) (s : Station) → Keeps s (on_action now seq ticks s)
unfolding on_action
on_action-Keeps now seq ticks s = ground arith

control-Keeps : (c : Control) (s : Station) → Keeps s (control c s)
unfolding control detach
control-Keeps c s = ground arith

round-Keeps : (p : Params) (began : ℕ) (s : Station) → Keeps s (round p began s)
unfolding round follow detach
round-Keeps p began s = ground arith

Keeps-IsServed :
    (s : Server) (t : Station)
    → Keeps s.station t
    → IsServed s
    → IsServed (record s { station = t })
Keeps-IsServed s t (inl e) h c f = absurd (ground arith)
Keeps-IsServed s t (inr e) h c f = h c (sym e ∙ f)

leave-IsServed : (c : ℕ) (s : Server) → IsServed (leave c s)
unfolding leave detach
leave-IsServed c s d e = absurd (ground arith)

attach-IsServed :
    (now c : ℕ) (s : Server) → IsServed s → IsServed (attached c s (try_attach now c s.station))
unfolding try_attach
attach-IsServed now c s h d e = ground (arith, h d)

received-IsServed :
    (now c : ℕ) (s : Server) (parsed : Option (ℕ × List ℤ))
    → IsServed s
    → IsServed (received now c s parsed)
received-IsServed now c s none h = leave-IsServed c s
received-IsServed now c s (some (seq, ticks)) h =
    Keeps-IsServed s (on_action now seq ticks s.station) (on_action-Keeps now seq ticks s.station) h

handle-IsServed :
    (now c : ℕ) (event : Event) (s : Server) → IsServed s → IsServed (handle now c event s)
unfolding handle
handle-IsServed now c (hello is_compatible) s h = elim (Bool-cases (is_open c s.connections)) [
  | inl e ↦ rw e h
  | inr e ↦ rw e (elim (Bool-cases is_compatible) [
    | inl k ↦ rw k (attach-IsServed now c s h)
    | inr k ↦ rw k h
  ])
]
handle-IsServed now c (action frame) s h = elim (Bool-cases (is_open c s.connections)) [
  | inl e ↦ rw e (received-IsServed now c s (parse_action frame) h)
  | inr e ↦ rw e h
]
handle-IsServed now c unknown s h = h
handle-IsServed now c bye s h = elim (Bool-cases (is_open c s.connections)) [
  | inl e ↦ rw e (leave-IsServed c s)
  | inr e ↦ rw e h
]

step-IsServed : (p : Params) (x : Step) (s : Server) → IsServed s → IsServed (step p x s)
unfolding step
step-IsServed p (message now c event) s h = handle-IsServed now c event s h
step-IsServed p (controlled k) s h =
    Keeps-IsServed s (control k s.station) (control-Keeps k s.station) h
step-IsServed p (looped began) s h =
    Keeps-IsServed s (round p began s.station) (round-Keeps p began s.station) h

run-IsServed_from : (p : Params) (xs : List Step) (s : Server) → IsServed s → IsServed (run p xs s)
unfolding run
run-IsServed_from p [] s h = h
run-IsServed_from p (x ∷ xs) s h = run-IsServed_from p xs (step p x s) (step-IsServed p x s h)

-- However the messages of the connections, the controls and the rounds of a new station interleave,
-- a station with an operator still receives from that operator's connection: the end of the
-- connection, an invalid frame included, has always freed the station.
pub run-IsServed :
    (p : Params) (xs : List Step)
    → IsServed (run p xs (record { station = new_station p; connections = [] }))
unfolding new_station
run-IsServed p xs =
    run-IsServed_from p xs (record { station = new_station p; connections = [] })
      (λ c e. absurd (ground arith))
