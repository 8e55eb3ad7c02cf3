-- ===== src/Remote/Route/Stale.antt =====
-- routes/remote.py: a connection outlives its operator's silence.
use lerobot_nexarm.Prelude.{ℕ, ◌≡◌, ◌≢◌, ap, ◌+◌, ◌<◌, true, List, [], ◌∷◌, some, none, arith}
use lerobot_nexarm.Prelude.Int.{ℤ}
use lerobot_nexarm.Safety.Limits.{soft_limits}
use lerobot_nexarm.Hosting.{
  Params, new_station, try_attach, detach, on_action, follow, round, clamp_ticks,
}
use lerobot_nexarm.Remote.Route.{
  Frame, Server, is_open, closed, hello, action, bye, message, looped, leave, received,
  parse_action, handle, step, run,
}

-- The station after one operator was silent and another attached.
abbrev pub taken_over : Params → ℕ → ℕ → ℕ → ℕ → ℕ → Server
taken_over p a b t u v =
    run p (message t a (hello true) ∷ looped u ∷ message v b (hello true) ∷ [])
      (record { station = new_station p; connections = [] })

-- An operator that the station has let go for its silence is still received from: once another has
-- attached, a bye of the first detaches the second while its connection is open, and a valid action
-- of the first becomes the target of the arm that the second drives.
pub taken_over-stale :
    (p : Params) (a b t u v w : ℕ) (frame : Frame) (seq : ℕ) (ticks : List ℤ)
    → a ≢ b
    → t + p.silence < u
    → parse_action frame ≡ some (seq, ticks)
    → let s = taken_over p a b t u v in
      let ended = step p (message w a bye) s in
      let driven = step p (message w a (action frame)) s in
      (s.station.operator ≡ some b)
      × (ended.station.operator ≡ none)
      × (is_open b ended.connections ≡ true)
      × (driven.station.operator ≡ some b)
      × (driven.station.target ≡ some (clamp_ticks soft_limits ticks))
unfolding run step handle new_station try_attach detach on_action follow round leave closed
taken_over-stale p a b t u v w frame seq ticks d late e =
    ground (arith, e, ap (received w a (taken_over p a b t u v)) e)
