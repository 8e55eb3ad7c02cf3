-- ===== src/Devices/Follower/Connection.antt =====
-- nexarm_follower.py, arm_worker.py: what a connection and its end leave of the port.
use lerobot_nexarm.Prelude.{
  ℕ, ◌≡◌, ◌⊎◌, refl, ap, Bool, true, false, List, [], ◌∷◌, ◌++◌, length, arith,
}
use lerobot_nexarm.Devices.Follower.{
  Attempt, returned, raised_before, Follower, all_connected, is_connected, Connecting,
  connect_cameras, connect, Disconnecting, disconnect, shut_down,
}

-- The end of a connection closes the port whichever of its calls raise, and turns the torque off and
-- leaves the bridge mode unless the very call fails to; the torque only if the config asks for it.
pub disconnect_lem :
    (f : Disconnecting) (s : Follower)
    → is_connected s ≡ true
    → let r = disconnect f s in
      (r.raised ≡ false)
      × (r.follower.bus.is_open ≡ false)
      × ((f.holds ≡ false) ⊎ (f.torque_off ≡ raised_before) ⊎ (r.follower.bus.torque ≡ false))
      × ((f.exit_mode ≡ raised_before) ⊎ (r.follower.bus.in_mode ≡ false))
unfolding disconnect
disconnect_lem f s c = ground arith

all_connected-false : (cs ds : List Bool) → all_connected (cs ++ false ∷ ds) ≡ false
all_connected-false [] ds = refl
all_connected-false (c ∷ cs) ds = ground (arith, all_connected-false cs ds)

connect_cameras-failing :
    (calls later : List Attempt) (cs ds : List Bool)
    → length calls ≡ length cs
    → let r = connect_cameras (calls ++ raised_before ∷ later) (cs ++ false ∷ ds) in
      (r.1 ≡ true) × (all_connected r.0 ≡ false)
unfolding connect_cameras
connect_cameras-failing [] later [] ds h = (refl, refl)
connect_cameras-failing [] later (c ∷ cs) ds h = absurd (omega arith)
connect_cameras-failing (a ∷ calls) later [] ds h = absurd (omega arith)
connect_cameras-failing (a ∷ calls) later (c ∷ cs) ds h =
    ground (arith, connect_cameras-failing calls later cs ds, all_connected-false cs ds)

-- A connection on which a camera that is not connected fails raises with the port open and the
-- bridge mode entered; the worker's shutdown then does nothing, since the arm counts as not
-- connected, and the port stays open. The calls before the cameras return.
pub connect-shut_down :
    (f : Connecting) (calls later : List Attempt) (cs ds : List Bool) (g : Disconnecting) (now : ℕ)
    (s : Follower)
    → s.cameras ≡ cs ++ false ∷ ds
    → f.cameras ≡ calls ++ raised_before ∷ later
    → length calls ≡ length cs
    → f.open_port ≡ returned
    → f.enter_mode ≡ returned
    → f.load_calibration ≡ returned
    → let r = connect f now s in
      let down = shut_down g r.follower in
      (r.raised ≡ true)
      × (down.raised ≡ false)
      × (down.follower.bus.is_open ≡ true)
      × (down.follower.bus.in_mode ≡ true)
unfolding connect shut_down
connect-shut_down f calls later cs ds g now s hs hf hl p m c =
    let failing = connect_cameras-failing calls later cs ds hl in
    ground (
      arith,
      all_connected-false cs ds,
      ap (λ (x : List Attempt). connect_cameras x s.cameras) hf,
      ap (λ (x : List Bool). connect_cameras (calls ++ raised_before ∷ later) x) hs,
      ap all_connected hs,
    )
