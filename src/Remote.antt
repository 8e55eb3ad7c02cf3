-- ===== src/Remote.antt =====
-- Remote teleoperation: packages/nexarm_service/src/nexarm_service/remote_teleop.py,
-- `RemoteOperatorWorker`, and routes/remote.py, the station's side of the connection.
pub mod Stream
pub mod Route
mod Tests
