-- ===== src/Devices.antt =====
-- packages/lerobot_robot_nexarm and packages/lerobot_teleoperator_nexarm: the two arms as the library
-- sees them. Follower is nexarm_follower.py, Leader is nexarm_leader.py.
pub mod Follower
pub mod Leader
mod Tests
