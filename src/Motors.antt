-- ===== src/Motors.antt =====
-- packages/lerobot_robot_nexarm/src/lerobot_robot_nexarm/motors/nexarm.py: the serial bus driver.
pub mod Frame
pub mod Reply
pub mod Positions
pub mod Mapping
mod Tests
