-- ===== src/Runners.antt =====
-- packages/nexarm_service/src/nexarm_service: the runners of training jobs. Remote is remote.py, Local
-- is local_runner.py.
pub mod Remote
pub mod Local
pub mod Command
mod Tests
