-- ===== src/Access.antt =====
-- packages/nexarm_service/src/nexarm_service: who reaches the engine and which robots and servers it
-- knows. Auth is auth.py, Profiles is profiles.py, Servers is servers.py.
pub mod Auth
pub mod Profiles
pub mod Servers
mod Tests
