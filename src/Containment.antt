-- ===== src/Containment.antt =====
-- sdk/liminal_containment/__init__.py: the coordinator of active containment. The capability broker
-- and the host's callbacks stand behind an interface over a world that they change.
pub mod Lineage
pub mod State
pub mod Checks
pub mod Stages
pub mod Coordinator
pub mod Calls
pub mod Leads
pub mod Review
pub mod Walk
pub mod Release
pub mod Accounted
mod Tests
