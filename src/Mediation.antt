-- ===== src/Mediation.antt =====
-- sdk/liminal_runtime_mediation/__init__.py: the operations that the host is asked to do, and what it
-- reports of them.
pub mod Operation
pub mod Observed
pub mod State
pub mod Mediator
pub mod Calls
pub mod Verified
pub mod Uses
pub mod Allowed
mod Tests
