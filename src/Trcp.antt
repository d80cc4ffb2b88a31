-- ===== src/Trcp.antt =====
-- sdk/liminal_trcp/__init__.py: the Trusted Research Continuity Protocol simulator.
pub mod Errors
pub mod Authorization
pub mod Scope
pub mod Provider
pub mod State
pub mod Task
pub mod Protocol
pub mod Common
pub mod Methods
pub mod Failover
pub mod Verification
pub mod Calls
pub mod Trace
pub mod Narrowing
pub mod Invariant
pub mod Preservation
pub mod Gate
pub mod Guarantees
pub mod Admission
pub mod Report
mod Tests
