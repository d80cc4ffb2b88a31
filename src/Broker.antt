-- ===== src/Broker.antt =====
-- sdk/liminal_capability_broker/broker.py: the lifecycle of capabilities and the decisions on their use.
pub mod State
pub mod Scopes
pub mod Records
pub mod Admission
pub mod Authorize
pub mod Lifecycle
pub mod Calls
pub mod Dict
pub mod Delegable
pub mod Invariant
pub mod Recording
pub mod Using
pub mod Preservation
pub mod Grants
pub mod Refusals
pub mod Delegation
pub mod Guarantees
mod Tests
