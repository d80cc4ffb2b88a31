-- ===== src/ProcessTree.antt =====
-- sdk/liminal_process_tree/__init__.py: supervision of the process sessions of governed executions.
-- The host's callbacks are a parameter; they change a world of their own and not the supervisor.
pub mod Observation
pub mod State
pub mod Sessions
pub mod Freeze
pub mod Quiesce
pub mod Receipt
pub mod Lookup
pub mod Terminal
pub mod Calls
pub mod Sweeps
pub mod Verified
mod Tests
pub mod NoFreeze
