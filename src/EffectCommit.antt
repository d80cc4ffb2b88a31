-- ===== src/EffectCommit.antt =====
-- sdk/liminal_effect_commit/__init__.py: leases that are issued for one effect and burned before it.
pub mod State
pub mod Documents
pub mod Observe
pub mod Receipts
pub mod Construct
pub mod Issue
pub mod Commit
pub mod Calls
pub mod Logged
pub mod Effects
pub mod Spending
pub mod Once
pub mod Gate
pub mod Refused
pub mod Brief
pub mod Expiry
pub mod Verified
mod Tests
