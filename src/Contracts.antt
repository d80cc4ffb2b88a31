-- ===== src/Contracts.antt =====
-- sdk/liminal_post_sandbox_contracts/__init__.py: the validators, the causal runtime event and the
-- containment transition.
pub mod Validators
pub mod Event
pub mod Transition
pub mod Agreement
pub mod Steps
mod Tests
pub mod Names
pub mod Scope
pub mod Capability
