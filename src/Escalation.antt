-- ===== src/Escalation.antt =====
-- sdk/liminal_causal_escalation/__init__.py: composed-risk analysis of an event trajectory.
-- The events are values of the dataclass with the annotated types, and so are the values of the
-- mappings that `replay` takes; what the dataclass does with values of other types is outside the
-- model.
pub mod Event
pub mod Chain
pub mod Score
pub mod Decision
pub mod Subsequence
pub mod Growth
pub mod Tamper
pub mod Extend
pub mod Replay
pub mod Replayed
pub mod Attack
mod Tests
