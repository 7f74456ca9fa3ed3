-- ===== src/Policy.antt =====
-- policy/abstention.py: when automated repair must keep its hands off a session.
-- `SideEffects` reads what a tool event may have done, `Ambiguity` collects the events whose execution
-- is unclear, `Scope` decides whether one repair step stays clear of them, and `Gates` are the
-- session-wide verdicts.
pub mod SideEffects
pub mod Ambiguity
pub mod Scope
pub mod Gates
