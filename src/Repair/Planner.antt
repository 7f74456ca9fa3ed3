-- ===== src/Repair/Planner.antt =====
-- `plan` of repair/planner.py, in the order of its comments: `Targets` resolves the event that a
-- finding is about, `Params` the step's parameters and loss, `Classify` blocks a finding or makes it a
-- candidate step, and `Plan` puts the plan together.
-- The registry, the predicates, the digests and the host are arguments: `Env`.
pub mod Data
pub mod Targets
pub mod Params
pub mod Classify
pub mod Plan
pub mod Outcomes
pub mod Refusal
pub mod Accounting
pub mod Steps
pub mod Order
pub mod Guard
pub mod Scoped
pub mod Unique
