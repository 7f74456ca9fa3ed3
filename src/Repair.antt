-- ===== src/Repair.antt =====
-- The repair package: `Steps` (plan steps, recipes and their registry), `Component` and `Torn` (the
-- events that two salvage recipes drop), `Planner` (the dry-run plan), `Recipes` (what applying a
-- conservative step does), `Vetting` (supplied plans against the planner), `Assurance` (levels), and
-- `Positions` (steps addressed again after drops).
pub mod Result
pub mod Steps
pub mod Component
pub mod Torn
pub mod Planner
pub mod Recipes
pub mod Vetting
pub mod Positions
pub mod Assurance
