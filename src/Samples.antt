-- ===== src/Samples.antt =====
-- Small sessions and the theorems at work on them.
mod Data
mod Policies
mod Recipes
mod Plans
mod Diffs
mod Checks
mod Assurances
mod Positions
