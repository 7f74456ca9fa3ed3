-- ===== src/Repair/Recipes.antt =====
-- The conservative recipes of repair/recipes_conservative.py: what applying a step does to the events,
-- and the region that the recipe declares for it. An event stands for its canonical dict, which is
-- what the recipes return: both have the same fields.
pub mod Edits
pub mod Suffix
pub mod Renumber
pub mod Collapse
pub mod Restore
pub mod Moves
pub mod Reunion
pub mod Projection
pub mod Safety
