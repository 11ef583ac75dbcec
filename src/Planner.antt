-- ===== src/Planner.antt =====
-- The planner's optimisation passes, src/planner.
pub mod Simplify
pub mod Fold
