-- ===== src/Deps.antt =====
-- Which mods depend on a mod.
pub mod Collect
pub mod Ends
pub mod Invariant
pub mod Correct
