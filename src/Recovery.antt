-- ===== src/Recovery.antt =====
-- The recovery of updates that were interrupted.
pub mod State
pub mod Recover
pub mod Kept
pub mod Recorded
pub mod Addons
pub mod Startup
