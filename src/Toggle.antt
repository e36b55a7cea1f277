-- ===== src/Toggle.antt =====
-- src/ops.rs: how mods and addons are disabled and enabled, by moving their files.
pub mod Paths
pub mod Tables
pub mod Prefix
pub mod Classify
pub mod TopLevel
pub mod Disk
pub mod Moves
pub mod Outcomes
pub mod RoundTrip
pub mod Plan
