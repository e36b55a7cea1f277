-- ===== src/Health.antt =====
-- src/health.rs: the health report of a server and its mods.
pub mod Report
pub mod Exit
