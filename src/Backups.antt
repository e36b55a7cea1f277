-- ===== src/Backups.antt =====
-- src/db/backups.rs and the retention of src/backup.rs.
pub mod Table
pub mod Retention
pub mod Names
pub mod Newest
pub mod Recorded
