-- ===== src/Tasks.antt =====
-- src/web/tasks.rs: the tracker of background tasks.
pub mod Tracker
pub mod Prune
pub mod Running
