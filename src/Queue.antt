-- ===== src/Queue.antt =====
-- The operations that wait until the server is restarted.
pub mod Table
pub mod Actions
pub mod Pending
