-- ===== src/Requests.antt =====
-- src/db/requests.rs and the status changes of src/web/handlers/requests.rs.
pub mod Status
pub mod Tables
pub mod Writes
pub mod Handlers
pub mod Audit
pub mod Transitions
pub mod Lifecycle
pub mod Steps
pub mod Resolver
pub mod Votes
