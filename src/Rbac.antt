-- ===== src/Rbac.antt =====
-- src/db/rbac.rs and the user operations of src/db/users.rs.
pub mod Permission
pub mod Tables
pub mod Users
pub mod Roles
mod Managers
mod UserGuards
mod Grants
mod RoleGuards
pub mod Steps
mod Effects
pub mod Keys
pub mod Lockout
