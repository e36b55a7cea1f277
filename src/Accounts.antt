-- ===== src/Accounts.antt =====
-- Invite codes, password reset tokens and the pages that use them up.
pub mod Tables
pub mod Invites
pub mod Registration
pub mod Steps
pub mod Codes
pub mod Spent
pub mod Resets
pub mod ResetOnce
pub mod Freed
