-- ===== src/Config.antt =====
-- src/config.rs: the groups of mod sync.
pub mod Slugs
pub mod SlugLaws
pub mod Paths
pub mod PathLaws
pub mod Groups
pub mod GroupLaws
pub mod Migrated
pub mod Lookups
pub mod Overrides
