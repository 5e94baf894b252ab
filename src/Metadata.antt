-- ===== src/Metadata.antt =====
-- The package metadata.
pub mod Paths
pub mod Entry
pub mod Database
pub mod Repository
