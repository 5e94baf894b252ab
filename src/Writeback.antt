-- ===== src/Writeback.antt =====
-- metadata/uploader.go: the background job that uploads dirty staging files and evicts clean ones.
pub mod Upload
pub mod Eviction
pub mod Daemon
