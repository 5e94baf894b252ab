-- ===== src/Cache.antt =====
-- The package cache (cache/lru.go, cache/manager.go).
pub mod Lru
pub mod Manager
pub mod Download
pub mod Read
pub mod Rebuild
pub mod Coherence
