-- ===== src/Tests.antt =====
-- The theorems at concrete inputs: an object of three bytes, a disk without faults, and a database
-- that is a list of entries.
mod Json
mod Table
mod Sample
mod Like
mod Cache
mod Metadata
mod Fuse
mod Writeback
mod Sync
mod Attr
mod Config
