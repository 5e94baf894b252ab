-- ===== src/Sync.antt =====
-- metadata/sync.go: the synchronisation of the table with the bucket.
pub mod Objects
pub mod Parents
pub mod Turn
pub mod Reconcile
pub mod Pages
pub mod Periodic
