-- ===== src/Fuse.antt =====
-- fuse/fs.go: what the handlers share. A handler is a function on the world: the database, the
-- bucket, the disk and the chunk manager, which a filesystem may lack.
pub mod World
pub mod Dir
pub mod Rename
pub mod Xattrs
pub mod Handle
pub mod Attr
pub mod Read
