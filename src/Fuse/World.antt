-- ===== src/Fuse/World.antt =====
-- fuse/fs.go: the type FS, as the world that its handlers work on.
pub mod Laws
use s3_2_smb.Base.{
  ℕ, Bytes, Option, none, some, List, [], ◌∷◌, ◌++◌, codes, Bool, if◌then◌else◌, ◌||◌, contains,
}
use s3_2_smb.Disk.{Disk}
use s3_2_smb.Cache.Manager.{ChunkManager, State, Outside}
use s3_2_smb.Cache.Rebuild.{invalidate_file}
use s3_2_smb.Metadata.Database.{Database}
use s3_2_smb.S3client.{Bucket}

-- What the filesystem works with, and does not change.
pub record Environment : Type 1 where
  pub database : Database
  pub bucket : Bucket
  -- the client's prefix
  pub prefix : Bytes
  pub staging_dir : Bytes
  -- hex of the first half of the SHA-256 of a path
  pub staging_hash : Bytes → Bytes
  pub outside : Outside

unfoldable pub path_to_staging_file : Environment → Bytes → Bytes
path_to_staging_file v path = (v.staging_dir ++ b'/' ∷ []) ++ v.staging_hash path

pub record World (v : Environment) : Type 0 where
  pub db : v.database.State
  pub objects : v.bucket.State
  pub disk : Disk
  pub chunks : Option ChunkManager

-- An error text says that the object is not there: in Remove and Rename.
unfoldable pub is_gone : Bytes → Bool
unfolding contains
is_gone m =
    (contains m (codes "NoSuchKey") || contains m (codes "NotFound")) || contains m (codes "404")

module _ (v : Environment) where
  -- `if fs.cache != nil { fs.cache.InvalidateFile(path) }`.
  unfoldable pub invalidate : World v → Bytes → World v
  unfolding invalidate_file
  invalidate w path = elim w.chunks [
    | none ↦ w
    | some m ↦
        let (_, s) = invalidate_file v.outside (record { manager = m; disk = w.disk }) path in
        record w { chunks = some s.manager; disk = s.disk }
  ]
