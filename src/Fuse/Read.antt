-- ===== src/Fuse/Read.antt =====
-- fuse/fs.go: `Read` of an open file: from its staging file, through the chunk cache, or from the
-- bucket.
pub mod Laws
use s3_2_smb.Base.{
  ℕ, Bytes, Bool, true, false, ◌||◌, ◌&&◌, Option, none, some, List, [], ◌∷◌, if◌then◌else◌, Result,
  ok, err,
}
use s3_2_smb.Cache
use s3_2_smb.Cache.Manager.{ChunkManager, State}
use s3_2_smb.Cache.Download.{Wait}
use s3_2_smb.Metadata.Entry.{FileEntry, eio, Outcome, done, failed}
use s3_2_smb.S3client.Queries.{get_object_chunk}
use s3_2_smb.Fuse.World.{Environment, World}
use s3_2_smb.Fuse.Dir.{FileHandle}
use s3_2_smb.Fuse.Handle.{read_staging, not_found, retained}

-- What `Read` answers to an error's text: nothing for an object that is not there.
unfoldable pub read_failure : Bytes → Outcome Bytes
unfolding not_found
read_failure m = if not_found m then done [] else failed eio

abbrev pub answer : Option Bytes → Bytes → Outcome Bytes
answer (some m) bytes = read_failure m
answer none bytes = done bytes

-- The staging file holds what is read.
abbrev pub is_staged : FileHandle → Bool
is_staged h =
    h.staging_open && (h.dirty || (elim (retained h.entry) [ none ↦ false | some _ ↦ true ]))

module _ (v : Environment) (others : State → Wait) where
  unfoldable pub read_cached : World v → ChunkManager → Bytes → ℕ → ℕ → ℕ → Outcome Bytes × World v
  unfolding Cache.Read.read read_failure
  read_cached w m path now offset size =
      let (got, s) =
        Cache.Read.read v.outside others now (record { manager = m; disk = w.disk }) path offset
          size size in
      (answer got.error got.bytes, record w { chunks = some s.manager; disk = s.disk })

  unfoldable pub read_direct : World v → Bytes → ℕ → ℕ → Outcome Bytes
  unfolding get_object_chunk read_failure
  read_direct w path offset size =
      elim (get_object_chunk v.bucket v.prefix w.objects path offset size) [
        | err m ↦ read_failure m
        | ok bytes ↦ done bytes
      ]

  unfoldable pub read : World v → FileHandle → ℕ → ℕ → ℕ → Outcome Bytes × World v
  unfolding read_staging read_cached read_direct
  read w h now offset size =
      if is_staged h then (read_staging v w h offset size, w) else (elim w.chunks [
        | some m ↦ read_cached w m h.path now offset size
        | none ↦ (read_direct w h.path offset size, w)
      ])
