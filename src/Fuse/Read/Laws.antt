-- ===== src/Fuse/Read/Laws.antt =====
-- A read of an open file through the chunk cache gives the object's bytes.
use s3_2_smb.Base.{ℕ, ◌+◌, ◌<◌, Bytes, ◌≡◌, refl, false, some, [], length, take, drop, sign}
use s3_2_smb.Cache.Manager.{ChunkManager, State}
use s3_2_smb.Cache.Download.{Wait}
use s3_2_smb.Cache.Coherence.{Serves, IsCoherent}
use s3_2_smb.Cache.Read.Correct.{read_lem}
use s3_2_smb.Metadata.Entry.{done}
use s3_2_smb.Fuse.World.{Environment, World}
use s3_2_smb.Fuse.Dir.{FileHandle}
use s3_2_smb.Fuse.Read.{is_staged, read_cached, read}

module _ (v : Environment) (others : State → Wait) (dir content : Bytes) (h : FileHandle)
    (serves : Serves v.outside h.path content) where
  -- Where a file has no staging file to read from and its chunks go through a coherent cache, with no
  -- faults, a reader that serves the object and no other download, a read of one byte or more that
  -- begins inside the object and ends below 2 ^ 63 gives the object's bytes from there, as many as
  -- were asked for or as there are.
  pub read-content :
      (w : World v) (m : ChunkManager) (now offset size : ℕ)
      → is_staged h ≡ false
      → w.chunks ≡ some m
      → 0 < size
      → offset + size < sign
      → offset < length content
      → IsCoherent v.outside dir h.path content (record { manager = m; disk = w.disk })
      → m.downloading ≡ []
      → (read v others w h now offset size).0 ≡ done (take size (drop offset content))
  unfolding read read_cached
  read-content w m now offset size unstaged cached above small inside coherent alone =
      let got =
        read_lem v.outside others dir h.path content serves now
          (record { manager = m; disk = w.disk }) offset size above small inside coherent alone in
      rw (read, unstaged, cached, read_cached, got) refl
