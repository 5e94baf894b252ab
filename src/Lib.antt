-- ===== src/Lib.antt =====
-- s3-2-smb: a filesystem over an S3 bucket that Samba serves. A FUSE server (fuse/fs.go) answers from
-- a table of file entries (metadata/), reads file contents through a cache of 16 MiB chunks on the
-- local disk (cache/), writes into staging files that a background job uploads, and calls the bucket
-- through a thin client (s3client/client.go).
--
-- Base: byte strings, Boolean tests, 64-bit words, printed numbers, lists, errors. An int64 or a
--   uint64 is its bit pattern below 2 ^ 64; Base.Word writes the wrap-around out.
-- Disk: the calls of package os, on a list of files. `fault` says which call fails at which path.
-- Cache.Lru: cache/lru.go. container/list is the list of elements, with the identity of an element
--   for the pointer that the map holds.
-- Cache.Manager, Cache.Download, Cache.Read, Cache.Rebuild: cache/manager.go. Manager has the names
--   of chunk files, ensureCacheSpace and Evict; Download has ensureChunk and downloadChunk, where
--   `Wait` is what a wait for another caller's download ends in; Read has Read and readFromChunk;
--   Rebuild has InvalidateFile, scanExistingCache, the constructor and Stats. The hash of a path and
--   the S3 reader are parameters. The loop of Read has the number of requested bytes for fuel, as
--   each round that goes on reads a byte; ensureCacheSpace and Evict have the number of tracked
--   entries, as each round evicts one. A lock makes the part of a call that it covers one step.
-- Cache.Coherence: the condition that the cached files hold the object's bytes.
-- Metadata.Paths: the functions on paths of metadata/repository.go. Metadata.Entry:
--   metadata/models.go and metadata/errors.go; a time is a number, and a nil map is none; Value and
--   Scan have encoding/json as a parameter, which belongs to the database here.
-- Metadata.Database: what metadata/sqlite.go uses of GORM, as a record of operations with the laws
--   that their documentation gives. Metadata.Repository: the operations of metadata/sqlite.go.
-- S3client: the client of s3client/client.go over the SDK's calls: keys and the calls that change
--   the bucket; Queries has those that ask it. S3client.Laws has what the SDK's calls promise.
-- Fuse: fuse/fs.go. A handler is a function on the world: database, bucket, disk and chunk manager.
--   Dir has Lookup, Mkdir, Create and Remove; Rename has Rename; Xattrs has the handlers of extended
--   attributes and the two Setattr; Attr has inode numbers, the two Attr and ReadDirAll; Handle has
--   Open, Write, Flush and Release, Read has Read. A File and its one handle share the entry; the
--   update that the first Write leaves to a goroutine is a result of the step, for a later step to
--   apply.
-- Writeback: metadata/uploader.go on the same world. Upload has processWriteback, Eviction has
--   processCacheEviction, Daemon has the loop of StartWritebackDaemon over its ticks; its
--   child modules follow one entry through the ticks. What a run meets from outside (times, access
--   times, the end of its context) is a schedule.
-- Sync: metadata/sync.go on the table and the disk. Objects has the options, the SDK's listing as a
--   parameter and the paths of keys; Parents has ensureParentDirs, Turn an object's turn, Reconcile
--   the deletions, Pages SyncFromS3, and Periodic the statistics and StartPeriodicSync. The loop over
--   the pages has fuel, a unit for each page; a listing whose pages are numbered downwards ends.
-- Config: config/config.go. encoding/json and the environment are parameters.
-- Tests: a concrete reader, database and bucket, and the theorems at concrete inputs.
--
-- Not modelled: Statfs and mounting (fuse/fs.go); the set-up of the SDK's client and the encoding of a
-- copy's source (s3client/client.go); the set-up of the database; the command and the logger, which
-- only wire and print. The types of files beside the directory
-- bit, symbolic links, and the file's own directory tree are left out; so are timeouts, and other
-- calls between the steps of one run of a background job.
pub mod Base
pub mod Disk
pub mod Cache
pub mod Metadata
pub mod S3client
pub mod Fuse
pub mod Writeback
pub mod Sync
pub mod Config
pub mod Tests
