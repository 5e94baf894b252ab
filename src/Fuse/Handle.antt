-- ===== src/Fuse/Handle.antt =====
-- fuse/fs.go: opening a file, and the handlers of an open file. A handle's staging file is read and
-- written by its path; sizes and offsets stay below 2 ^ 63.
pub mod Laws
use s3_2_smb.Base.{
  ℕ, ◌+◌, Bytes, Bool, true, false, Option, none, some, List, [], ◌∷◌, ◌++◌, codes, if◌then◌else◌,
  ◌||◌, ◌&&◌, not, ltb, length, take, drop, contains, Result, ok, err, add64,
}
use s3_2_smb.Disk.{
  Disk, open_file, write_file, read_file, sync_file, stat, mkdir_all, file, put, unlink, write_at,
  overlay,
}
use s3_2_smb.Cache.Read.{read, Got}
use s3_2_smb.Metadata.Paths.{is_empty}
use s3_2_smb.Metadata.Entry.{
  FileEntry, Error, eio, other, Outcome, Status, done, failed, zero_entry,
}
use s3_2_smb.Metadata.Database.{Column, set_size, set_mod_time}
use s3_2_smb.Metadata.Repository.{get_entry, update_entry}
use s3_2_smb.S3client.{get_object}
use s3_2_smb.Fuse.World.{Environment, World, invalidate, path_to_staging_file}
use s3_2_smb.Fuse.Dir.{FileHandle}

-- The file's entry names a staging file.
abbrev pub retained : Option FileEntry → Option Bytes
retained none = none
retained (some e) = if is_empty e.local_staging_path then none else some e.local_staging_path

abbrev pub bytes_of : Option Bytes → Bytes
bytes_of none = []
bytes_of (some c) = c

abbrev handle_of : Bytes → Option FileEntry → Bytes → Bool → FileHandle
handle_of path entry staging is_open = record {
  path = path;
  entry = entry;
  staging_path = staging;
  staging_open = is_open;
  dirty = false;
  fetched = false;
}

abbrev retained_failure : Bytes → Error
retained_failure m = other (codes "failed to open local dirty cache file: " ++ m)

abbrev open_failure : Bytes → Error
open_failure m = other (codes "failed to open staging file: " ++ m)

-- An error text says that the object is not there: in Read and Write.
unfoldable pub not_found : Bytes → Bool
unfolding contains
not_found m = contains m (codes "NoSuchKey") || contains m (codes "NotFound")

-- The entry after a write that ended at an offset.
unfoldable pub grown : Option FileEntry → ℕ → ℕ → Option FileEntry
grown none end_offset now = none
grown (some e) end_offset now =
    if ltb e.size end_offset then some (record e { size = end_offset; mod_time = now }) else some e

-- The update of the row that the first write leaves to a goroutine.
unfoldable pub first_update : FileHandle → Option (List Column)
first_update h = if h.dirty then none else (elim h.entry [
  | none ↦ none
  | some e ↦ some (set_size e.size ∷ set_mod_time e.mod_time ∷ [])
])

-- The entry that `Flush` writes.
unfoldable pub flushed : FileHandle → ℕ → ℕ → FileEntry
flushed h size now =
    let e : FileEntry = elim h.entry [ none ↦ record zero_entry { path = h.path } | some e ↦ e ] in
    record e {
      size = size;
      mod_time = now;
      local_dirty = true;
      local_staging_path = h.staging_path;
    }

module _ (v : Environment) where
  -- A staging file that is created when it is not there; it keeps its bytes when it is.
  unfoldable pub open_staging : World v → Bytes → Option FileEntry → Outcome FileHandle × World v
  unfolding path_to_staging_file file put
  open_staging w path entry =
      let staging = path_to_staging_file v path in
      elim (w.disk.fault mkdir_all v.staging_dir) [
        | some m ↦ (
          failed (
              other (
                codes "failed to create staging directory "
                ++ (v.staging_dir ++ (codes ": " ++ m)))),
          w,
        )
        | none ↦ elim (w.disk.fault open_file staging) [
          | some m ↦ (failed (open_failure m), w)
          | none ↦ (
            done (handle_of path entry staging true),
            record w { disk = put w.disk staging (bytes_of (file w.disk staging)) },
          )
        ]
      ]

  unfoldable pub open_retained :
      World v → Bytes → Option FileEntry → Bytes → Outcome FileHandle × World v
  unfolding file
  open_retained w path entry staging = elim (w.disk.fault open_file staging) [
    | some m ↦ (failed (retained_failure m), w)
    | none ↦ elim (file w.disk staging) [
      | none ↦ (failed (retained_failure (codes "no such file or directory")), w)
      | some _ ↦ (done (handle_of path entry staging true), w)
    ]
  ]

  unfoldable pub open_node :
      World v → Bytes → Option FileEntry → Bool → Outcome FileHandle × World v
  unfolding open_staging open_retained
  open_node w path entry is_write = elim (retained entry) [
    | some staging ↦ open_retained w path entry staging
    | none ↦
        if is_write then open_staging w path entry else (done (handle_of path entry [] false), w)
  ]

  -- io.Copy into the staging file, whose error is ignored: what the body gives is written, all of it
  -- or a part, and nothing where the disk takes no writes.
  unfoldable pub copy_body : World v → Bytes → Bytes → World v
  unfolding overlay file put
  copy_body w staging body = elim (w.disk.fault write_file staging) [
    | some _ ↦ w
    | none ↦ record w { disk = put w.disk staging (overlay body (bytes_of (file w.disk staging))) }
  ]

  -- The first write fetches the object into the staging file; an error is only logged.
  unfoldable pub fetch : World v → FileHandle → World v
  unfolding get_object copy_body
  fetch w h = elim h.entry [
    | none ↦ w
    | some e ↦
        if ltb 0 e.size
        then (elim (get_object v.bucket v.prefix w.objects h.path) [
          | err _ ↦ w
          | ok body ↦ copy_body w h.staging_path body
        ])
        else w
  ]

  unfoldable pub fetch_once : World v → FileHandle → World v
  unfolding fetch
  fetch_once w h = if h.fetched then w else fetch w h

  -- How much was written, the handle, the world, and the update that is still to come.
  pub record Written : Type 0 where
    pub outcome : Outcome ℕ
    pub handle : FileHandle
    pub world : World v
    pub pending : Option (List Column)

  unfoldable pub write_staging : World v → FileHandle → Bytes → ℕ → ℕ → Written
  unfolding write_at file put grown first_update
  write_staging w h bytes offset now = elim (w.disk.fault write_file h.staging_path) [
    | some m ↦ record {
      outcome = failed (other (codes "failed to write to staging file: " ++ m));
      handle = h;
      world = w;
      pending = none;
    }
    | none ↦
        let h1 : FileHandle = record h { entry = grown h.entry (offset + length bytes) now } in
        record {
          outcome = done (length bytes);
          handle = record h1 { dirty = true };
          world = record w {
            disk =
                put w.disk h.staging_path
                  (write_at (bytes_of (file w.disk h.staging_path)) offset bytes);
          };
          pending = first_update h1;
        }
  ]

  unfoldable pub write_when : Bool → World v → FileHandle → Bytes → ℕ → ℕ → Written
  unfolding fetch_once write_staging
  write_when true w h bytes offset now =
      write_staging (fetch_once w h) (record h { fetched = true }) bytes offset now
  write_when false w h bytes offset now = record {
    outcome = failed eio;
    handle = h;
    world = w;
    pending = none;
  }

  unfoldable pub write : World v → FileHandle → Bytes → ℕ → ℕ → Written
  unfolding write_when
  write w h bytes offset now = write_when h.staging_open w h bytes offset now

  -- `Read` from the staging file.
  unfoldable pub read_staging : World v → FileHandle → ℕ → ℕ → Outcome Bytes
  unfolding file
  read_staging w h offset size = elim (w.disk.fault read_file h.staging_path) [
    | some m ↦ failed (other m)
    | none ↦ done (take size (drop offset (bytes_of (file w.disk h.staging_path))))
  ]

  -- The entry that is written, and the handle that is clean then. An error of the database is only
  -- logged.
  unfoldable pub save_flushed : World v → FileHandle → FileEntry → FileHandle × World v
  unfolding update_entry
  save_flushed w h e = elim (update_entry v.database w.db e) [
    | failed _ ↦ (record h { entry = some e; dirty = false }, w)
    | done (db, saved) ↦ (record h { entry = some saved; dirty = false }, record w { db = db })
  ]

  unfoldable pub flush_synced : World v → FileHandle → ℕ → Status × FileHandle × World v
  unfolding file invalidate flushed save_flushed
  flush_synced w h now = elim (w.disk.fault stat h.staging_path) [
    | some _ ↦ (failed eio, h, w)
    | none ↦
        let size = length (bytes_of (file w.disk h.staging_path)) in
        let (h1, w1) = save_flushed (invalidate v w h.path) h (flushed h size now) in
        (done tt, h1, w1)
  ]

  unfoldable pub flush : World v → FileHandle → ℕ → Status × FileHandle × World v
  unfolding flush_synced
  flush w h now =
      if not h.dirty || not h.staging_open
      then (done tt, h, w)
      else (elim (w.disk.fault sync_file h.staging_path) [
        | some m ↦ (failed (other (codes "failed to sync staging file: " ++ m)), h, w)
        | none ↦ flush_synced w h now
      ])

  -- No entry, or one that is not marked for the writeback.
  abbrev pub disposable : Outcome FileEntry → Bool
  disposable (failed _) = true
  disposable (done e) = not e.local_dirty

  unfoldable pub release : World v → FileHandle → FileHandle × World v
  unfolding get_entry unlink
  release w h =
      let closed : FileHandle = record h { staging_open = false } in
      if is_empty h.staging_path
      then (closed, w)
      else if disposable (get_entry v.database w.db h.path)
      then (let (_, disk) = unlink w.disk h.staging_path in (closed, record w { disk = disk }))
      else (closed, w)
