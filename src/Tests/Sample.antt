-- ===== src/Tests/Sample.antt =====
-- A concrete reader, disk, cache, database and bucket for the examples.
use s3_2_smb.Base.{
  ◌<◌, ◌≤◌, ℕ, ◌≡◌, ◌≢◌, refl, Bytes, Option, none, some, [], ◌∷◌, codes, ◌==◌, if◌then◌else◌, eqb,
  ltb, length, take, drop, Result, ok, err, arith,
}
use s3_2_smb.Disk.{Disk}
use s3_2_smb.Cache.Lru.{LruTracker, new_lru_tracker}
use s3_2_smb.Cache.Manager.{ChunkManager, State, Outside, chunk_size}
use s3_2_smb.Cache.Coherence.{Serves}
use s3_2_smb.Metadata.Entry.{FileEntry, zero_entry, Error, failed}
use s3_2_smb.Metadata.Repository.{update_entry, delete_entry, wrap}
use s3_2_smb.Metadata.Database.{query_failed}
use s3_2_smb.Tests.Table.{database, row_of, found_of}
use s3_2_smb.S3client.{Bucket, Head}
use s3_2_smb.Fuse.World.{Environment, World}

abbrev pub content : Bytes
content = 7 ∷ 8 ∷ 9 ∷ []

abbrev range : Bytes → ℕ → ℕ → Result Bytes
range c offset n =
    if ltb offset (length c) then ok (take n (drop offset c)) else err (codes "InvalidRange")

range-inside :
    (c : Bytes) (offset n : ℕ) → offset < length c → range c offset n ≡ ok (take n (drop offset c))
range-inside c offset n h = ground arith

range-past_end :
    (c bytes : Bytes) (offset n : ℕ) → length c ≤ offset → range c offset n ≡ ok bytes → bytes ≡ []
range-past_end c bytes offset n h e = ground arith

-- Serves the content under every key.
abbrev pub reader : Outside
reader = record { path_to_hash = λ p. p; get_object_chunk = λ p. range content }

pub reader-Serves : (path : Bytes) → Serves reader path content
reader-Serves path = record {
  inside = λ offset h. range-inside content offset chunk_size h;
  past_end = λ offset bytes h e. range-past_end content bytes offset chunk_size h e;
}

abbrev pub empty_disk : Disk
empty_disk = record { files = []; fault = λ c p. none }

abbrev pub manager_of : LruTracker → ℕ → ChunkManager
manager_of lru size = record {
  cache_dir = codes "/c";
  max_cache_size = 150;
  lru = lru;
  current_size = size;
  downloading = [];
}

abbrev pub empty_state : State
empty_state = record { manager = manager_of new_lru_tracker 0; disk = empty_disk }

abbrev head_of : ℕ → Head
head_of n = record {
  content_length = n;
  last_modified = 1;
  content_type = none;
  version_id = none;
  etag = none;
}

-- A bucket that has no ranges and copies nothing.
abbrev pub bucket : Bucket
bucket = record {
  State = Bytes → Option Bytes;
  object = λ s k. s k;
  get_object = λ s k. elim (s k) [ some c ↦ ok c | none ↦ err (codes "NoSuchKey") ];
  get_range = λ s k range. err (codes "NoSuchKey");
  head_object =
      λ s k. elim (s k) [ some c ↦ ok (head_of (length c)) | none ↦ err (codes "NotFound") ];
  list_objects_v2 = λ s i. err (codes "AccessDenied");
  put_object = λ s k c. (none, λ j. if eqb k j then some c else s j);
  put_sized = λ s k c n.
      if n == length c
      then (none, λ j. if eqb k j then some c else s j)
      else (some (codes "IncompleteBody"), s);
  delete_object = λ s k. (none, λ j. if eqb k j then none else s j);
  copy_object = λ s k j. (some (codes "NoSuchKey"), s);
}

abbrev pub environment : Environment
environment = record {
  database = database;
  bucket = bucket;
  prefix = [];
  staging_dir = codes "/s";
  staging_hash = λ p. p;
  outside = reader;
}

abbrev pub some_file : FileEntry
some_file = record zero_entry { path = codes "d/f"; size = 3 }

-- One file, d/f, whose entry is in the database.
abbrev pub world : World environment
world = record {
  db = record { rows = some_file ∷ []; distinct = (refl, tt) };
  objects = λ k. none;
  disk = empty_disk;
  chunks = none;
}

answered : (o : Option FileEntry) (m : Bytes) → found_of o ≢ query_failed m
answered none m h = cc
answered (some e) m h = cc

pub database-answers : (s : database.State) (p m : Bytes) → database.first s p ≢ query_failed m
database-answers s p m = answered (row_of s.rows p) m

pub database-takes :
    (s : database.State) (e : FileEntry) (x : Error) → update_entry database s e ≢ failed x
unfolding update_entry wrap
database-takes s e x h = cc

pub database-deletes :
    (s : database.State) (p : Bytes) (x : Error) → delete_entry database s p ≢ failed x
unfolding delete_entry wrap
database-deletes s p x h = cc

pub absent : (b c : Bytes) → none ≡ some b → b ≡ c
absent b c h = cc

-- A bucket that takes no object.
abbrev pub refusing : Environment
refusing = record environment {
  bucket = record bucket { put_object = λ s k c. (some (codes "AccessDenied"), s) };
}

abbrev pub refusing_world : World refusing
refusing_world = record { db = world.db; objects = λ k. none; disk = empty_disk; chunks = none }
