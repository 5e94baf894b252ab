-- ===== src/Tests/Attr.antt =====
-- Attributes and reads of one file.
use s3_2_smb.Base.{
  Bytes, Option, List, err, ◌<◌, ◌≡◌, ◌≢◌, ◌↔◌, refl, false, none, some, [], ◌∷◌, codes, eqb, word,
  arith,
}
use s3_2_smb.Metadata.Paths.{normalize_path}
use s3_2_smb.Metadata.Entry.{FileEntry, done}
use s3_2_smb.Metadata.Database.{set_columns}
use s3_2_smb.Cache.Download.{closed}
use s3_2_smb.Fuse.World.{World}
use s3_2_smb.Fuse.Dir.{FileHandle}
use s3_2_smb.Fuse.Attr.{path_to_inode, Attr, file_attr, entry_file_attr}
use s3_2_smb.Fuse.Attr.Laws.{path_to_inode_lem, file_attr_retries, Settles, verified}
use s3_2_smb.Fuse.Attr.Blocks.{Covers, file_attr-Covers}
use s3_2_smb.Fuse.Xattrs.{Setattr, file_setattr}
use s3_2_smb.Fuse.Xattrs.Resize.{Resized, file_setattr-Resized}
use s3_2_smb.Fuse.Read.{read}
use s3_2_smb.Fuse.Read.Laws.{read-content}
use s3_2_smb.S3client.Queries.{ObjectInfo, head_object_info}
use s3_2_smb.Metadata.Database.{Column}
use s3_2_smb.Metadata.Repository.{get_entry}
use s3_2_smb.Tests.Table.{database, database-Lawful}
use s3_2_smb.Tests.Cache.{empty_state-IsCoherent}
use s3_2_smb.Tests.Sample.{
  environment, world, database-answers, some_file, reader-Serves, content, empty_state,
}

path_to_inode_lem_example :
    (0 < path_to_inode (codes "a"))
    × (path_to_inode (codes "a") < word)
    × ((path_to_inode (codes "a") ≡ 1) ↔ (codes "a" ≡ []))
path_to_inode_lem_example = path_to_inode_lem (codes "a")

-- The row, and the attributes that it has.
abbrev attr : Attr
attr = entry_file_attr (codes "d/f") some_file

-- A file of size 0 that was never verified, and the bucket where it has three bytes.
abbrev unverified : FileEntry
unverified = record some_file { size = 0 }

abbrev unverified_world : World environment
unverified_world = record world {
  db = record { rows = unverified ∷ []; distinct = (refl, tt) };
  objects = λ k. none;
}

abbrev full_bucket : Bytes → Option Bytes
full_bucket k = some content

abbrev asked : ObjectInfo
asked = record {
  key = codes "d/f";
  size = 3;
  etag = [];
  last_modified = 1;
  content_type = [];
  version_id = [];
  is_directory = false;
}

takes : (t : database.State) (p m : Bytes) (cs : List Column) → database.updates t p cs ≢ err m
takes t p m cs h = cc

file_attr_retries_example :
    (file_attr environment unverified_world (codes "d/f") none 5
      ≡ (done (entry_file_attr (codes "d/f") unverified), some unverified, unverified_world))
    × Settles environment
        (codes "d/f")
        (verified unverified asked 6)
        (file_attr environment
          (record (file_attr environment unverified_world (codes "d/f") none 5).2 {
            objects = full_bucket;
          })
          (codes "d/f")
          none
          6)
        (λ k. none)
        none
        7
unfolding file_attr get_entry head_object_info eqb normalize_path
file_attr_retries_example =
    file_attr_retries environment database-Lawful database-answers takes (codes "d/f")
      unverified_world unverified (codes "failed to head object d/f: NotFound") 5 6 7 none none none
      full_bucket (λ k. none) asked refl refl refl refl refl

file_attr-Covers_example : Covers attr
unfolding file_attr eqb normalize_path entry_file_attr
file_attr-Covers_example =
    file_attr-Covers environment world (codes "d/f") 5 attr (omega arith) none refl

abbrev closed_handle : FileHandle
closed_handle = record {
  path = codes "d/f";
  entry = some some_file;
  staging_path = [];
  staging_open = false;
  dirty = false;
  fetched = false;
}

abbrev cached_world : World environment
cached_world = record world { chunks = some empty_state.manager }

read-content_example :
    (read environment closed cached_world closed_handle 5 1 2).0 ≡ done (8 ∷ 9 ∷ [])
read-content_example =
    read-content environment closed (codes "/c") content closed_handle (reader-Serves (codes "d/f"))
      cached_world empty_state.manager 5 1 2 refl refl (omega arith) (omega arith) (omega arith)
      (empty_state-IsCoherent (codes "d/f")) refl

-- A truncation to one byte.
abbrev truncation : Setattr
truncation = record { size = some 1; mod_time = none; mode = none; uid = none; gid = none }

abbrev truncated : FileEntry
truncated = record some_file { size = 1 }

file_setattr-Resized_example :
    (database.row
        (file_setattr environment world (codes "d/f") truncation).1.db
        (normalize_path (codes "d/f"))
      ≡ some truncated)
    × Resized truncation some_file truncated
    × ((q : Bytes)
        → q ≢ normalize_path (codes "d/f")
        → database.row (file_setattr environment world (codes "d/f") truncation).1.db q
          ≡ database.row world.db q)
    × ((file_setattr environment world (codes "d/f") truncation).1.objects ≡ world.objects)
unfolding file_setattr eqb normalize_path set_columns
file_setattr-Resized_example =
    file_setattr-Resized environment database-Lawful (codes "d/f") world truncation some_file
      truncated refl refl
