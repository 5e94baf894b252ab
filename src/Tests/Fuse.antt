-- ===== src/Tests/Fuse.antt =====
-- The handlers at one file of a database.
use s3_2_smb.Base.{Bytes, ◌≡◌, ◌≢◌, refl, ap, true, false, some, none, [], ◌∷◌, codes, eqb}
use s3_2_smb.Metadata.Paths.{normalize_path, join_path}
use s3_2_smb.Metadata.Entry.{done}
use s3_2_smb.Fuse.Dir.{FileHandle, remove}
use s3_2_smb.Fuse.Dir.Laws.{Removes, remove_lem}
use s3_2_smb.Fuse.Rename.{move_row, renamed}
use s3_2_smb.Fuse.Rename.Laws.{move_row_lem}
use s3_2_smb.Fuse.Handle.{read_staging, write, flush, release}
use s3_2_smb.Fuse.Handle.Laws.{read-write, Marked, release-flush}
use s3_2_smb.Metadata.Entry.{eio}
use s3_2_smb.Fuse.Dir.{mkdir}
use s3_2_smb.Fuse.Dir.Rollback.{Gone, mkdir-Gone}
use s3_2_smb.Tests.Table.{database, database-Lawful}
use s3_2_smb.Tests.Sample.{
  database-deletes, refusing, refusing_world, environment, world, database-answers, database-takes,
  some_file,
}

remove_lem_example :
    let r = remove environment world (codes "d") (codes "f") false in
    Removes environment database-Lawful world.db (join_path (codes "d" ∷ codes "f" ∷ [])) r.0 r.1.db
remove_lem_example = remove_lem environment database-Lawful world (codes "d") (codes "f") false

abbrev handle : FileHandle
handle = record {
  path = codes "d/f";
  entry = some some_file;
  staging_path = codes "/s/d/f";
  staging_open = true;
  dirty = true;
  fetched = true;
}

read-write_example :
    let r = write environment world handle (5 ∷ 6 ∷ []) 2 9 in
    read_staging environment r.world r.handle 2 2 ≡ done (5 ∷ 6 ∷ [])
unfolding write
read-write_example = read-write environment world handle (5 ∷ 6 ∷ []) 2 9 2 refl refl

release-flush_example :
    let (out, h1, w1) = flush environment world handle 9 in
    (out ≡ done tt)
    × (h1.dirty ≡ false)
    × Marked environment database-Lawful w1.db (codes "d/f")
    × ((release environment w1 h1).1 ≡ w1)
release-flush_example =
    release-flush environment database-Lawful world handle 9
      (record { takes = database-takes; answers = database-answers }) refl refl refl refl refl

apart : normalize_path (codes "d/f") ≢ normalize_path (codes "d/g")
unfolding normalize_path eqb
apart h = let e : false ≡ true = ap (λ p. eqb p (codes "d/g")) h in cc

move_row_lem_example :
    (database.row
        (move_row environment world.db some_file (codes "d/f") (codes "d/g") 9).1
        (codes "d/g")
      ≡ some (renamed some_file (codes "d/g") 9))
    × (database.row
          (move_row environment world.db some_file (codes "d/f") (codes "d/g") 9).1
          (codes "d/f")
        ≡ none)
    × ((q : Bytes)
        → q ≢ codes "d/f"
        → q ≢ codes "d/g"
        → database.row (move_row environment world.db some_file (codes "d/f") (codes "d/g") 9).1 q
          ≡ database.row world.db q)
unfolding normalize_path move_row eqb
move_row_lem_example =
    move_row_lem environment database-Lawful world.db
      (move_row environment world.db some_file (codes "d/f") (codes "d/g") 9).1 some_file
      (renamed some_file (codes "d/g") 9) (codes "d/f") (codes "d/g") 9 database-answers apart refl

mkdir-Gone_example :
    Gone refusing database-Lawful
      (normalize_path (join_path (codes "d" ∷ codes "g" ∷ [])))
      refusing_world.db
      (mkdir refusing refusing_world
        (codes "d")
        (codes "g")
        (record { mode = 448; uid = 0; gid = 0 })
        9).1.db
unfolding mkdir
mkdir-Gone_example =
    mkdir-Gone refusing database-Lawful refusing_world (codes "d") (codes "g")
      (record { mode = 448; uid = 0; gid = 0 }) 9 eio
      (record { updates = database-takes; deletes = database-deletes }) refl
