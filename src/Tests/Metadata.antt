-- ===== src/Tests/Metadata.antt =====
-- Paths, owners and modes.
use s3_2_smb.Metadata.Repository.{set_xattr_of, get_xattr_of, save_xattrs, stored, wrap, get_entry}
use s3_2_smb.Metadata.Repository.Laws.{set_xattr_of_row}
use s3_2_smb.Metadata.Entry.{FileEntry, XattrMap, Outcome, done, failed}
use s3_2_smb.Tests.Table.{database, database-Lawful}
use s3_2_smb.Tests.Json.{print_map, scan_map}
use s3_2_smb.Metadata.Repository.Attributes.{get_xattr_of-set_xattr_of, changed_map}
use s3_2_smb.Tests.Sample.{world, some_file, database-answers}
use s3_2_smb.Base.{
  Bytes, ◌≡◌, refl, some, [], ◌∷◌, codes, arith, ok, erase, lookup, if◌then◌else◌, eqb,
}
use s3_2_smb.Metadata.Paths.{is_empty, normalize_path, join_path, parent_path, base_name}
use s3_2_smb.Metadata.Paths.Laws.{normalize_path_idem, parent_base-join_path}
use s3_2_smb.Metadata.Entry.{
  zero_entry, get_posix_owner, set_posix_owner, get_posix_mode, set_posix_mode, set_xattr, value,
  scan, scan_text,
}
use s3_2_smb.Metadata.Entry.Posix.{get_posix_owner-set_posix_owner, get_posix_mode-set_posix_mode}

get_posix_owner-set_posix_owner_example :
    get_posix_owner (set_posix_owner zero_entry 1000 100) ≡ some (1000, 100)
get_posix_owner-set_posix_owner_example =
    get_posix_owner-set_posix_owner zero_entry 1000 100 (omega arith) (omega arith)

get_posix_mode-set_posix_mode_example : get_posix_mode (set_posix_mode zero_entry 420) ≡ some 420
get_posix_mode-set_posix_mode_example = get_posix_mode-set_posix_mode zero_entry 420 (omega arith)

normalize_path_idem_example :
    normalize_path (normalize_path (codes "//a/b/")) ≡ normalize_path (codes "//a/b/")
normalize_path_idem_example = normalize_path_idem (codes "//a/b/")

parent_base-join_path_example :
    (parent_path (join_path (codes "/d/" ∷ codes "f" ∷ [])) ≡ normalize_path (codes "/d/"))
    × (base_name (join_path (codes "/d/" ∷ codes "f" ∷ [])) ≡ codes "f")
unfolding is_empty
parent_base-join_path_example =
    parent_base-join_path (codes "/d/") (codes "f") (refl, ((λ h. omega arith), tt))

abbrev state_or : database.State → Outcome database.State → database.State
state_or s (done s') = s'
state_or s (failed e) = s

abbrev tagged : database.State
unfolding set_xattr_of save_xattrs stored
tagged =
    state_or world.db (set_xattr_of database world.db (codes "d/f") (codes "user.a") (codes "1"))

set_xattr_of_row_example :
    (e : FileEntry) × (m : XattrMap) × (database.row world.db (normalize_path (codes "d/f"))
      ≡ some e)
    × (stored database (set_xattr e (codes "user.a") (codes "1")).xattrs ≡ ok m)
    × ((q : Bytes)
        → database.row tagged q ≡ (
            if eqb (normalize_path (codes "d/f")) q
            then some (record e { xattrs = m })
            else database.row world.db q))
unfolding set_xattr_of set_xattr save_xattrs stored value scan scan_text wrap eqb erase lookup
    print_map scan_map normalize_path get_entry
set_xattr_of_row_example =
    set_xattr_of_row database database-Lawful world.db tagged (codes "d/f") (codes "user.a")
      (codes "1") refl

get_xattr_of-set_xattr_of_example : get_xattr_of database tagged (codes "d/f") (codes "user.a") ≡ (
    if eqb (codes "user.a") (codes "user.a")
    then done (codes "1")
    else get_xattr_of database world.db (codes "d/f") (codes "user.a"))
unfolding set_xattr_of set_xattr save_xattrs stored value scan scan_text wrap eqb erase lookup
    print_map scan_map normalize_path get_entry
get_xattr_of-set_xattr_of_example =
    get_xattr_of-set_xattr_of database database-Lawful database-answers some_file (codes "user.a")
      (codes "1") b'{' (print_map (changed_map some_file (codes "user.a") (codes "1"))) refl refl
      world.db tagged (codes "d/f") (codes "user.a") refl refl
