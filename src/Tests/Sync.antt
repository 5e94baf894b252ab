-- ===== src/Tests/Sync.antt =====
-- The synchronisation at a table of one file and a bucket that lists two pages.
use mathlib.Core.Path.{subst}
use s3_2_smb.Base.{
  inl, ℕ, ◌<◌, Bytes, ◌≡◌, ◌≢◌, refl, ap, true, false, Option, none, some, [], ◌∷◌, codes, eqb, ok,
  arith, not, ◌&&◌, if◌then◌else◌,
}
use s3_2_smb.Metadata.Paths.{is_empty, normalize_path, join}
use s3_2_smb.Metadata.Entry.{FileEntry, zero_entry, done, Status}
use s3_2_smb.Metadata.Database.{selects}
use s3_2_smb.Sync.Objects.{
  entry_path, object_path, SyncOptions, Object, Page, Listing, Schedule, Work, default_sync_options,
  object_size, member, split,
}
use s3_2_smb.Sync.Parents.{ensure_parent_dirs}
use s3_2_smb.Sync.Parents.Laws.{HasRow, Grows, Seen}
use s3_2_smb.Sync.Parents.Ensure.{ensure_parent_dirs-HasRow}
use s3_2_smb.Sync.Parents.Split.{join-split}
use s3_2_smb.Sync.Turn.{sync_object, sync_objects, merge}
use s3_2_smb.Sync.Turn.Stored.{sync_objects-HasRow}
use s3_2_smb.Sync.Turn.Laws.{sync_object_keeps}
use s3_2_smb.Sync.Turn.Refresh.{merge_refreshes}
use s3_2_smb.Sync.Reconcile.{reconcile_deleted_entries}
use s3_2_smb.Sync.Reconcile.Laws.{reconcile_deleted_entries_lem}
use s3_2_smb.Sync.Pages.{sync_from_s3}
use s3_2_smb.Sync.Pages.Termination.{Ends, sync_from_s3-Ends}
use s3_2_smb.Sync.Pages.Laws.{sync_from_s3_keeps}
use s3_2_smb.Tests.Table.{database, database-Lawful}
use s3_2_smb.Tests.Sample.{database-answers, database-deletes}
use s3_2_smb.Tests.Writeback.{waiting, staged_disk, dirty_world, dirty-IsNormal}

abbrev object : Object
object = record { key = codes "d/f"; size = 5; last_modified = 7; etag = codes "e" }

abbrev first_page : Page
first_page = record {
  contents = object ∷ [];
  is_truncated = true;
  next_continuation_token = some (codes "t");
}

abbrev last_page : Page
last_page = record { contents = []; is_truncated = false; next_continuation_token = none }

abbrev page_of : Option Bytes → Page
page_of none = first_page
page_of (some t) = last_page

abbrev listing : Listing
listing = record {
  list_objects_v2 = λ prefix max_keys token. ok (page_of token);
  head_object = λ key. ok none;
}

abbrev calm : Schedule
calm = record {
  verified_at = λ n. 9;
  created_at = λ n p. 9;
  page_cancelled = λ k. none;
  entry_cancelled = λ k. none;
}

abbrev rank : Option Bytes → ℕ
rank none = 1
rank (some t) = 0

falls :
    (token : Option Bytes) (page : Page)
    → ok (page_of token) ≡ ok page
    → page.is_truncated ≡ true
    → rank page.next_continuation_token < rank token
falls none page h more =
    let is : first_page ≡ page = cc in
    subst (λ p. rank p.next_continuation_token < 1) is (omega arith)
falls (some t) page h more =
    let is : page ≡ last_page = cc in
    let last : page.is_truncated ≡ false = ap (λ p. p.is_truncated) is in absurd (cc)

sync_from_s3-Ends_example :
    Ends database listing calm
      (sync_from_s3 database listing calm 2 none dirty_world.db staged_disk)
sync_from_s3-Ends_example =
    sync_from_s3-Ends database listing calm none rank falls 2 dirty_world.db staged_disk
      (omega arith)

abbrev work : Work database
work = record {
  db = dirty_world.db;
  disk = staged_disk;
  seen_dirs = [];
  s3_keys = none;
  synced = 0;
  reports = [];
}

unseen : Seen database database-Lawful calm work
unfolding member
unseen p h = absurd (cc)

ensure_parent_dirs-HasRow_example :
    HasRow database database-Lawful calm
      (ensure_parent_dirs database calm work (codes "a/b")).1.db
      (codes "a")
    × Grows database database-Lawful calm work.db
        (ensure_parent_dirs database calm work (codes "a/b")).1.db
    × Seen database database-Lawful calm (ensure_parent_dirs database calm work (codes "a/b")).1
unfolding ensure_parent_dirs eqb normalize_path
ensure_parent_dirs-HasRow_example =
    ensure_parent_dirs-HasRow database database-Lawful calm work (codes "a") (codes "b") unseen refl

sync_object_keeps_example :
    database.row
      (sync_object database listing default_sync_options calm work object).1.db
      (codes "d/f")
    ≡ some waiting
unfolding eqb
sync_object_keeps_example =
    sync_object_keeps database listing default_sync_options calm database-Lawful database-answers
      waiting (codes "d/f") work object refl refl

-- A file with an attribute, older than the object.
abbrev tagged : FileEntry
tagged = record zero_entry {
  path = codes "d/f";
  size = 3;
  mod_time = 1;
  xattrs = some ((codes "user.a", codes "1") ∷ []);
}

abbrev tagged_work : Work database
tagged_work = record work { db = record { rows = tagged ∷ []; distinct = (refl, tt) } }

has_xattrs : tagged.xattrs ≢ none
has_xattrs h = cc

merge_refreshes_example :
    (x : FileEntry) × (database.row
        (merge database listing default_sync_options calm tagged_work object (codes "d/f")).1.db
        (normalize_path (codes "d/f"))
      ≡ some x)
    × (x.size ≡ object_size listing object)
    × (x.mod_time ≡ 7)
    × (x.xattrs ≡ tagged.xattrs)
unfolding normalize_path eqb object_size merge
merge_refreshes_example =
    merge_refreshes database listing default_sync_options calm database-Lawful database-answers
      tagged_work object (codes "d/f") tagged refl refl has_xattrs (omega arith) (omega arith) refl

reconcile_deleted_entries_lem_example :
    database.row (reconcile_deleted_entries database calm [] dirty_world.db).1 (codes "d/f")
    ≡ (elim (database.row dirty_world.db (codes "d/f")) [
      | none ↦ none
      | some e ↦ if not e.is_dir && not (member (codes "d/f") []) then none else some e
    ])
unfolding selects
reconcile_deleted_entries_lem_example =
    reconcile_deleted_entries_lem database database-Lawful calm [] database-deletes (λ k. refl)
      dirty_world.db (waiting ∷ []) (codes "d/f") dirty-IsNormal refl

abbrev keeping : SyncOptions
keeping = record default_sync_options { reconcile_deletions = false }

abbrev work_of : Option (Status × Work database) → Work database
work_of none = work
work_of (some (st, w)) = w

abbrev synced_work : Work database
synced_work =
    work_of (sync_from_s3 database listing calm 2 (some keeping) dirty_world.db staged_disk)

sync_from_s3_keeps_example : database.row synced_work.db (codes "d/f") ≡ some waiting
unfolding sync_from_s3 eqb normalize_path
sync_from_s3_keeps_example =
    sync_from_s3_keeps database listing calm database-Lawful database-answers waiting (codes "d/f")
      refl keeping 2 dirty_world.db staged_disk (done tt) synced_work refl refl refl refl

join-split_example : join (b'/' ∷ []) (split b'/' (codes "a/b")) ≡ codes "a/b"
join-split_example = join-split b'/' (codes "a/b")

sync_objects-HasRow_example :
    HasRow database database-Lawful calm
      (sync_objects database listing default_sync_options calm tagged_work (object ∷ [])).1.db
      (entry_path [] (codes "d/f"))
unfolding sync_objects eqb normalize_path is_empty object_path
sync_objects-HasRow_example =
    sync_objects-HasRow database listing default_sync_options calm database-Lawful tagged_work
      (object ∷ []) object (inl refl) refl refl
