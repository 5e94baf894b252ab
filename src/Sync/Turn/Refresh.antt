-- ===== src/Sync/Turn/Refresh.antt =====
-- What an object's turn in SyncFromS3 stores in an older row.
use s3_2_smb.Base.{◌<◌, Bytes, ◌≡◌, ◌≢◌, ◌∙◌, ap, inl, inr, false, none, some, codes}
use s3_2_smb.Metadata.Paths.{normalize_path}
use s3_2_smb.Metadata.Entry.{FileEntry, XattrMap, done}
use s3_2_smb.Metadata.Database.{Database, Lawful, query_failed, Assigned}
use s3_2_smb.Metadata.Repository.{get_entry, update_entry}
use s3_2_smb.Metadata.Repository.Laws.{Outcome-cases, get_entry_at, wrap_done}
use s3_2_smb.Sync.Objects.{SyncOptions, Object, Listing, Schedule, Work, object_size}
use s3_2_smb.Sync.Parents.Laws.{written_row}
use s3_2_smb.Sync.Turn.{is_fresher, count_one, object_entry, store, drop_stale, merge}
use s3_2_smb.Sync.Turn.Laws.{report_progress_db}

module _ (d : Database) (s : Listing) (opts : SyncOptions) (r : Schedule) (l : Lawful d) where
  update_entry-Assigned :
      (t t' : d.State) (e x : FileEntry)
      → update_entry d t e ≡ done (t', x)
      → Assigned (record e { path = normalize_path e.path }) x
  unfolding update_entry
  update_entry-Assigned t t' e x h =
      let e1 = record e { path = normalize_path e.path } in
      l.assigned t t' e1 x
        (wrap_done (codes "failed to update entry") (d.first_or_create t e1) (t', x) h)

  pub store_row :
      (w : Work d) (o : Object) (path : Bytes) (xattrs : XattrMap)
      → (store d s opts r w o path xattrs).0 ≡ done tt
      → (x : FileEntry) × (d.row (store d s opts r w o path xattrs).1.db (normalize_path path)
          ≡ some x)
        × Assigned
            (record (object_entry d s opts r w o path xattrs) { path = normalize_path path })
            x
  unfolding store
  store_row w o path xattrs =
      let e = object_entry d s opts r w o path xattrs in
      elim (Outcome-cases (update_entry d w.db e)) [
        | inr c ↦ let (x, h) = c in rw (store, h) (λ k. absurd (cc))
        | inl c ↦
            let ((db, x), h) = c in
            let same =
              report_progress_db d s opts r (count_one d s opts r (record w { db = db })) in
            let row : d.row db (normalize_path path) ≡ some x = written_row d l r w.db db e x h in
            rw (store, h)
              (λ k. (
                x,
                ap (λ t. d.row t (normalize_path path)) same ∙ row,
                update_entry-Assigned w.db db e x h,
              ))
      ]

  -- Over a database that keeps its promises and answers every query, where the row of an object's
  -- path is neither newer than the object nor waits for the writeback, its turn, if it returns no
  -- error, leaves a row there with the object's size and time, if they are not zero, and with the
  -- attributes that the row had, if it had any.
  pub merge_refreshes :
      ((t : d.State) (p m : Bytes) → d.first t p ≢ query_failed m)
      → (w : Work d) (o : Object) (path : Bytes) (e : FileEntry)
      → d.row w.db (normalize_path path) ≡ some e
      → is_fresher e o ≡ false
      → e.xattrs ≢ none
      → 0 < object_size s o
      → 0 < o.last_modified
      → (merge d s opts r w o path).0 ≡ done tt
      → (x : FileEntry) × (d.row (merge d s opts r w o path).1.db (normalize_path path) ≡ some x)
        × (x.size ≡ object_size s o)
        × (x.mod_time ≡ o.last_modified)
        × (x.xattrs ≡ e.xattrs)
  unfolding merge
  merge_refreshes answers w o path e here older attributed sized dated =
      let got : get_entry d w.db path ≡ done e =
        get_entry_at d l w.db path e (answers w.db (normalize_path path)) here in
      rw (merge, got, older)
        (λ h.
          (let (x, row, a) = store_row (drop_stale d s opts r w e) o path e.xattrs h in
            (x, row, a.size sized, a.mod_time dated, a.xattrs attributed)))
