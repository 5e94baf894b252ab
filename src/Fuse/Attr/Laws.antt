-- ===== src/Fuse/Attr/Laws.antt =====
-- Inode numbers are words that tell the root apart; a file's blocks cover its size; and a file of
-- size 0 is asked for in the bucket until it answers.
use Prim.Native.Nat.{bit_xor}
use mathlib.Core.Path.{subst}
use s3_2_smb.Base.{
  ℕ, ◌+◌, ◌*◌, ◌%◌, ◌<◌, ◌≤◌, Bytes, ◌≡◌, ◌≢◌, ◌↔◌, sym, refl, inl, inr, true, false, Option, some,
  List, [], ◌∷◌, lt64, ◌==◌, word, arith, ok, err, Result-cases,
}
use s3_2_smb.Metadata.Paths.{is_empty, normalize_path}
use s3_2_smb.Metadata.Entry.{FileEntry, Outcome, done}
use s3_2_smb.Metadata.Database.{
  Lawful, Column, query_failed, set_columns, set_size, set_mod_time, set_s3_verified_at,
}
use s3_2_smb.Metadata.Repository.{get_entry, update_entry_fields, wrap}
use s3_2_smb.Metadata.Repository.Laws.{get_entry_row, get_entry_at, update_entry_fields_own}
use s3_2_smb.S3client.Queries.{ObjectInfo, head_object_info}
use s3_2_smb.Fuse.World.{Environment, World}
use s3_2_smb.Fuse.Attr.{
  fnv, unreserved, path_to_inode, Attr, blocks_of, entry_file_attr, verify, fall_back, file_attr,
  is_unverified,
}

fnv-lt : (hash : ℕ) (s : Bytes) → hash < word → fnv hash s < word
unfolding fnv
fnv-lt hash [] h = h
fnv-lt hash (c ∷ s) h = fnv-lt ((bit_xor hash c * 1099511628211) % word) s (omega arith)

unreserved_range : (hash : ℕ) → hash < word → (1 < unreserved hash) × (unreserved hash < word)
unfolding unreserved
unreserved_range hash h = (ground arith, ground arith)

inode_range : (c : ℕ) (s : Bytes) → (1 < path_to_inode (c ∷ s)) × (path_to_inode (c ∷ s) < word)
unfolding path_to_inode is_empty
inode_range c s =
    unreserved_range (fnv 14695981039346656037 (c ∷ s))
      (fnv-lt 14695981039346656037 (c ∷ s) (omega arith))

-- An inode number is positive and below 2 ^ 64, and it is 1 for the root and for no other path.
pub path_to_inode_lem :
    (path : Bytes)
    → (0 < path_to_inode path)
      × (path_to_inode path < word)
      × ((path_to_inode path ≡ 1) ↔ (path ≡ []))
unfolding path_to_inode is_empty
path_to_inode_lem [] = (omega arith, omega arith, (λ h. refl, λ h. refl))
path_to_inode_lem (c ∷ s) =
    let (low, high) = inode_range c s in
    (omega (arith, low), high, (λ h. absurd (omega (arith, low, h)), λ h. absurd (cc)))

pub blocks_of-covers :
    (size : ℕ)
    → size + 511 < word
    → (size ≤ 512 * blocks_of size) × (512 * blocks_of size < size + 512)
blocks_of-covers size h = (omega arith, omega arith)

-- The entry of a file that the bucket was asked for.
abbrev pub verified : FileEntry → ObjectInfo → ℕ → FileEntry
verified e info now = record e {
  size = info.size;
  mod_time = info.last_modified;
  s3_verified_at = now;
}

abbrev verified_columns : ObjectInfo → ℕ → List Column
verified_columns info now =
    set_size info.size ∷ set_mod_time info.last_modified ∷ set_s3_verified_at now ∷ []

not_zero : (n : ℕ) → lt64 0 n ≡ true → (n == 0) ≡ false
not_zero n h = ground (arith, h)

-- A call gave the entry's attributes and left the node that entry, and a later call, with any bucket
-- and any node, gives the same and changes nothing.
abbrev pub Settles :
    (v : Environment)
    → Bytes
    → FileEntry
    → Outcome Attr × Option FileEntry × World v
    → v.bucket.State
    → Option FileEntry
    → ℕ
    → Type 0
Settles v path e r o entry later =
    (r.0 ≡ done (entry_file_attr path e))
    × (r.1 ≡ some e)
    × (file_attr v (record r.2 { objects = o }) path entry later
        ≡ (done (entry_file_attr path e), some e, record r.2 { objects = o }))

module _ (v : Environment) (l : Lawful v.database)
    (answers : (t : v.database.State) (p m : Bytes) → v.database.first t p ≢ query_failed m)
    (takes : (t : v.database.State) (p m : Bytes) (cs : List Column)
      → v.database.updates t p cs ≢ err m)
    (path : Bytes) where
  -- What is known of a row is not asked for.
  quiet :
      (w : World v) (e : FileEntry) (entry : Option FileEntry) (now : ℕ)
      → get_entry v.database w.db path ≡ done e
      → is_unverified v e ≡ false
      → file_attr v w path entry now ≡ (done (entry_file_attr path e), some e, w)
  unfolding file_attr fall_back
  quiet w e entry now got known = rw (file_attr, got, fall_back, known) refl

  -- A row that the bucket is not asked for in vain is left, to be asked for again.
  unanswered :
      (w : World v) (e : FileEntry) (entry : Option FileEntry) (m : Bytes) (now : ℕ)
      → get_entry v.database w.db path ≡ done e
      → is_unverified v e ≡ true
      → head_object_info v.bucket v.prefix w.objects path ≡ err m
      → file_attr v w path entry now ≡ (done (entry_file_attr path e), some e, w)
  unfolding file_attr fall_back
  unanswered w e entry m now got unknown h = rw (file_attr, got, fall_back, unknown, h) refl

  written :
      (t : v.database.State) (cs : List Column)
      → (db : v.database.State) × (update_entry_fields v.database t path cs ≡ done db)
  unfolding update_entry_fields wrap
  written t cs = elim (Result-cases (v.database.updates t (normalize_path path) cs)) [
    | inr c ↦ let (m, h) = c in absurd (takes t (normalize_path path) m cs h)
    | inl c ↦ let (db, h) = c in (db, rw (update_entry_fields, h) refl)
  ]

  module _ (w : World v) (e : FileEntry) (info : ObjectInfo) (now : ℕ)
      (got : get_entry v.database w.db path ≡ done e) where
    -- The row then holds what the bucket said.
    verified_row :
        (db : v.database.State)
        → update_entry_fields v.database w.db path (verified_columns info now) ≡ done db
        → get_entry v.database db path ≡ done (verified e info now)
    unfolding set_columns
    verified_row db h =
        let row =
          update_entry_fields_own v.database l w.db db path (verified_columns info now) h e
            (get_entry_row v.database l w.db path e got) in
        get_entry_at v.database l db path (verified e info now) (answers db (normalize_path path))
          row

    answered :
        (entry : Option FileEntry)
        → is_unverified v e ≡ true
        → head_object_info v.bucket v.prefix w.objects path ≡ ok info
        → lt64 0 info.size ≡ true
        → (db : v.database.State) × (file_attr v w path entry now ≡ (
          done (entry_file_attr path (verified e info now)),
          some (verified e info now),
          record w { db = db },
        ))
          × (get_entry v.database db path ≡ done (verified e info now))
    unfolding file_attr fall_back verify
    answered entry unknown h full =
        let (db, k) = written w.db (verified_columns info now) in
        (db, rw (file_attr, got, fall_back, unknown, h, full, verify, k) refl, verified_row db k)

    answered-Settles :
        (entry entry' : Option FileEntry) (o : v.bucket.State) (later : ℕ)
        → is_unverified v e ≡ true
        → head_object_info v.bucket v.prefix w.objects path ≡ ok info
        → lt64 0 info.size ≡ true
        → Settles v path (verified e info now) (file_attr v w path entry now) o entry' later
    answered-Settles entry entry' o later unknown h full =
        let (db, first, row) = answered entry unknown h full in
        let known : is_unverified v (verified e info now) ≡ false =
          rw (not_zero info.size full) refl in
        subst (λ r. Settles v path (verified e info now) r o entry' later) (sym first)
          (
            refl,
            refl,
            quiet (record w { db = db; objects = o }) (verified e info now) entry' later row known,
          )

  -- Over a database that keeps its promises, answers every query and takes every update, a file of
  -- size 0 that was never verified is asked for until the bucket answers: where HeadObject fails, the
  -- attributes are the row's and nothing changes; once it gives a size above 0, the attributes have
  -- that size and time; and from then on they are the same for any node of the file, whatever the
  -- bucket then says.
  pub file_attr_retries :
      (w : World v) (e : FileEntry) (m : Bytes) (now retry later : ℕ)
      (first second third : Option FileEntry) (o o' : v.bucket.State) (info : ObjectInfo)
      → get_entry v.database w.db path ≡ done e
      → is_unverified v e ≡ true
      → head_object_info v.bucket v.prefix w.objects path ≡ err m
      → head_object_info v.bucket v.prefix o path ≡ ok info
      → lt64 0 info.size ≡ true
      → (file_attr v w path first now ≡ (done (entry_file_attr path e), some e, w))
        × Settles v path
            (verified e info retry)
            (file_attr v
              (record (file_attr v w path first now).2 { objects = o })
              path
              second
              retry)
            o'
            third
            later
  file_attr_retries w e m now retry later first second third o o' info got unknown fails h full =
      let same = unanswered w e first m now got unknown fails in
      (
        same,
        subst
            (λ r.
              Settles v path (verified e info retry)
                (file_attr v (record r.2 { objects = o }) path second retry) o' third later)
            (sym same)
            (answered-Settles (record w { objects = o }) e info retry got second third o' later
              unknown h full),
      )
