-- ===== src/Sync/Objects.antt =====
-- metadata/sync.go: the options, the listing that the SDK gives, and the path of an object. The
-- SDK's calls are parameters. A MaxKeys that is not positive is 0.
use s3_2_smb.Base.{
  ℕ, zero, suc, ◌-◌, Bytes, Bool, true, false, Option, none, some, List, [], ◌∷◌, ◌==◌, eqb,
  if◌then◌else◌, Result, ok, err, ltb, take, length,
}
use s3_2_smb.Disk.{Disk, cut_prefix}
use s3_2_smb.Metadata.Paths.{is_empty, join}
use s3_2_smb.Metadata.Database.{Database}
use s3_2_smb.S3client.{ends_in_slash}

pub record SyncOptions : Type 0 where
  pub prefix : Bytes
  pub max_keys : ℕ
  -- whether OnProgress is set
  pub on_progress : Bool
  pub clear_existing : Bool
  pub reconcile_deletions : Bool

abbrev pub default_sync_options : SyncOptions
default_sync_options = record {
  prefix = [];
  max_keys = 1000;
  on_progress = false;
  clear_existing = false;
  reconcile_deletions = true;
}

-- An object of a listing; a nil field is its zero value.
pub record Object : Type 0 where
  pub key : Bytes
  pub size : ℕ
  pub last_modified : ℕ
  pub etag : Bytes

pub record Page : Type 0 where
  pub contents : List Object
  pub is_truncated : Bool
  pub next_continuation_token : Option Bytes

-- The bucket as the SDK shows it during a run.
pub record Listing : Type 0 where
  -- prefix, MaxKeys and continuation token
  pub list_objects_v2 : Bytes → ℕ → Option Bytes → Result Page
  -- the ContentLength of a key, if it is set
  pub head_object : Bytes → Result (Option ℕ)

-- What a run meets from outside: the times that it reads, by the objects that were synchronised
-- before, and the error of the context, once it is done, before each page and each entry.
pub record Schedule : Type 0 where
  pub verified_at : ℕ → ℕ
  pub created_at : ℕ → Bytes → ℕ
  pub page_cancelled : ℕ → Option Bytes
  pub entry_cancelled : ℕ → Option Bytes

-- What a run works on: the table, the disk, the directories that it saw, the keys, if it tracks them,
-- the count, and what OnProgress was called with.
pub record Work (d : Database) : Type 0 where
  pub db : d.State
  pub disk : Disk
  pub seen_dirs : List Bytes
  pub s3_keys : Option (List Bytes)
  pub synced : ℕ
  pub reports : List (ℕ × Bool)

unfoldable pub member : Bytes → List Bytes → Bool
member p [] = false
member p (q ∷ l) = if eqb q p then true else member p l

-- strings.TrimPrefix and strings.TrimSuffix, the latter of a slash.
abbrev pub trim_prefix : Bytes → Bytes → Bytes
trim_prefix p s = elim (cut_prefix p s) [ none ↦ s | some t ↦ t ]

unfoldable pub trim_slash : Bytes → Bytes
trim_slash [] = []
trim_slash (c ∷ []) = if c == b'/' then [] else c ∷ []
trim_slash (c ∷ x ∷ s) = c ∷ trim_slash (x ∷ s)

-- The path of a key below the configured prefix.
unfoldable pub object_path : Bytes → Bytes → Bytes
object_path prefix key =
    if is_empty prefix then key else trim_prefix (b'/' ∷ []) (trim_prefix prefix key)

-- The path of its entry: a directory marker's without its slash.
unfoldable pub entry_path : Bytes → Bytes → Bytes
unfolding object_path trim_slash ends_in_slash
entry_path prefix key =
    if ends_in_slash key then trim_slash (object_path prefix key) else object_path prefix key

-- strings.Split at one byte.
unfoldable pub split : ℕ → Bytes → List Bytes
split c [] = [] ∷ []
split c (x ∷ s) = elim (split c s) [
  | [] ↦ []
  | p ∷ ps ↦ if x == c then [] ∷ p ∷ ps else (x ∷ p) ∷ ps
]

-- The first parts joined: i of them, then one more each time.
unfoldable pub dir_paths : ℕ → ℕ → List Bytes → List Bytes
unfolding join
dir_paths zero i parts = []
dir_paths (suc n) i parts = join (b'/' ∷ []) (take i parts) ∷ dir_paths n (suc i) parts

unfoldable pub parent_dirs : Bytes → List Bytes
unfolding split dir_paths
parent_dirs path = let parts = split b'/' path in dir_paths (length parts - 1) 1 parts

-- The size that is stored: a listed size above 1 GB is asked for again.
unfoldable pub object_size : Listing → Object → ℕ
object_size s o =
    if ltb 1073741824 o.size
    then (elim (s.head_object o.key) [ err _ ↦ o.size | ok none ↦ o.size | ok (some n) ↦ n ])
    else o.size
