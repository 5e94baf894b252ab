-- ===== src/Config.antt =====
-- config/config.go: the configuration, its defaults, its file, and what the environment overrides.
-- encoding/json is a parameter: what it reads from a text over a configuration, and what it prints.
pub mod Laws
use s3_2_smb.Base.{
  ℕ, zero, suc, Bytes, Bool, true, false, ◌||◌, ◌&&◌, Option, none, some, List, [], ◌∷◌, ◌++◌,
  codes, ◌==◌, leb, has_prefix, if◌then◌else◌, Result, ok, err, ℤ, pos, negsuc, is_zero,
}
use s3_2_smb.Disk.{Disk, read_file, file, make_dirs, write, cut_prefix, contains_byte}
use s3_2_smb.Metadata.Paths.{is_empty, split_last}
use s3_2_smb.Sync.Objects.{split, trim_prefix}

pub record S3Config : Type 0 where
  pub bucket : Bytes
  pub region : Bytes
  pub endpoint : Bytes
  pub profile : Bytes
  pub prefix : Bytes
  pub access_key : Bytes
  pub secret_key : Bytes

pub record Config : Type 0 where
  pub s3 : S3Config
  pub mount_point : Bytes
  pub cache_dir : Bytes
  pub db_path : Bytes
  pub chunk_size : ℤ
  pub max_cache_size : ℤ
  pub debug : Bool
  pub sync_on_start : Bool
  pub sync_interval : ℤ
  pub sync_start_timeout : ℤ
  pub writeback_idle_time : ℤ
  pub writeback_interval : ℤ
  pub cache_retention_time : ℤ

abbrev pub default_cache_dir : Bytes
default_cache_dir = codes "/var/cache/s3smb-gateway"

abbrev pub default_db_path : Bytes
default_db_path = codes "/var/lib/s3smb-gateway/metadata.db"

abbrev pub default_chunk_size : ℤ
default_chunk_size = pos 16777216

abbrev pub zero_s3 : S3Config
zero_s3 = record {
  bucket = [];
  region = [];
  endpoint = [];
  profile = [];
  prefix = [];
  access_key = [];
  secret_key = [];
}

abbrev pub new_default_config : Config
new_default_config = record {
  s3 = zero_s3;
  mount_point = [];
  cache_dir = default_cache_dir;
  db_path = default_db_path;
  chunk_size = default_chunk_size;
  max_cache_size = pos 0;
  debug = false;
  sync_on_start = false;
  sync_interval = pos 0;
  sync_start_timeout = pos 120;
  writeback_idle_time = pos 300;
  writeback_interval = pos 60;
  cache_retention_time = pos 604800;
}

-- strings.TrimSpace, of the ASCII blanks.
abbrev pub is_space : ℕ → Bool
is_space c = (leb 9 c && leb c 13) || (c == 32)

unfoldable pub trim_space_left : Bytes → Bytes
trim_space_left [] = []
trim_space_left (c ∷ s) = if is_space c then trim_space_left s else c ∷ s

unfoldable pub trim_space_right : Bytes → Bytes
unfolding is_empty
trim_space_right [] = []
trim_space_right (c ∷ s) =
    let rest = trim_space_right s in if is_empty rest && is_space c then [] else c ∷ rest

unfoldable pub trim_space : Bytes → Bytes
unfolding trim_space_left trim_space_right
trim_space s = trim_space_right (trim_space_left s)

abbrev pub with_access_key : Config → Bytes → Config
with_access_key c k = record c { s3 = record c.s3 { access_key = k } }

abbrev pub with_secret_key : Config → Bytes → Config
with_secret_key c k = record c { s3 = record c.s3 { secret_key = k } }

-- The defaults of the fields that are not set.
unfoldable pub apply_defaults : Config → Config
unfolding is_empty
apply_defaults c = record c {
  cache_dir = if is_empty c.cache_dir then default_cache_dir else c.cache_dir;
  db_path = if is_empty c.db_path then default_db_path else c.db_path;
  chunk_size = if is_zero c.chunk_size then default_chunk_size else c.chunk_size;
}

-- strings.TrimSuffix(path, filepath.Ext(path)) + ".env".
unfoldable pub env_path : Bytes → Bytes
unfolding split_last contains_byte
env_path path = elim (split_last b'.' path) [
  | none ↦ path ++ codes ".env"
  | some (before, behind) ↦ (if contains_byte b'/' behind then path else before) ++ codes ".env"
]

-- A line of the .env file.
unfoldable pub read_line : Config → Bytes → Config
unfolding has_prefix cut_prefix
read_line c line =
    if has_prefix (codes "AWS_ACCESS_KEY_ID=") line
    then with_access_key c (trim_prefix (codes "AWS_ACCESS_KEY_ID=") line)
    else if has_prefix (codes "AWS_SECRET_ACCESS_KEY=") line
    then with_secret_key c (trim_prefix (codes "AWS_SECRET_ACCESS_KEY=") line)
    else c

unfoldable pub read_lines : Config → List Bytes → Config
unfolding trim_space read_line
read_lines c [] = c
read_lines c (line ∷ lines) = read_lines (read_line c (trim_space line)) lines

-- The value of a variable, else of a second one, else what there was. A variable that is not set is
-- empty.
unfoldable pub override : (Bytes → Bytes) → Bytes → Bytes → Bytes → Bytes
unfolding is_empty trim_space
override env first second old =
    if is_empty (env first)
    then (if is_empty (env second) then old else trim_space (env second))
    else trim_space (env first)

unfoldable pub override_one : (Bytes → Bytes) → Bytes → Bytes → Bytes
unfolding is_empty trim_space
override_one env name old = if is_empty (env name) then old else trim_space (env name)

unfoldable pub load_credentials_from_env : (Bytes → Bytes) → Config → Config
unfolding override override_one
load_credentials_from_env env c = record c {
  s3 = record c.s3 {
    access_key = override env (codes "AWS_ACCESS_KEY_ID") (codes "S3_ACCESS_KEY") c.s3.access_key;
    secret_key =
        override env (codes "AWS_SECRET_ACCESS_KEY") (codes "S3_SECRET_KEY") c.s3.secret_key;
    profile = override env (codes "AWS_PROFILE") (codes "S3_PROFILE") c.s3.profile;
    region = override env (codes "AWS_REGION") (codes "S3_REGION") c.s3.region;
    bucket = override_one env (codes "S3_BUCKET") c.s3.bucket;
    endpoint = override_one env (codes "S3_ENDPOINT") c.s3.endpoint;
  };
}

-- os.ReadFile.
unfoldable pub read_whole : Disk → Bytes → Result Bytes
unfolding file
read_whole d path = elim (d.fault read_file path) [
  | some m ↦ err m
  | none ↦ elim (file d path) [ none ↦ err (codes "no such file or directory") | some c ↦ ok c ]
]

-- The .env file beside the configuration, if it can be read.
unfoldable pub read_env_file : Disk → Bytes → Config → Config
unfolding read_whole env_path split read_lines
read_env_file d path c = elim (read_whole d (env_path path)) [
  | err _ ↦ c
  | ok text ↦ read_lines c (split 10 text)
]

module _ (unmarshal : Bytes → Config → Result Config) (env : Bytes → Bytes) where
  unfoldable pub load_config : Disk → Bytes → Result Config
  unfolding read_whole apply_defaults read_env_file load_credentials_from_env
  load_config d path = elim (read_whole d path) [
    | err m ↦ err m
    | ok text ↦ elim (unmarshal text new_default_config) [
      | err m ↦ err m
      | ok c ↦ ok (load_credentials_from_env env (read_env_file d path (apply_defaults c)))
    ]
  ]

-- filepath.Dir of a clean path.
unfoldable pub dir_of : Bytes → Bytes
unfolding split_last is_empty
dir_of path = elim (split_last b'/' path) [
  | none ↦ codes "."
  | some (before, _) ↦ if is_empty before then codes "/" else before
]

-- The error text, if any, and the disk then.
unfoldable pub save : (Config → Result Bytes) → Disk → Config → Bytes → Option Bytes × Disk
unfolding dir_of make_dirs write
save marshal d c path = elim (make_dirs d (dir_of path)) [
  | some m ↦ (some m, d)
  | none ↦ elim (marshal c) [ err m ↦ (some m, d) | ok text ↦ write d path text ]
]

pub data ConfigError : Type 0 where
  err_missing_bucket err_missing_region err_missing_mount_point : ConfigError

unfoldable pub validate : Config → Option ConfigError
unfolding is_empty
validate c =
    if is_empty c.s3.bucket
    then some err_missing_bucket
    else if is_empty c.s3.region
    then some err_missing_region
    else if is_empty c.mount_point
    then some err_missing_mount_point
    else none
