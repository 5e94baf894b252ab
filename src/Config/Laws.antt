-- ===== src/Config/Laws.antt =====
-- What a configuration that is loaded or valid has.
use mathlib.Core.Path.{subst}
use s3_2_smb.Base.{
  Bytes, ◌≡◌, ◌≢◌, ◌∙◌, ◌↔◌, sym, refl, ap, inl, inr, true, false, none, List, [], ◌∷◌, codes,
  has_prefix, Result, ok, arith, Bool-cases, Result-cases, is_zero,
}
use s3_2_smb.Disk.{Disk}
use s3_2_smb.Metadata.Paths.{is_empty}
use s3_2_smb.Sync.Objects.{split}
use s3_2_smb.Config.{
  Config, new_default_config, apply_defaults, read_line, read_lines, read_env_file, read_whole,
  env_path, load_credentials_from_env, load_config, validate, trim_space,
}

pub empty_nil : (s : Bytes) → (is_empty s ≡ true) ↔ (s ≡ [])
unfolding is_empty
empty_nil [] = (λ h. refl, λ h. refl)
empty_nil (c ∷ s) = (λ h. absurd (cc), λ h. absurd (cc))

-- Validate reports no error exactly when the bucket, the region and the mount point are set.
pub validate_lem :
    (c : Config)
    → (validate c ≡ none) ↔ ((c.s3.bucket ≢ []) × (c.s3.region ≢ []) × (c.mount_point ≢ []))
unfolding validate
validate_lem c =
    ground (arith, empty_nil c.s3.bucket, empty_nil c.s3.region, empty_nil c.mount_point)

-- The fields that have a default are set.
pub record IsFilled (c : Config) : Type 0 where
  pub cache_dir : c.cache_dir ≢ []
  pub db_path : c.db_path ≢ []
  pub chunk_size : is_zero c.chunk_size ≡ false

-- A later configuration differs in the section of S3 only.
record Keeps (c c' : Config) : Type 0 where
  cache_dir : c'.cache_dir ≡ c.cache_dir
  db_path : c'.db_path ≡ c.db_path
  chunk_size : c'.chunk_size ≡ c.chunk_size

apply_defaults-IsFilled : (c : Config) → IsFilled (apply_defaults c)
unfolding apply_defaults
apply_defaults-IsFilled c = record {
  cache_dir = ground (arith, empty_nil c.cache_dir);
  db_path = ground (arith, empty_nil c.db_path);
  chunk_size = ground arith;
}

kept-IsFilled : (c c' : Config) → Keeps c c' → IsFilled c → IsFilled c'
kept-IsFilled c c' k f = record {
  cache_dir = λ h. f.cache_dir (sym k.cache_dir ∙ h);
  db_path = λ h. f.db_path (sym k.db_path ∙ h);
  chunk_size = ap is_zero k.chunk_size ∙ f.chunk_size;
}

trans-Keeps : (a b c : Config) → Keeps a b → Keeps b c → Keeps a c
trans-Keeps a b c f g = record {
  cache_dir = g.cache_dir ∙ f.cache_dir;
  db_path = g.db_path ∙ f.db_path;
  chunk_size = g.chunk_size ∙ f.chunk_size;
}

same-Keeps : (c : Config) → Keeps c c
same-Keeps c = record { cache_dir = refl; db_path = refl; chunk_size = refl }

read_line-Keeps : (c : Config) (line : Bytes) → Keeps c (read_line c line)
unfolding read_line
read_line-Keeps c line = elim (Bool-cases (has_prefix (codes "AWS_ACCESS_KEY_ID=") line)) [
  | inl access ↦
      rw (read_line, access) (record { cache_dir = refl; db_path = refl; chunk_size = refl })
  | inr other ↦ elim (Bool-cases (has_prefix (codes "AWS_SECRET_ACCESS_KEY=") line)) [
    | inl secret ↦
        rw (read_line, other, secret)
          (record { cache_dir = refl; db_path = refl; chunk_size = refl })
    | inr neither ↦ rw (read_line, other, neither) (same-Keeps c)
  ]
]

read_lines-Keeps : (c : Config) (lines : List Bytes) → Keeps c (read_lines c lines)
unfolding read_lines
read_lines-Keeps c [] = same-Keeps c
read_lines-Keeps c (line ∷ lines) =
    let c1 = read_line c (trim_space line) in
    trans-Keeps c c1 (read_lines c1 lines) (read_line-Keeps c (trim_space line))
      (read_lines-Keeps c1 lines)

read_env_file-Keeps : (d : Disk) (path : Bytes) (c : Config) → Keeps c (read_env_file d path c)
unfolding read_env_file
read_env_file-Keeps d path c = elim (Result-cases (read_whole d (env_path path))) [
  | inr x ↦ let (m, h) = x in rw (read_env_file, h) (same-Keeps c)
  | inl x ↦ let (text, h) = x in rw (read_env_file, h) (read_lines-Keeps c (split 10 text))
]

module _ (unmarshal : Bytes → Config → Result Config) (env : Bytes → Bytes) where
  env-Keeps : (c : Config) → Keeps c (load_credentials_from_env env c)
  unfolding load_credentials_from_env
  env-Keeps c = record { cache_dir = refl; db_path = refl; chunk_size = refl }

  load_inversion :
      (d : Disk) (path : Bytes) (c : Config)
      → load_config unmarshal env d path ≡ ok c
      → (text : Bytes) × (c0 : Config) × (read_whole d path ≡ ok text)
        × (unmarshal text new_default_config ≡ ok c0)
        × (c ≡ load_credentials_from_env env (read_env_file d path (apply_defaults c0)))
  unfolding load_config
  load_inversion d path c = elim (Result-cases (read_whole d path)) [
    | inr x ↦ let (m, h) = x in rw (load_config, h) (λ k. absurd (cc))
    | inl x ↦
        let (text, h) = x in
        elim (Result-cases (unmarshal text new_default_config)) [
          | inr y ↦ let (m, g) = y in rw (load_config, h, g) (λ k. absurd (cc))
          | inl y ↦ let (c0, g) = y in rw (load_config, h, g) (λ k. (text, c0, refl, g, cc))
        ]
  ]

  -- Whatever JSON, .env file and environment hold, a configuration that is loaded has a cache
  -- directory, a database path and a chunk size that is not zero.
  pub load_config-IsFilled :
      (d : Disk) (path : Bytes) (c : Config) → load_config unmarshal env d path ≡ ok c → IsFilled c
  load_config-IsFilled d path c h =
      let (text, c0, r, u, is) = load_inversion d path c h in
      let c1 = apply_defaults c0 in
      let c2 = read_env_file d path c1 in
      let c3 = load_credentials_from_env env c2 in
      let filled : IsFilled c3 =
        kept-IsFilled c1 c3 (trans-Keeps c1 c2 c3 (read_env_file-Keeps d path c1) (env-Keeps c2))
          (apply_defaults-IsFilled c0) in
      subst IsFilled (sym is) filled
