-- ===== src/S3client.antt =====
-- s3client/client.go: the calls of the S3 SDK, with the configured prefix in front of each key. The
-- SDK is no code of the repository: its calls on the bucket are parameters.
pub mod Laws
pub mod Queries
use s3_2_smb.Base.{
  ℕ, Bytes, Bool, false, Option, none, some, List, [], ◌∷◌, ◌++◌, codes, if◌then◌else◌, Result,
  ◌==◌,
}
use s3_2_smb.Metadata.Paths.{is_empty}

-- What the SDK's HeadObject gives; a nil field is none, or no field here where the code takes its
-- value unasked.
pub record Head : Type 0 where
  pub content_length : ℕ
  pub last_modified : ℕ
  pub content_type : Option Bytes
  pub version_id : Option Bytes
  pub etag : Option Bytes

-- An object and a page of the SDK's ListObjectsV2, and what it is asked for.
pub record Listed : Type 0 where
  pub key : Bytes
  pub size : ℕ
  pub last_modified : ℕ
  pub etag : Option Bytes

pub record ListPage : Type 0 where
  pub contents : List Listed
  pub common_prefixes : List Bytes
  pub next_continuation_token : Option Bytes

pub record ListInput : Type 0 where
  pub max_keys : ℕ
  pub prefix : Option Bytes
  pub delimiter : Option Bytes
  pub continuation_token : Option Bytes

-- What the bucket holds and whether it can be asked is its state.
pub record Bucket : Type 1 where
  pub State : Type 0
  -- the contents: the bytes of a key
  pub object : State → Bytes → Option Bytes
  -- what the body gives, which is a part of the object where the connection breaks
  pub get_object : State → Bytes → Result Bytes
  pub head_object : State → Bytes → Result Head
  pub list_objects_v2 : State → ListInput → Result ListPage
  -- the key and the Range header
  pub get_range : State → Bytes → Bytes → Result Bytes
  -- the error text, if any, and what the bucket holds then
  pub put_object : State → Bytes → Bytes → Option Bytes × State
  -- the same with a ContentLength: the key, the body and the length
  pub put_sized : State → Bytes → Bytes → ℕ → Option Bytes × State
  pub delete_object : State → Bytes → Option Bytes × State
  -- the source, then the destination
  pub copy_object : State → Bytes → Bytes → Option Bytes × State

unfoldable pub get_full_key : Bytes → Bytes → Bytes
get_full_key prefix key =
    if is_empty prefix then key else if is_empty key then prefix else (prefix ++ b'/' ∷ []) ++ key

-- fmt.Errorf of what failed on a key.
abbrev pub failure : Bytes → Bytes → Option Bytes → Option Bytes
failure what key none = none
failure what key (some m) = some (what ++ (key ++ (codes ": " ++ m)))

unfoldable pub ends_in_slash : Bytes → Bool
ends_in_slash [] = false
ends_in_slash (c ∷ []) = c == b'/'
ends_in_slash (c ∷ x ∷ s) = ends_in_slash (x ∷ s)

-- The key of a directory's marker.
unfoldable pub marker_key : Bytes → Bytes → Bytes
unfolding get_full_key ends_in_slash
marker_key prefix key =
    let k = get_full_key prefix key in
    if is_empty k then k else if ends_in_slash k then k else k ++ b'/' ∷ []

module _ (b : Bucket) (prefix : Bytes) where
  unfoldable pub put_object_from_reader : b.State → Bytes → Bytes → ℕ → Option Bytes × b.State
  unfolding get_full_key
  put_object_from_reader s key body size =
      let (e, s') = b.put_sized s (get_full_key prefix key) body size in
      (failure (codes "failed to put object ") (get_full_key prefix key) e, s')

  unfoldable pub delete_object : b.State → Bytes → Option Bytes × b.State
  unfolding get_full_key
  delete_object s key =
      let (e, s') = b.delete_object s (get_full_key prefix key) in
      (failure (codes "failed to delete object ") (get_full_key prefix key) e, s')

  unfoldable pub copy_object : b.State → Bytes → Bytes → Option Bytes × b.State
  unfolding get_full_key
  copy_object s src dst =
      let (e, s') = b.copy_object s (get_full_key prefix src) (get_full_key prefix dst) in
      (
        failure (codes "failed to copy object ")
            (get_full_key prefix src ++ (codes " to " ++ get_full_key prefix dst)) e,
        s',
      )

  unfoldable pub create_directory : b.State → Bytes → Option Bytes × b.State
  unfolding marker_key
  create_directory s key =
      let (e, s') = b.put_object s (marker_key prefix key) [] in
      (failure (codes "failed to create directory ") (marker_key prefix key) e, s')

  -- The bytes of an object. The text of an error stays bare, as the one caller here only logs it.
  unfoldable pub get_object : b.State → Bytes → Result Bytes
  unfolding get_full_key
  get_object s key = b.get_object s (get_full_key prefix key)
