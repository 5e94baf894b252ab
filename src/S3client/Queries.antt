-- ===== src/S3client/Queries.antt =====
-- s3client/client.go: the calls that ask for an object's header, for a part of it, or for a listing.
use s3_2_smb.Base.{
  ℕ, ◌-◌, Bytes, ◌≡◌, ◌≢◌, inl, inr, Bool, true, false, ◌||◌, Option, none, some, List, [], ◌∷◌,
  ◌++◌, codes, eqb, ltb, if◌then◌else◌, Result, ok, err, sub64, add64, Bool-cases, Result-cases,
  word, sign,
}
use s3_2_smb.Base.Digits.{print_number}
use s3_2_smb.Metadata.Paths.{is_empty}
use s3_2_smb.S3client.{Bucket, Listed, get_full_key, marker_key}

pub record ObjectInfo : Type 0 where
  pub key : Bytes
  pub size : ℕ
  pub etag : Bytes
  pub last_modified : ℕ
  pub content_type : Bytes
  pub version_id : Bytes
  pub is_directory : Bool

-- A pointer's value, empty for nil.
abbrev pub text_of : Option Bytes → Bytes
text_of none = []
text_of (some t) = t

abbrev pub given : Bytes → Option Bytes
given t = if is_empty t then none else some t

-- fmt's %d of an int64.
unfoldable pub print_int64 : ℕ → Bytes
unfolding print_number
print_int64 p = if ltb p sign then print_number 10 p else b'-' ∷ print_number 10 (word - p)

module _ (b : Bucket) (prefix : Bytes) where
  unfoldable pub head_object_info : b.State → Bytes → Result ObjectInfo
  unfolding get_full_key
  head_object_info s key = elim (b.head_object s (get_full_key prefix key)) [
    | err m ↦ err (codes "failed to head object " ++ (get_full_key prefix key ++ (codes ": " ++ m)))
    | ok h ↦ ok (record {
      key = key;
      size = h.content_length;
      etag = text_of h.etag;
      last_modified = h.last_modified;
      content_type = text_of h.content_type;
      version_id = text_of h.version_id;
      is_directory = false;
    })
  ]

  -- The two ends of a part.
  unfoldable pub range_text : ℕ → ℕ → Bytes
  unfolding print_int64
  range_text offset length =
      print_int64 offset ++ b'-' ∷ print_int64 (sub64 (add64 offset length) 1)

  -- The body is read whole; an error of that has the SDK's text too.
  unfoldable pub get_object_chunk : b.State → Bytes → ℕ → ℕ → Result Bytes
  unfolding get_full_key range_text
  get_object_chunk s key offset length =
      elim (b.get_range s (get_full_key prefix key) (codes "bytes=" ++ range_text offset length)) [
        | ok body ↦ ok body
        | err m ↦ err (
            codes "failed to get object chunk "
            ++ (get_full_key prefix key
                ++ (codes " [" ++ (range_text offset length ++ (codes "]: " ++ m)))))
      ]

  -- A size above 1 GB is asked for again.
  unfoldable pub listed_size : b.State → Listed → ℕ
  listed_size s o =
      if ltb 1073741824 o.size
      then (elim (b.head_object s o.key) [ err _ ↦ o.size | ok h ↦ h.content_length ])
      else o.size

  abbrev pub listed_info : b.State → Listed → ObjectInfo
  listed_info s o = record {
    key = o.key;
    size = listed_size s o;
    etag = text_of o.etag;
    last_modified = o.last_modified;
    content_type = [];
    version_id = [];
    is_directory = false;
  }

  -- The objects of a page but the prefix itself.
  unfoldable pub list_infos : b.State → Bytes → List Listed → List ObjectInfo
  unfolding listed_size
  list_infos s full_prefix [] = []
  list_infos s full_prefix (o ∷ os) =
      let rest = list_infos s full_prefix os in
      if eqb o.key full_prefix then rest else listed_info s o ∷ rest

  -- The objects, the directories, and the next token.
  unfoldable pub list_objects :
      b.State → Bytes → Bytes → ℕ → Bytes → Result (List ObjectInfo × List Bytes × Bytes)
  unfolding marker_key list_infos is_empty
  list_objects s dir delimiter max_keys continuation_token =
      let full_prefix = marker_key prefix dir in
      elim (b.list_objects_v2 s (record {
        max_keys = max_keys;
        prefix = given full_prefix;
        delimiter = given delimiter;
        continuation_token = given continuation_token;
      })) [
        | err m ↦ err (codes "failed to list objects: " ++ m)
        | ok page ↦ ok (
          list_infos s full_prefix page.contents,
          page.common_prefixes,
          text_of page.next_continuation_token,
        )
      ]

  -- The error of HeadObjectInfo is a wrapped one: it is no `*types.NotFound` itself, and the variable
  -- `notFound` stays nil.
  unfoldable pub object_exists : b.State → Bytes → Result Bool
  unfolding head_object_info is_empty eqb
  object_exists s key =
      if is_empty key then err (codes "key cannot be empty") else (elim (head_object_info s key) [
        | ok _ ↦ ok true
        | err m ↦ if eqb m (codes "NotFound") || eqb m (codes "NoSuchKey") then ok false else err m
      ])

  -- The error text, if any.
  unfoldable pub bucket_exists : b.State → Bytes → Option Bytes
  bucket_exists s bucket =
      elim (b.list_objects_v2 s
        (record { max_keys = 1; prefix = none; delimiter = none; continuation_token = none })) [
          | err m ↦ some (codes "failed to access bucket " ++ (bucket ++ (codes ": " ++ m)))
          | ok _ ↦ none
        ]

  head_error :
      (s : b.State) (key m : Bytes)
      → head_object_info s key ≡ err m
      → (t : Bytes) × (m ≡ codes "failed to head object " ++ t)
  unfolding head_object_info
  head_error s key m = elim (Result-cases (b.head_object s (get_full_key prefix key))) [
    | inl c ↦ let (x, h) = c in rw (head_object_info, h) (λ k. absurd (cc))
    | inr c ↦
        let (x, h) = c in
        rw (head_object_info, h) (λ k. (get_full_key prefix key ++ (codes ": " ++ x), cc))
  ]

  -- ObjectExists never says that an object is not there: it returns true, or an error.
  pub object_exists_lem : (s : b.State) (key : Bytes) → object_exists s key ≢ ok false
  unfolding object_exists eqb
  object_exists_lem s key = elim (Bool-cases (is_empty key)) [
    | inl empty ↦ rw (object_exists, empty) (λ h. cc)
    | inr named ↦ elim (Result-cases (head_object_info s key)) [
      | inl c ↦ let (x, h) = c in rw (object_exists, h, named) (λ k. cc)
      | inr c ↦
          let (m, h) = c in
          let (t, is) = head_error s key m h in rw (object_exists, h, named, is) (λ k. cc)
    ]
  ]
