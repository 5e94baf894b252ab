-- ===== src/Metadata/Entry/Posix.antt =====
-- Attributes read back as they were set, and so do the owner and the mode.
use s3_2_smb.Base.{
  ℕ, ◌^◌, zero, suc, ◌/◌, ◌%◌, ◌<◌, ◌≤◌, ◌+◌, ◌-◌, ◌*◌, Bytes, ◌≡◌, refl, ◌∙◌, ◌≢◌, some, [], ◌∷◌,
  eqb, eqb_refl, if◌then◌else◌, arith, lookup-erase, false,
}
use s3_2_smb.Base.Digits.{
  print_number, print_digits, read_digits, AllDigits, read_digits-print_number,
  print_number-AllDigits,
}
use s3_2_smb.Cache.Manager.Names.{scan_digits, scan_unsigned, skip_blanks}
use s3_2_smb.Metadata.Entry.{
  FileEntry, attributes, get_xattr, set_xattr, uid_name, gid_name, mode_name, set_posix_owner,
  get_posix_owner, set_posix_mode, get_posix_mode, scan_uint32,
}

-- After an attribute is set, that name reads the value, and every other name reads what it read
-- before.
pub get_xattr-set_xattr :
    (e : FileEntry) (name value j : Bytes)
    → get_xattr (set_xattr e name value) j ≡ (if eqb name j then some value else get_xattr e j)
unfolding get_xattr set_xattr
get_xattr-set_xattr e name value j = ground (arith, lookup-erase name j (attributes e.xattrs))

scan_digits_all : (b n : ℕ) (s : Bytes) → AllDigits b s → scan_digits b n s ≡ read_digits b n s
unfolding scan_digits read_digits
scan_digits_all b n [] h = refl
scan_digits_all b n (c ∷ s) h = ground (arith, scan_digits_all b (n * b + (c - 48)) s h.2)

skip_blanks_digits : (b : ℕ) (s : Bytes) → AllDigits b s → skip_blanks s ≡ s
unfolding skip_blanks
skip_blanks_digits b [] h = refl
skip_blanks_digits b (c ∷ s) h = ground arith

scan_some :
    (b n bound : ℕ) (s : Bytes)
    → AllDigits b s
    → s ≢ []
    → read_digits b 0 s ≡ n
    → n < bound
    → scan_unsigned b bound s ≡ some n
unfolding scan_unsigned
scan_some b n bound [] digits some_digit value small = absurd (some_digit refl)
scan_some b n bound (c ∷ s) digits some_digit value small =
    let all : scan_digits b 0 (c ∷ s) ≡ n = scan_digits_all b 0 (c ∷ s) digits ∙ value in
    ground (arith, all)

-- A text of digits is scanned as the number it stands for.
scan_all :
    (b n : ℕ) (s : Bytes)
    → AllDigits b s
    → s ≢ []
    → read_digits b 0 s ≡ n
    → n < 2 ^ 32
    → scan_uint32 b s ≡ some n
unfolding scan_uint32
scan_all b n s digits some_digit value small =
    rw (skip_blanks_digits b s digits) (scan_some b n (2 ^ 32) s digits some_digit value small)

print_digits_some : (b f n : ℕ) (rest : Bytes) → rest ≢ [] → print_digits b f n rest ≢ []
unfolding print_digits
print_digits_some b zero n rest h = h
print_digits_some b (suc f) n rest h =
    ground (arith, print_digits_some b f (n / b) ((n % b + 48) ∷ rest) (λ e. cc))

print_number_some : (b n : ℕ) → 2 ≤ b → print_number b n ≢ []
unfolding print_number print_digits
print_number_some b n base =
    ground (arith, print_digits_some b n (n / b) ((n % b + 48) ∷ []) (λ e. cc))

module _ (b : ℕ) (base : 2 ≤ b) where
  -- A number that was printed is scanned back.
  scan_uint32-print_number : (n : ℕ) → n < 2 ^ 32 → scan_uint32 b (print_number b n) ≡ some n
  scan_uint32-print_number n small =
      scan_all b n (print_number b n) (print_number-AllDigits b base n) (print_number_some b n base)
        (read_digits-print_number b base n) small

get_set_same :
    (e : FileEntry) (name value : Bytes) → get_xattr (set_xattr e name value) name ≡ some value
get_set_same e name value = get_xattr-set_xattr e name value name ∙ rw (eqb_refl name) refl

get_set_other :
    (e : FileEntry) (name value j : Bytes)
    → eqb name j ≡ false
    → get_xattr (set_xattr e name value) j ≡ get_xattr e j
get_set_other e name value j h = get_xattr-set_xattr e name value j ∙ rw h refl

gid_not_uid : eqb gid_name uid_name ≡ false
unfolding eqb
gid_not_uid = refl

uid_set :
    (e : FileEntry) (uid gid : ℕ)
    → get_xattr (set_posix_owner e uid gid) uid_name ≡ some (print_number 10 uid)
unfolding set_posix_owner
uid_set e uid gid =
    get_set_other (set_xattr e uid_name (print_number 10 uid)) gid_name (print_number 10 gid)
      uid_name gid_not_uid
    ∙ get_set_same e uid_name (print_number 10 uid)

gid_set :
    (e : FileEntry) (uid gid : ℕ)
    → get_xattr (set_posix_owner e uid gid) gid_name ≡ some (print_number 10 gid)
unfolding set_posix_owner
gid_set e uid gid =
    get_set_same (set_xattr e uid_name (print_number 10 uid)) gid_name (print_number 10 gid)

module _ (e : FileEntry) (u g : Bytes) (uid gid : ℕ) where
  owner_of :
      get_xattr e uid_name ≡ some u
      → get_xattr e gid_name ≡ some g
      → scan_uint32 10 u ≡ some uid
      → scan_uint32 10 g ≡ some gid
      → get_posix_owner e ≡ some (uid, gid)
  unfolding get_posix_owner
  owner_of hu hg su sg = rw (get_posix_owner, hu, hg, su, sg) refl

-- A user and a group below 2 ^ 32 that were set are read back.
pub get_posix_owner-set_posix_owner :
    (e : FileEntry) (uid gid : ℕ)
    → uid < 2 ^ 32
    → gid < 2 ^ 32
    → get_posix_owner (set_posix_owner e uid gid) ≡ some (uid, gid)
get_posix_owner-set_posix_owner e uid gid u g =
    owner_of (set_posix_owner e uid gid) (print_number 10 uid) (print_number 10 gid) uid gid
      (uid_set e uid gid) (gid_set e uid gid) (scan_uint32-print_number 10 (omega arith) uid u)
      (scan_uint32-print_number 10 (omega arith) gid g)

mode_of :
    (e : FileEntry) (m : Bytes) (mode : ℕ)
    → get_xattr e mode_name ≡ some m
    → scan_uint32 8 m ≡ some mode
    → get_posix_mode e ≡ some mode
unfolding get_posix_mode
mode_of e m mode hm sm = rw (get_posix_mode, hm, sm) refl

-- A mode below 2 ^ 32 that was set is read back.
pub get_posix_mode-set_posix_mode :
    (e : FileEntry) (mode : ℕ) → mode < 2 ^ 32 → get_posix_mode (set_posix_mode e mode) ≡ some mode
unfolding set_posix_mode
get_posix_mode-set_posix_mode e mode m =
    mode_of (set_xattr e mode_name (print_number 8 mode)) (print_number 8 mode) mode
      (get_set_same e mode_name (print_number 8 mode))
      (scan_uint32-print_number 8 (omega arith) mode m)
