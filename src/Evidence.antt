-- ===== src/Evidence.antt =====
-- internal/evidence/evidence.go: the verification of a bundle. A directory is what the operating system
-- answers for it; the JSON decoder and SHA-256 are parameters, and a digest is its hexadecimal text.
pub mod Controls
pub mod Intact
pub mod Write
pub mod Signature
use Prim.Native.Char.{code}
use Prim.Native.String.{◌∷◌ as cons, [] as empty}
use clusterproof.Prelude.{
  ℕ, ◌+◌, ◌-◌, ◌*◌, String, ◌≡◌, refl, Bool, true, false, not, ◌&&◌, ◌||◌, Option, none, some, List,
  [], ◌∷◌, ◌==◌, if◌then◌else◌, ltb, leb, nat_eq, any, count_if, length, is_none, has_value, ℤ, pos,
  negsuc, Result, ok, err, ◌>>=◌, ◌>>◌, refuse,
}
use clusterproof.Text.Chars.{to_lower}
use clusterproof.Text.Search.{split_last}
use clusterproof.Files.{Stat, File, FileError, read_regular}

pub record BundleFile : Type 0 where
  pub path : String
  pub sha256 : String
  pub bytes : ℤ

pub record BundleManifest : Type 0 where
  pub algorithm : String
  pub files : List BundleFile

pub record VerifyLimits : Type 0 where
  pub max_manifest_bytes : ℕ
  pub max_files : ℕ
  pub max_file_bytes : ℕ
  pub max_total_bytes : ℕ

abbrev pub default_verify_limits : VerifyLimits
default_verify_limits = record {
  max_manifest_bytes = 1048576;
  max_files = 32;
  max_file_bytes = 209715200;
  max_total_bytes = 524288000;
}

-- An entry of a directory: `os.DirEntry`.
pub record Entry : Type 0 where
  pub name : String
  pub symlink : Bool
  pub regular : Bool

-- `os.Lstat` of a directory, `os.ReadDir`, and the files below it with the sizes that `os.Lstat` tells.
pub record Directory : Type 0 where
  pub stat : Option Stat
  pub entries : Option (List Entry)
  pub file : String → File
  pub size : String → ℕ

-- `json.Decoder` with unknown fields refused: the first value, and whether the input ends behind it.
pub record Decoder (A : Type 0) : Type 0 where
  pub decode : List ℕ → Option A
  pub at_end : List ℕ → Bool

pub data BundleError : Type 0 where
  limits_not_positive not_inspected not_a_directory bad_manifest trailing_content cannot_list
        wrong_count :
      BundleError
  manifest_file : FileError → BundleError
  unsupported_algorithm : String → BundleError
  bad_file_count too_large : ℕ → BundleError
  unsafe_path duplicate_path bad_hash bad_size untracked not_regular missing cannot_open cannot_hash
        broken :
      String → BundleError

abbrev pub manifest_name : String
manifest_name = "bundle-manifest.json"

trim_slashes : String → String
trim_slashes empty = empty
trim_slashes (cons c s) =
    let rest = trim_slashes s in if rest == "" && nat_eq (code c) b'/' then empty else cons c rest

-- filepath.Base
base : String → String
unfolding trim_slashes split_last
base s =
    if s == ""
    then "."
    else if trim_slashes s == ""
    then "/"
    else elim (split_last b'/' (trim_slashes s)) [
      | none ↦ trim_slashes s
      | some (before, after) ↦ after
    ]

unfoldable pub is_unsafe : String → Bool
unfolding base
is_unsafe path = not (base path == path) || path == "." || path == "" || path == manifest_name

hex_digit : ℕ → Option ℕ
hex_digit c =
    if leb b'0' c && leb c b'9'
    then some (c - b'0')
    else if leb b'a' c && leb c b'f'
    then some (c - b'a' + 10)
    else if leb b'A' c && leb c b'F'
    then some (c - b'A' + 10)
    else none

abbrev hex_byte : Option ℕ → Option ℕ → Option (List ℕ) → Option (List ℕ)
hex_byte (some high) (some low) (some bytes) = some ((16 * high + low) ∷ bytes)
hex_byte _ _ _ = none

-- hex.DecodeString
hex_decode : String → Option (List ℕ)
unfolding hex_digit
hex_decode empty = some []
hex_decode (cons c empty) = none
hex_decode (cons c (cons d s)) = hex_byte (hex_digit (code c)) (hex_digit (code d)) (hex_decode s)

-- The test on a recorded hash, the other way round.
unfoldable pub is_digest : String → Bool
unfolding hex_decode
is_digest text =
    has_value (λ bytes. nat_eq (length bytes) 32) (hex_decode text) && to_lower text == text

-- The size of a file, if it is not negative and within the limit.
abbrev pub size_within : ℕ → ℤ → Option ℕ
size_within max (pos n) = if ltb max n then none else some n
size_within max (negsuc n) = none

-- The loop over the recorded files: `seen` holds the paths of `expected`, and `total` is `totalBytes`.
unfoldable pub check_files :
    VerifyLimits → List String → ℕ → List BundleFile → Result BundleError (Unit {0})
unfolding is_unsafe is_digest
check_files limits seen total [] = ok tt
check_files limits seen total (f ∷ fs) = do
  refuse (is_unsafe f.path) (unsafe_path f.path)
  refuse (any (λ p. p == f.path) seen) (duplicate_path f.path)
  refuse (not (is_digest f.sha256)) (bad_hash f.path)
  elim (size_within limits.max_file_bytes f.bytes) [
    | none ↦ err (bad_size f.path)
    | some bytes ↦ do
      refuse (ltb limits.max_total_bytes (total + bytes)) (too_large limits.max_total_bytes)
      check_files limits (f.path ∷ seen) (total + bytes) fs
  ]

abbrev pub is_member : List String → String → Bool
is_member names name = any (λ n. n == name) names

-- The loop over the entries of the directory.
unfoldable pub check_listing :
    List BundleFile → List String → List Entry → Result BundleError (Unit {0})
check_listing files extra [] = ok tt
check_listing files extra (e ∷ es) =
    let rest = check_listing files extra es in
    if e.name == manifest_name then rest else do
      refuse (not (is_member extra e.name) && not (any (λ f. f.path == e.name) files))
          (untracked e.name)
      refuse (e.symlink || not e.regular) (not_regular e.name)
      rest

abbrev pub is_size : ℤ → ℕ → Bool
is_size (pos n) size = nat_eq size n
is_size (negsuc n) size = false

abbrev or_file : {A : Type 0} → Result FileError A → Result BundleError A
or_file (ok a) = ok a
or_file (err e) = err (manifest_file e)

abbrev or_err : {A : Type 0} → BundleError → Option A → Result BundleError A
or_err e none = err e
or_err e (some a) = ok a

-- The names of the allowed extra files that are there.
abbrev pub extras_in : List String → List Entry → ℕ
extras_in extra = count_if (λ e. is_member extra e.name)

module _ (digest : List ℕ → String) where
  -- One round of the last loop: the file on the disk against its record. There is no content where copying
  -- it to the hash or closing the file fails.
  unfoldable pub check_content : Directory → BundleFile → Result BundleError (Unit {0})
  check_content d f = elim (d.file f.path).stat [
    | none ↦ err (missing f.path)
    | some s ↦ do
      refuse (s.symlink || not s.regular) (not_regular f.path)
      refuse (not (is_size f.bytes (d.size f.path))) (broken f.path)
      refuse (not (d.file f.path).opened) (cannot_open f.path)
      elim (d.file f.path).content [
        | none ↦ err (cannot_hash f.path)
        | some bytes ↦
            refuse (not (is_size f.bytes (length bytes)) || not (digest bytes == f.sha256))
              (broken f.path)
      ]
  ]

  unfoldable pub check_contents : Directory → List BundleFile → Result BundleError (Unit {0})
  unfolding check_content
  check_contents d [] = ok tt
  check_contents d (f ∷ fs) = do check_content d f; check_contents d fs

  -- What follows once the manifest is decoded.
  unfoldable pub check_bundle :
      VerifyLimits → List String → Directory → BundleManifest → Result BundleError (Unit {0})
  unfolding check_files check_listing check_contents
  check_bundle limits extra d manifest = do
    refuse (not (manifest.algorithm == "SHA-256")) (unsupported_algorithm manifest.algorithm)
    refuse (nat_eq (length manifest.files) 0 || ltb limits.max_files (length manifest.files))
        (bad_file_count limits.max_files)
    check_files limits [] 0 manifest.files
    entries ← or_err cannot_list d.entries
    refuse (not (nat_eq (length entries) (length manifest.files + 1 + extras_in extra entries)))
        wrong_count
    check_listing manifest.files extra entries
    check_contents d manifest.files

module _ (json : Decoder BundleManifest) where
  -- The manifest of a directory.
  unfoldable pub read_manifest : VerifyLimits → Directory → Result BundleError BundleManifest
  read_manifest limits d = do
    bytes ← or_file (read_regular (d.file manifest_name) limits.max_manifest_bytes)
    manifest ← or_err bad_manifest (json.decode bytes)
    refuse (not (json.at_end bytes)) trailing_content
    ok manifest

module _ (digest : List ℕ → String) (json : Decoder BundleManifest) where
  unfoldable pub verify_bundle_extra :
      VerifyLimits → List String → Directory → Result BundleError (Unit {0})
  unfolding read_manifest check_bundle
  verify_bundle_extra limits extra d = do
    refuse
        (not (ltb 0 limits.max_manifest_bytes)
          || not (ltb 0 limits.max_files)
          || not (ltb 0 limits.max_file_bytes)
          || not (ltb 0 limits.max_total_bytes))
        limits_not_positive
    stat ← or_err not_inspected d.stat
    refuse (stat.symlink || not stat.directory) not_a_directory
    manifest ← read_manifest json limits d
    check_bundle digest limits extra d manifest

  unfoldable pub verify_bundle : Directory → Result BundleError (Unit {0})
  unfolding verify_bundle_extra
  verify_bundle d = verify_bundle_extra default_verify_limits [] d

based : base "a/b/scan.json//" ≡ "scan.json"
unfolding base
based = refl

root : base "//" ≡ "/"
unfolding base
root = refl
