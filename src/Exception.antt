-- ===== src/Exception.antt =====
-- internal/exception/exception.go: repository-owned suppressions of findings that expire.
pub mod Load
pub mod Apply
pub mod Expiry
use Prim.Native.String.{◌++◌ as append, len}
use clusterproof.Prelude.{
  ℕ, suc, ◌+◌, String, Bool, true, false, not, ◌&&◌, ◌||◌, Option, none, some, List, [], ◌∷◌, ◌==◌,
  if◌then◌else◌, ltb, leb, length, any, Result, ok, err, ◌>>=◌, ◌>>◌, refuse,
}
use clusterproof.Text.Space.{is_blank}
use clusterproof.Text.Search.{contains_any}
use clusterproof.Text.Keys.{nul_join}
use clusterproof.Text.Order.{str_lt}
use clusterproof.Maps.{Map, get, put, Ranging}
use clusterproof.Sorting.Orders.{then_by, by_text}
use clusterproof.Sorting.Interface.{Sorter}
use clusterproof.Time.{parse_date, day_length}
use clusterproof.Files.{File, FileError, read_regular}
use clusterproof.Model.{Finding, SuppressedFinding, Location}

pub record Limits : Type 0 where
  pub max_file_bytes : ℕ
  pub max_entries : ℕ
  pub max_text_bytes : ℕ

unfoldable pub default_limits : Limits
default_limits = record { max_file_bytes = 1048576; max_entries = 500; max_text_bytes = 1000 }

pub record Exception : Type 0 where
  pub rule_id : String
  pub target : String
  pub owner : String
  pub reason : String
  pub expires : String

pub record ExceptionFile : Type 0 where
  pub schema_version : String
  pub exceptions : List Exception

-- The YAML library: the first document of a file, decoded without unknown fields, and whether
-- nothing follows it.
pub record Yaml : Type 0 where
  pub decode : List ℕ → Option ExceptionFile
  pub at_end : List ℕ → Bool

pub data EntryError : Type 0 where
  required too_long has_control : String → EntryError
  bad_date : EntryError

pub data LoadError : Type 0 where
  limits_not_positive malformed several_documents no_exceptions : LoadError
  file : FileError → LoadError
  unsupported_version : String → LoadError
  too_many : ℕ → LoadError
  invalid_entry : ℕ → EntryError → LoadError
  duplicate : ℕ → String → String → LoadError

abbrev no_control : String
no_control = "\0\n\r"

-- One round of the loop over the named fields.
unfoldable pub check_field : ℕ → String × String → Result EntryError (Unit {0})
check_field max_text (name, value) = do
  refuse (is_blank value) (required name)
  refuse (ltb max_text (len value)) (too_long name)
  refuse (contains_any value no_control) (has_control name)

unfoldable pub check_fields : ℕ → List (String × String) → Result EntryError (Unit {0})
unfolding check_field
check_fields max_text [] = ok tt
check_fields max_text (f ∷ fs) = do check_field max_text f; check_fields max_text fs

abbrev entry_fields : Exception → List (String × String)
entry_fields e =
    ("rule", e.rule_id)
    ∷ ("target", e.target)
    ∷ ("owner", e.owner)
    ∷ ("reason", e.reason)
    ∷ ("expires", e.expires)
    ∷ []

module _ (R : Ranging) where
  unfoldable pub validate : Exception → ℕ → Result EntryError (Unit {0})
  unfolding check_fields
  validate entry max_text = do
    check_fields max_text (R.range (entry_fields entry))
    elim (parse_date entry.expires) [ none ↦ err bad_date | some _ ↦ ok tt ]

abbrev pub entry_key : Exception → String
entry_key e = nul_join e.rule_id e.target

-- `validate` with the position of the entry in the error.
unfoldable pub at_entry : ℕ → Result EntryError (Unit {0}) → Result LoadError (Unit {0})
at_entry index (ok u) = ok u
at_entry index (err e) = err (invalid_entry index e)

module _ (R : Ranging) where
  -- The loop of `Load`; `seen` holds the keys so far, and `index` counts from 1.
  unfoldable pub check_entries : ℕ → List String → ℕ → List Exception → Result LoadError (Unit {0})
  unfolding at_entry
  check_entries max_text seen index [] = ok tt
  check_entries max_text seen index (e ∷ es) = do
    at_entry index (validate R e max_text)
    refuse (any (λ k. k == entry_key e) seen) (duplicate index e.rule_id e.target)
    check_entries max_text (entry_key e ∷ seen) (suc index) es

abbrev or_file : {A : Type 0} → Result FileError A → Result LoadError A
or_file (ok a) = ok a
or_file (err e) = err (LoadError.file e)

abbrev or_err : {A : Type 0} → LoadError → Option A → Result LoadError A
or_err e none = err e
or_err e (some a) = ok a

module _ (R : Ranging) where
  -- The checks behind the decoding.
  unfoldable pub accept : Limits → ExceptionFile → Result LoadError (List Exception)
  unfolding check_entries
  accept limits parsed = do
    refuse (not (parsed.schema_version == "1")) (unsupported_version parsed.schema_version)
    refuse (not (ltb 0 (length parsed.exceptions))) no_exceptions
    refuse (ltb limits.max_entries (length parsed.exceptions)) (too_many limits.max_entries)
    check_entries R limits.max_text_bytes [] 1 parsed.exceptions
    ok parsed.exceptions

abbrev some_limit_zero : Limits → Bool
some_limit_zero limits =
    not (ltb 0 limits.max_file_bytes)
    || not (ltb 0 limits.max_entries)
    || not (ltb 0 limits.max_text_bytes)

module _ (R : Ranging) (yaml : Yaml) where
  unfoldable pub load : File → Limits → Result LoadError (List Exception)
  unfolding accept
  load f limits = do
    refuse (some_limit_zero limits) limits_not_positive
    bytes ← or_file (read_regular f limits.max_file_bytes)
    parsed ← or_err malformed (yaml.decode bytes)
    refuse (not (yaml.at_end bytes)) several_documents
    accept R limits parsed

-- An entry whose date is well formed and not over: it expires at the end of its day.
pub is_active : ℕ → Exception → Bool
is_active now e = elim (parse_date e.expires) [
  | none ↦ false
  | some expiry ↦ ltb now (expiry + day_length)
]

-- The map `active`; a later entry replaces an earlier one of the same key.
pub activate : ℕ → Map Exception → List Exception → Map Exception
unfolding is_active
activate now active [] = active
activate now active (e ∷ es) =
    activate now (if is_active now e then put (entry_key e) e active else active) es

unfoldable pub suppress : Finding → Exception → SuppressedFinding
suppress f e = record {
  rule_id = f.id;
  severity = f.severity;
  target = f.target;
  owner = e.owner;
  reason = e.reason;
  expires = e.expires;
  location = record {
    path = f.location.path;
    document = 0;
    line = 0;
    resource = "";
    container = f.location.container;
  };
}

abbrev pub finding_key : Finding → String
finding_key f = nul_join f.id f.target

-- The loop over the findings.
unfoldable pub partition : Map Exception → List Finding → List Finding × List SuppressedFinding
unfolding suppress
partition active [] = ([], [])
partition active (f ∷ fs) =
    let (kept, suppressed) = partition active fs in
    elim (get (finding_key f) active) [
      | none ↦ (f ∷ kept, suppressed)
      | some e ↦ (kept, suppress f e ∷ suppressed)
    ]

abbrev pub suppressed_order : SuppressedFinding → SuppressedFinding → Bool
suppressed_order =
    then_by (λ s. s.rule_id) (then_by (λ s. s.target) (by_text (λ s. s.location.container)))

module _ (S : Sorter) where
  unfoldable pub apply : List Finding → List Exception → ℕ → List Finding × List SuppressedFinding
  unfolding partition activate
  apply findings [] now = (findings, [])
  apply findings (e ∷ es) now =
      let (kept, suppressed) = partition (activate now [] (e ∷ es)) findings in
      (kept, S.sort suppressed_order suppressed)
