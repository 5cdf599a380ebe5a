-- ===== src/Trust.antt =====
-- internal/trust/trust.go: the trust policy, its validation and its questions.
pub mod Valid
use Prim.Native.String.{len}
use clusterproof.Prelude.{
  ℕ, suc, String, Bool, true, false, not, ◌&&◌, ◌||◌, Option, none, some, List, [], ◌∷◌, ◌==◌,
  if◌then◌else◌, ltb, leb, length, any, Result, ok, err, ◌>>=◌, ◌>>◌, refuse,
}
use clusterproof.Text.Space.{is_blank}
use clusterproof.Text.Search.{contains, contains_any, has_prefix}
use clusterproof.Text.Order.{str_lt}
use clusterproof.Sorting.Interface.{Sorter}
use clusterproof.Sorting.Orders.{then_by, by_text}
use clusterproof.Files.{File, FileError, read_regular}

pub record Limits : Type 0 where
  pub max_file_bytes : ℕ
  pub max_identities : ℕ
  pub max_keys : ℕ
  pub max_predicates : ℕ
  pub max_text_bytes : ℕ

abbrev pub default_limits : Limits
default_limits = record {
  max_file_bytes = 1048576;
  max_identities = 100;
  max_keys = 100;
  max_predicates = 50;
  max_text_bytes = 2000;
}

pub record Identity : Type 0 where
  pub subject : String
  pub issuer : String

pub record Key : Type 0 where
  pub name : String
  pub public_key_pem : String
  pub path : String

pub record Provenance : Type 0 where
  pub builder_id : String
  pub source_repository : String

pub record Policy : Type 0 where
  pub schema_version : String
  pub identities : List Identity
  pub keys : List Key
  pub provenance : Option Provenance
  pub allowed_predicate_types : List String

-- The YAML library, as `exception.Load` uses it.
pub record Yaml : Type 0 where
  pub decode : List ℕ → Option Policy
  pub at_end : List ℕ → Bool

pub data TextError : Type 0 where
  required too_long has_control : String → TextError

pub data EntryError : Type 0 where
  bad_text : TextError → EntryError
  not_https : EntryError
  key_source private_key not_public_key : String → EntryError

pub data PolicyError : Type 0 where
  limits_not_positive malformed several_documents no_signer empty_provenance : PolicyError
  file : FileError → PolicyError
  unsupported_version : String → PolicyError
  too_many_identities too_many_keys too_many_predicates : ℕ → PolicyError
  bad_identity bad_key bad_predicate : ℕ → EntryError → PolicyError

unfoldable pub require_text : String → String → ℕ → Result EntryError (Unit {0})
require_text field value max_bytes = do
  refuse (is_blank value) (bad_text (required field))
  refuse (ltb max_bytes (len value)) (bad_text (too_long field))
  refuse (contains_any value "\0\r") (bad_text (has_control field))

unfoldable pub check_identity : ℕ → Identity → Result EntryError (Unit {0})
unfolding require_text
check_identity max_bytes identity = do
  require_text "identities.subject" identity.subject max_bytes
  require_text "identities.issuer" identity.issuer max_bytes
  refuse (not (has_prefix identity.issuer "https://")) not_https

abbrev same : Bool → Bool → Bool
same true b = b
same false b = not b

unfoldable pub check_key : ℕ → Key → Result EntryError (Unit {0})
unfolding require_text
check_key max_bytes key = do
  require_text "keys.name" key.name max_bytes
  let has_pem = not (is_blank key.public_key_pem)
  let has_path = not (is_blank key.path)
  refuse (same has_pem has_path) (key_source key.name)
  refuse (has_pem && contains key.public_key_pem "PRIVATE KEY") (private_key key.name)
  refuse (has_pem && not (contains key.public_key_pem "BEGIN PUBLIC KEY")) (not_public_key key.name)

unfoldable pub check_predicate : ℕ → String → Result EntryError (Unit {0})
unfolding require_text
check_predicate max_bytes predicate = do
  require_text "allowed_predicate_types" predicate max_bytes
  refuse (not (has_prefix predicate "https://")) not_https

-- An error with the position of its entry.
abbrev at_entry :
    (EntryError → PolicyError) → Result EntryError (Unit {0}) → Result PolicyError (Unit {0})
at_entry wrap (ok u) = ok u
at_entry wrap (err e) = err (wrap e)

-- A loop over entries; `index` counts from 1.
unfoldable pub check_entries :
    {A : Type 0}
    → (ℕ → EntryError → PolicyError)
    → (A → Result EntryError (Unit {0}))
    → ℕ
    → List A
    → Result PolicyError (Unit {0})
check_entries wrap check index [] = ok tt
check_entries wrap check index (x ∷ xs) = do
  at_entry (wrap index) (check x)
  check_entries wrap check (suc index) xs

abbrev pins_nothing : Option Provenance → Bool
pins_nothing none = false
pins_nothing (some p) = p.builder_id == "" && p.source_repository == ""

unfoldable pub validate : Policy → Limits → Result PolicyError (Unit {0})
unfolding check_entries check_identity check_key check_predicate
validate policy limits = do
  refuse (not (policy.schema_version == "1")) (unsupported_version policy.schema_version)
  refuse (not (ltb 0 (length policy.identities)) && not (ltb 0 (length policy.keys))) no_signer
  refuse (ltb limits.max_identities (length policy.identities))
      (too_many_identities limits.max_identities)
  refuse (ltb limits.max_keys (length policy.keys)) (too_many_keys limits.max_keys)
  refuse (ltb limits.max_predicates (length policy.allowed_predicate_types))
      (too_many_predicates limits.max_predicates)
  check_entries bad_identity (check_identity limits.max_text_bytes) 1 policy.identities
  check_entries bad_key (check_key limits.max_text_bytes) 1 policy.keys
  check_entries bad_predicate (check_predicate limits.max_text_bytes) 1
      policy.allowed_predicate_types
  refuse (pins_nothing policy.provenance) empty_provenance

abbrev pub identity_order : Identity → Identity → Bool
identity_order = then_by (λ i. i.subject) (by_text (λ i. i.issuer))

abbrev or_file : {A : Type 0} → Result FileError A → Result PolicyError A
or_file (ok a) = ok a
or_file (err e) = err (PolicyError.file e)

abbrev or_malformed : Option Policy → Result PolicyError Policy
or_malformed none = err malformed
or_malformed (some policy) = ok policy

module _ (S : Sorter) where
  unfoldable pub normalize : Policy → Policy
  normalize policy = record policy {
    identities = S.sort identity_order policy.identities;
    keys = S.sort (by_text (λ k. k.name)) policy.keys;
    allowed_predicate_types = S.sort str_lt policy.allowed_predicate_types;
  }

module _ (S : Sorter) (yaml : Yaml) where
  unfoldable pub parse : List ℕ → Limits → Result PolicyError Policy
  unfolding validate normalize
  parse data_bytes limits = do
    policy ← or_malformed (yaml.decode data_bytes)
    refuse (not (yaml.at_end data_bytes)) several_documents
    validate policy limits
    ok (normalize S policy)

  unfoldable pub load : File → Limits → Result PolicyError Policy
  unfolding parse
  load f limits = do
    refuse
        (leb limits.max_file_bytes 0
          || (leb limits.max_identities 0
              || (leb limits.max_keys 0
                  || (leb limits.max_predicates 0 || leb limits.max_text_bytes 0))))
        limits_not_positive
    data_bytes ← or_file (read_regular f limits.max_file_bytes)
    parse data_bytes limits

unfoldable pub allows_predicate : Policy → String → Bool
allows_predicate p predicate_type =
    any (λ allowed. allowed == predicate_type) p.allowed_predicate_types

pub matches_identity : Policy → String → String → Bool
matches_identity p subject issuer =
    any (λ i. i.subject == subject && i.issuer == issuer) p.identities
