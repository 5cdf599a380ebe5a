-- ===== src/Slsa.antt =====
-- internal/slsa/slsa.go: the verification of provenance statements.
pub mod Verified
use Prim.Native.String.{◌++◌ as append}
use clusterproof.Prelude.{
  ℕ, String, Bool, true, false, not, ◌&&◌, ◌||◌, Option, none, some, List, [], ◌∷◌, ◌==◌,
  if◌then◌else◌, leb, ltb, length, any, Result, ok, err, ◌>>=◌, ◌>>◌, refuse,
}
use clusterproof.Text.Search.{has_prefix, trim_prefix}
use clusterproof.Maps.{Map, get_text}
use clusterproof.Files.{File, FileError, read_bounded}
use clusterproof.Image.{Reference, DigestError, pinned, validate_digest}
use clusterproof.Trust.{Policy, Provenance, allows_predicate}

pub record Limits : Type 0 where
  pub max_statement_bytes : ℕ
  pub max_subjects : ℕ

abbrev pub default_limits : Limits
default_limits = record { max_statement_bytes = 5242880; max_subjects = 500 }

pub record Subject : Type 0 where
  pub name : String
  pub digest : Map String

pub record ResourceDescriptor : Type 0 where
  pub uri : String
  pub digest : Map String

-- The statement, with its predicate's parts: `externalParameters` is not read.
pub record Statement : Type 0 where
  pub type : String
  pub subject : List Subject
  pub predicate_type : String
  pub resolved_dependencies : List ResourceDescriptor
  pub builder_id : String

abbrev pub supported_predicate_type : String
supported_predicate_type = "https://slsa.dev/provenance/v1"

pub data SlsaError : Type 0 where
  limits_not_positive : SlsaError
  not_pinned : String → SlsaError
  bad_digest : DigestError → SlsaError
  file : FileError → SlsaError
  too_many_subjects : ℕ → SlsaError

-- Why a statement is not verified: the text of `Cause` tells no more.
pub data Cause : Type 0 where
  not_json no_subject other_artifact : Cause
  statement_type predicate_unsupported predicate_not_allowed builder_differs source_differs
        cannot_inspect :
      String → Cause

unfoldable pub source_matches : Statement → String → Bool
source_matches parsed pinned_source =
    any (λ d. d.uri == pinned_source || has_prefix d.uri (append pinned_source "@"))
      parsed.resolved_dependencies

-- The `Verification` of a statement: `verified`, `invalid` or `policy_mismatch`.
pub data Outcome : Type 0 where
  verified : Statement → Outcome
  invalid : Cause → Outcome
  mismatch : Statement → Cause → Outcome

-- The checks against the pins of the policy.
unfoldable pub check_pins : Policy → Statement → Outcome
unfolding source_matches
check_pins policy parsed = elim policy.provenance [
  | none ↦ verified parsed
  | some pins ↦
      if not (pins.builder_id == "") && not (parsed.builder_id == pins.builder_id)
      then mismatch parsed (builder_differs parsed.builder_id)
      else if not (pins.source_repository == "")
          && not (source_matches parsed pins.source_repository)
      then mismatch parsed (source_differs pins.source_repository)
      else verified parsed
]

-- The loop over the subjects.
unfoldable pub subject_matched : Statement → String → Bool
subject_matched parsed digest =
    any (λ candidate. get_text "sha256" candidate.digest == trim_prefix digest "sha256:")
      parsed.subject

unfoldable pub check_statement : Reference → Policy → Limits → Statement → Result SlsaError Outcome
unfolding check_pins subject_matched
check_statement reference policy limits parsed =
    if not (parsed.type == "https://in-toto.io/Statement/v1")
    then ok (invalid (statement_type parsed.type))
    else if not (parsed.predicate_type == supported_predicate_type)
    then ok (invalid (predicate_unsupported parsed.predicate_type))
    else if not (allows_predicate policy parsed.predicate_type)
    then ok (mismatch parsed (predicate_not_allowed parsed.predicate_type))
    else if not (ltb 0 (length parsed.subject))
    then ok (invalid no_subject)
    else if ltb limits.max_subjects (length parsed.subject)
    then err (too_many_subjects limits.max_subjects)
    else if not (subject_matched parsed reference.digest)
    then ok (mismatch parsed other_artifact)
    else ok (check_pins policy parsed)

abbrev or_file : {A : Type 0} → Result FileError A → Result SlsaError A
or_file (ok a) = ok a
or_file (err e) = err (SlsaError.file e)

abbrev or_digest : Result DigestError (Unit {0}) → Result SlsaError (Unit {0})
or_digest (ok u) = ok u
or_digest (err e) = err (bad_digest e)

-- `decode` is `json.Unmarshal` into a statement.
module _ (decode : List ℕ → Option Statement) where
  unfoldable pub verify : Option (List ℕ) → Reference → Policy → Limits → Result SlsaError Outcome
  unfolding check_statement
  verify reader reference policy limits = do
    refuse (leb limits.max_statement_bytes 0 || leb limits.max_subjects 0) limits_not_positive
    refuse (not (pinned reference)) (not_pinned reference.raw)
    or_digest (validate_digest reference.digest)
    data_bytes ← or_file (read_bounded reader limits.max_statement_bytes)
    elim (decode data_bytes) [
      | none ↦ ok (invalid not_json)
      | some parsed ↦ check_statement reference policy limits parsed
    ]
