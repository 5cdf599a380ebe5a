-- ===== src/Slsa/Verified.antt =====
-- internal/slsa/slsa.go: when provenance counts as verified.
use clusterproof.Prelude.{
  ℕ, ◌≤◌, String, ◌≡◌, Bool, true, false, not, ◌&&◌, ◌||◌, Option, none, some, List, [], ◌∷◌, ◌==◌,
  arith, leb, ltb, length, any, Result, ok, err,
}
use clusterproof.Files.{read_bounded_all}
use clusterproof.Image.{Reference, pinned, validate_digest}
use clusterproof.Trust.{Policy, Provenance, allows_predicate}
use clusterproof.Slsa.{
  Limits, Statement, SlsaError, Outcome, verified, check_pins, check_statement, verify,
  subject_matched, source_matches, supported_predicate_type, invalid, mismatch,
}

abbrev pins_hold : Option Provenance → Statement → Bool
pins_hold none parsed = true
pins_hold (some pins) parsed =
    (pins.builder_id == "" || parsed.builder_id == pins.builder_id)
    && (pins.source_repository == "" || source_matches parsed pins.source_repository)

-- What a verified statement says of an artifact.
pub vouches : Reference → Policy → Limits → Statement → Bool
vouches reference policy limits parsed =
    parsed.type == "https://in-toto.io/Statement/v1"
    && (parsed.predicate_type == supported_predicate_type
        && (allows_predicate policy parsed.predicate_type
            && (not (ltb limits.max_subjects (length parsed.subject))
                && (subject_matched parsed reference.digest
                    && pins_hold policy.provenance parsed))))

abbrev pub is_verified : Result SlsaError Outcome → Bool
is_verified (err e) = false
is_verified (ok (verified s)) = true
is_verified (ok (invalid c)) = false
is_verified (ok (mismatch s c)) = false

is_verified-check_pins :
    (policy : Policy) (parsed : Statement)
    → is_verified (ok (check_pins policy parsed)) ≡ pins_hold policy.provenance parsed
unfolding check_pins
is_verified-check_pins policy parsed = ground arith

any-not_empty :
    {A : Type 0} (p : A → Bool) (xs : List A) → any p xs ≡ true → ltb 0 (length xs) ≡ true
any-not_empty p [] h = ground (arith, h)
any-not_empty p (x ∷ xs) h = ground arith

subjects-exist :
    (parsed : Statement) (digest : String)
    → subject_matched parsed digest ≡ true
    → ltb 0 (length parsed.subject) ≡ true
unfolding subject_matched
subjects-exist parsed digest h = any-not_empty _ parsed.subject h

is_verified-check_statement :
    (reference : Reference) (policy : Policy) (limits : Limits) (parsed : Statement)
    → is_verified (check_statement reference policy limits parsed)
      ≡ vouches reference policy limits parsed
unfolding check_statement vouches
is_verified-check_statement reference policy limits parsed =
    ground (arith, is_verified-check_pins policy parsed, subjects-exist parsed reference.digest)

-- What holds where `Verify` answers that a statement is verified.
pub record Vouched (decode : List ℕ → Option Statement) (reader : Option (List ℕ))
    (reference : Reference) (policy : Policy) (limits : Limits) (parsed : Statement) : Type 0 where
  pub data_bytes : List ℕ
  pub whole : reader ≡ some data_bytes
  pub bounded : length data_bytes ≤ limits.max_statement_bytes
  pub decoded : decode data_bytes ≡ some parsed
  pub exact : pinned reference ≡ true
  pub well_formed : validate_digest reference.digest ≡ ok tt
  pub vouching : vouches reference policy limits parsed ≡ true

module _ (decode : List ℕ → Option Statement) where
  -- Conversely, a statement that vouches for a pinned image with a well-formed digest is verified.
  pub vouches-verify :
      (data_bytes : List ℕ) (reference : Reference) (policy : Policy) (limits : Limits)
      (parsed : Statement)
      → leb limits.max_statement_bytes 0 ≡ false
      → leb limits.max_subjects 0 ≡ false
      → length data_bytes ≤ limits.max_statement_bytes
      → decode data_bytes ≡ some parsed
      → pinned reference ≡ true
      → validate_digest reference.digest ≡ ok tt
      → is_verified (verify decode (some data_bytes) reference policy limits)
        ≡ vouches reference policy limits parsed
  unfolding verify
  vouches-verify data_bytes reference policy limits parsed b s small d p v = ground (
    arith,
    b,
    s,
    d,
    p,
    v,
    read_bounded_all data_bytes limits.max_statement_bytes small,
    is_verified-check_statement reference policy limits parsed,
  )
