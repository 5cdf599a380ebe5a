-- ===== src/Sigstore.antt =====
-- internal/sigstore/sigstore.go: the verification of an image's signature by cosign. What a run of cosign
-- comes to is a parameter: a function of its arguments.
pub mod Accepted
use Prim.Native.Char.{code, len_utf8}
use Prim.Native.String.{◌∷◌ as cons, [] as empty, ◌++◌ as append}
use clusterproof.Prelude.{
  ℕ, ◌+◌, String, Bool, true, false, not, ◌&&◌, ◌||◌, Option, none, some, List, [], ◌∷◌, ◌++◌, ◌==◌,
  if◌then◌else◌, ltb, leb, nat_eq, is_none, length, Result, ok, err, ◌>>=◌, ◌>>◌, refuse,
}
use clusterproof.Text.Space.{trim_space, fields, join}
use clusterproof.Files.{Stat}
use clusterproof.Image.{Reference, DigestError, pinned, validate_digest}
use clusterproof.Trust.{Policy, Identity, Key}

-- The timeout is in nanoseconds.
pub record Options : Type 0 where
  pub executable : String
  pub timeout : ℕ
  pub max_output_bytes : ℕ
  pub max_error_bytes : ℕ
  pub allow_network : Bool
  pub bundle_path : String

abbrev pub default_options : Options
default_options = record {
  executable = "cosign";
  timeout = 120000000000;
  max_output_bytes = 10485760;
  max_error_bytes = 65536;
  allow_network = false;
  bundle_path = "";
}

pub record Verification : Type 0 where
  pub image : String
  pub digest : String
  pub verified : Bool
  pub mode : String
  pub identity : String
  pub issuer : String
  pub key_name : String
  pub offline : Bool
  pub network_used : Bool
  pub failure_cause : String

-- Whom cosign is asked about.
pub data Signer : Type 0 where
  by_identity : Identity → Signer
  by_key : Key → Signer

abbrev signer_args : Signer → List String
signer_args (by_identity identity) =
    "--certificate-identity" ∷ identity.subject ∷ "--certificate-oidc-issuer" ∷ identity.issuer ∷ []
signer_args (by_key key) = "--key" ∷ key.path ∷ []

pub verify_args : String → Signer → Options → List String
verify_args reference signer options =
    ("verify" ∷ "--output" ∷ "json" ∷ [])
    ++ (signer_args signer
        ++ ((if not (options.bundle_path == "") then "--bundle" ∷ options.bundle_path ∷ [] else [])
            ++ ((if not options.allow_network
                  then "--offline" ∷ "--private-infrastructure" ∷ []
                  else [])
                ++ "--" ∷ reference ∷ [])))

-- What a run comes to: it does not start, runs out of time, prints too much, fails with what it printed on
-- its error stream, or ends well; then `some n` tells that it printed a JSON list of n claims.
pub data Outcome : Type 0 where
  not_found timed_out too_much : Outcome
  rejected : String → Outcome
  exited : Option ℕ → Outcome

pub data SigstoreError : Type 0 where
  not_pinned : String → SigstoreError
  bad_digest : DigestError → SigstoreError
  nothing_to_verify invalid_options bundle_required bundle_not_inspected bundle_not_regular
        cannot_find exceeded_timeout exceeded_output :
      SigstoreError

-- The characters before the bound, with line breaks and tabs as spaces.
clean_from : ℕ → String → String
clean_from written empty = empty
clean_from written (cons c s) =
    let broken = nat_eq (code c) 10 || nat_eq (code c) 13 || nat_eq (code c) 9 in
    let rest = clean_from (written + (if broken then 1 else len_utf8 c)) s in
    if leb 500 written then empty else append (if broken then " " else cons c empty) rest

clean_text : String → String
unfolding clean_from
clean_text value = join " " (fields (clean_from 0 (trim_space value)))

abbrev scope_of : Signer → String
scope_of (by_identity identity) = append "identity " identity.subject
scope_of (by_key key) = append "key " key.name

describe_failure : Signer → String → String
unfolding clean_text
describe_failure signer detail =
    let cleaned = clean_text detail in
    append (scope_of signer)
      (append ": " (if cleaned == "" then "cosign rejected the signature" else cleaned))

abbrev claim_count : Option ℕ → ℕ
claim_count none = 0
claim_count (some n) = n

abbrev or_digest : Result DigestError (Unit {0}) → Result SigstoreError (Unit {0})
or_digest (ok u) = ok u
or_digest (err e) = err (bad_digest e)

-- The check of the bundle file.
abbrev check_bundle_file : Option Stat → Result SigstoreError (Unit {0})
check_bundle_file none = err bundle_not_inspected
check_bundle_file (some s) = refuse (s.symlink || not s.regular) bundle_not_regular

abbrev pub pinned_reference : Reference → String
pinned_reference reference =
    append reference.registry
      (append "/" (append reference.repository (append "@" reference.digest)))

module _ (cosign : List String → Outcome) (reference : Reference) (options : Options) where
  -- The verification before it is decided.
  abbrev asked : Signer → Verification
  asked signer = record {
    image = reference.raw;
    digest = reference.digest;
    verified = false;
    mode = elim signer [ by_identity i ↦ "keyless" | by_key k ↦ "key" ];
    identity = elim signer [ by_identity i ↦ i.subject | by_key k ↦ "" ];
    issuer = elim signer [ by_identity i ↦ i.issuer | by_key k ↦ "" ];
    key_name = elim signer [ by_identity i ↦ "" | by_key k ↦ k.name ];
    offline = not options.allow_network;
    network_used = options.allow_network;
    failure_cause = "";
  }

  pub run_cosign : Signer → Result SigstoreError Verification
  unfolding verify_args describe_failure
  run_cosign signer = elim (cosign (verify_args (pinned_reference reference) signer options)) [
    | not_found ↦ err cannot_find
    | timed_out ↦ err exceeded_timeout
    | too_much ↦ err exceeded_output
    | rejected stderr ↦
        ok (record (asked signer) { failure_cause = describe_failure signer stderr })
    | exited claims ↦
        if nat_eq (claim_count claims) 0
        then ok (record (asked signer) {
          failure_cause = describe_failure signer "cosign returned no verifiable claims";
        })
        else ok (record (asked signer) { verified = true })
  ]

  -- The verification that no signer passed.
  abbrev failed_all : List String → Verification
  failed_all causes = record {
    image = reference.raw;
    digest = reference.digest;
    verified = false;
    mode = "";
    identity = "";
    issuer = "";
    key_name = "";
    offline = not options.allow_network;
    network_used = options.allow_network;
    failure_cause = join "; " causes;
  }

  -- The loop over the keys.
  pub try_keys : List String → List Key → Result SigstoreError Verification
  unfolding run_cosign
  try_keys causes [] = ok (failed_all causes)
  try_keys causes (key ∷ keys) = elim (key.path == "") [
    | true ↦
        try_keys
          (causes
            ++ append "key " (append key.name ": inline PEM keys require a file path for cosign")
              ∷ [])
          keys
    | false ↦ run_cosign (by_key key) >>= λ verification. elim verification.verified [
      | true ↦ ok verification
      | false ↦ try_keys (causes ++ verification.failure_cause ∷ []) keys
    ]
  ]

  -- The loop over the identities, and then over the keys.
  pub try_identities : List String → List Identity → List Key → Result SigstoreError Verification
  unfolding run_cosign try_keys
  try_identities causes [] keys = try_keys causes keys
  try_identities causes (identity ∷ identities) keys =
      run_cosign (by_identity identity) >>= λ verification. elim verification.verified [
        | true ↦ ok verification
        | false ↦ try_identities (causes ++ verification.failure_cause ∷ []) identities keys
      ]

  -- `bundle` is what `os.Lstat` answers for the bundle path.
  unfoldable pub verify : Policy → Option Stat → Result SigstoreError Verification
  unfolding try_identities
  verify policy bundle = do
    refuse (not (pinned reference)) (not_pinned reference.raw)
    or_digest (validate_digest reference.digest)
    refuse (nat_eq (length policy.identities) 0 && nat_eq (length policy.keys) 0) nothing_to_verify
    refuse
        (options.executable == ""
          || not (ltb 0 options.timeout)
          || not (ltb 0 options.max_output_bytes)
          || not (ltb 0 options.max_error_bytes))
        invalid_options
    refuse (not options.allow_network && options.bundle_path == "") bundle_required
    (if not (options.bundle_path == "") then check_bundle_file bundle else ok tt)
    try_identities [] policy.identities policy.keys
