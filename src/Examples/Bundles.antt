-- ===== src/Examples/Bundles.antt =====
-- Evidence bundles: one that is read, one that is written, and one that is signed.
use clusterproof.Prelude.{
  ℕ, String, ◌≡◌, refl, sym, Bool, true, false, ◌&&◌, Option, none, some, List, [], ◌∷◌, ◌==◌,
  if◌then◌else◌, map, pos, negsuc, ℤ, arith, eq_iff, ok, is_ok, any, All, nat_eq,
}
use clusterproof.Sorting.Insertion.{insertion}
use clusterproof.Text.Chars.{to_lower, is_space}
use clusterproof.Text.Space.{is_blank}
use clusterproof.Text.Distinct.{is_distinct}
use clusterproof.Maps.{get, put}
use clusterproof.Model.{Report, summarize}
use clusterproof.Rules.Catalog.Default.{default_catalog}
use clusterproof.Files.{File, read_regular, read_bounded}
use clusterproof.Evidence.{
  BundleFile, BundleManifest, Decoder, default_verify_limits, is_digest, is_unsafe,
  verify_bundle_extra, verify_bundle, read_manifest, check_bundle, check_files, check_listing,
  check_contents, check_content,
}
use clusterproof.Evidence.Intact.{verify_bundle_extra-intact}
use clusterproof.Evidence.Controls.{build_controls}
use clusterproof.Evidence.Controls.Counts.{Counts, is_referred, build_controls-Counts}
use clusterproof.Evidence.Write.{Encoder, Os, Tree, write_bundle, directory_of}
use clusterproof.Evidence.Write.Roundtrip.{Fits, Inverse, verify_bundle-write_bundle}
use clusterproof.Evidence.Signature.{
  Crypto, SignatureEnvelope, verify_signed_bundle, check_signature, load_public_key,
  parse_public_key_pem, parse_public_key_der, scan_hex, load_signature_envelope,
  verify_bundle_allowing_signature,
}
use clusterproof.Evidence.Signature.Authentic.{Authentic, verify_signed_bundle-Authentic}
use clusterproof.Examples.{in_order, host_network_finding}

abbrev zeros : String
zeros = "0000000000000000000000000000000000000000000000000000000000000000"

-- A digest that is the same for all contents.
abbrev digest : List ℕ → String
digest bytes = zeros

abbrev record_of : String → BundleFile
record_of name = record { path = name; sha256 = zeros; bytes = pos 1 }

abbrev manifest_of : List String → BundleManifest
manifest_of names = record { algorithm = "SHA-256"; files = map record_of names }

-- A decoder that knows one document.
abbrev knows : {A : Type 0} → A → Decoder A
knows a = record { decode = λ bytes. some a; at_end = λ bytes. true }

abbrev small : Tree
small = ("scan.json", 7 ∷ []) ∷ ("bundle-manifest.json", 123 ∷ []) ∷ []

verify_bundle_extra-intact_example :
    is_ok (
      verify_bundle_extra digest
        (knows (manifest_of ("scan.json" ∷ [])))
        default_verify_limits
        []
        (directory_of in_order small))
    ≡ true
unfolding directory_of read_manifest read_regular read_bounded get is_unsafe is_digest to_lower
    is_distinct
verify_bundle_extra-intact_example =
    verify_bundle_extra-intact digest (knows (manifest_of ("scan.json" ∷ []))) default_verify_limits
      [] (directory_of in_order small)

build_controls-Counts_example :
    All
      (Counts (host_network_finding ∷ []))
      (build_controls insertion in_order (host_network_finding ∷ []) default_catalog).controls
    × (any
          (λ c. c.reference == "SOC2:CC6.1")
          (build_controls insertion in_order (host_network_finding ∷ []) default_catalog).controls
        ≡ is_referred (host_network_finding ∷ []) default_catalog "SOC2:CC6.1")
build_controls-Counts_example =
    build_controls-Counts insertion in_order (host_network_finding ∷ []) default_catalog
      "SOC2:CC6.1"

-- Keys of which there is one pair, and signatures that are all accepted.
abbrev lax : Crypto
lax = record {
  PublicKey = Unit {0};
  PrivateKey = Unit {0};
  public = λ key. tt;
  same_key = λ a b. true;
  sign = λ key bytes. [];
  verify = λ key bytes signature. true;
  decode_pem = λ bytes. some (record { kind = "PUBLIC KEY"; bytes = bytes });
  decode_pem_text = λ text. some (record { kind = "PUBLIC KEY"; bytes = [] });
  encode_pem = λ block. "";
  parse_public_key = λ bytes. some (some tt);
  marshal_public_key = λ key. some [];
  parse_private_key = λ bytes. some (some tt);
}

abbrev envelope : SignatureEnvelope
envelope = record {
  schema_version = "1";
  algorithm = "Ed25519";
  signer_id = "release";
  public_key_pem = "";
  signature =
      "00000000000000000000000000000000000000000000000000000000000000000000000000000000000000000000000000000000000000000000000000000000";
  signed_at = 0;
}

abbrev signed : Tree
signed =
    ("scan.json", 7 ∷ [])
    ∷ ("bundle-manifest.json", 123 ∷ [])
    ∷ ("bundle-manifest.sig.json", 123 ∷ [])
    ∷ []

abbrev key_file : File
key_file = record {
  stat = some (record { symlink = false; regular = true; directory = false });
  opened = true;
  content = some (1 ∷ []);
}

verify_signed_bundle-Authentic_example :
    Authentic digest
      (knows (manifest_of ("scan.json" ∷ [])))
      lax
      (directory_of in_order signed)
      (some key_file)
unfolding verify_signed_bundle directory_of get is_unsafe is_digest verify_bundle_extra
    verify_bundle read_manifest check_bundle check_files check_listing check_contents check_content
    read_regular read_bounded verify_bundle_allowing_signature check_signature load_public_key
    parse_public_key_pem parse_public_key_der scan_hex load_signature_envelope to_lower is_space
verify_signed_bundle-Authentic_example =
    verify_signed_bundle-Authentic digest (knows (manifest_of ("scan.json" ∷ []))) lax
      (knows envelope) (directory_of in_order signed) (some key_file) "release" refl

-- An encoder that knows one document.
abbrev written_names : List String
written_names = "controls.json" ∷ "metadata.json" ∷ "ruleset.json" ∷ "scan.json" ∷ []

abbrev is_one : ℤ → Bool
is_one (pos n) = nat_eq n 1
is_one (negsuc n) = false

is_one-eq : (z : ℤ) → is_one z ≡ true → z ≡ pos 1
is_one-eq (pos n) h = ground (arith, h)
is_one-eq (negsuc n) h = ground (arith, h)

abbrev same_files : List BundleFile → List String → Bool
same_files [] [] = true
same_files (f ∷ fs) (name ∷ names) =
    f.path == name && (f.sha256 == zeros && (is_one f.bytes && same_files fs names))
same_files _ _ = false

same_files-eq :
    (fs : List BundleFile) (names : List String)
    → same_files fs names ≡ true
    → fs ≡ map record_of names
same_files-eq [] [] h = refl
same_files-eq [] (name ∷ names) h = absurd (ground (arith, h))
same_files-eq (f ∷ fs) [] h = absurd (ground (arith, h))
same_files-eq (f ∷ fs) (name ∷ names) h =
    let p = (eq_iff f.path name).0 (ground arith) in
    let q = (eq_iff f.sha256 zeros).0 (ground arith) in
    let r = is_one-eq f.bytes (ground arith) in
    let rest = same_files-eq fs names (ground arith) in
    λ i. record { path = p i; sha256 = q i; bytes = r i } ∷ rest i

abbrev pub encoder : Encoder
encoder = record {
  content = λ content. some (7 ∷ []);
  manifest = λ m.
      if m.algorithm == "SHA-256" && same_files m.files written_names
      then some (123 ∷ [])
      else none;
}

encoder-Inverse : Inverse encoder (knows (manifest_of written_names))
encoder-Inverse m bytes h =
    let p = (eq_iff m.algorithm "SHA-256").0 (ground arith) in
    let q = same_files-eq m.files written_names (ground arith) in
    (sym (λ i. some (record { algorithm = p i; files = q i })), refl)

abbrev pub willing : Os
willing = record { can_make = true; failure = λ name. none }

abbrev scan : Report
scan = record {
  schema_version = "1";
  generated_at = 0;
  target = "shop";
  tool_version = "1.0.0";
  rules = none;
  assessment = none;
  scopes = [];
  inputs = [];
  findings = host_network_finding ∷ [];
  suppressed = [];
  summary = summarize (host_network_finding ∷ []);
}

-- The five files, as they are written.
abbrev written : Tree
written =
    ("controls.json", 7 ∷ [])
    ∷ ("metadata.json", 7 ∷ [])
    ∷ ("ruleset.json", 7 ∷ [])
    ∷ ("scan.json", 7 ∷ [])
    ∷ ("bundle-manifest.json", 123 ∷ [])
    ∷ []

-- No directory yet.
abbrev blank : Option Tree
blank = none

scan-written :
    write_bundle insertion in_order digest encoder willing "evidence" scan blank
    ≡ (ok tt, some written)
unfolding write_bundle is_blank get put
scan-written = refl

written-Fits : Fits written
unfolding get
written-Fits =
    (omega arith, (omega arith, (omega arith, (omega arith, (omega arith, tt)))), omega arith)

verify_bundle-write_bundle_example :
    (blank ≡ none)
    × (verify_bundle digest (knows (manifest_of written_names)) (directory_of in_order written)
        ≡ ok tt)
unfolding is_digest to_lower
verify_bundle-write_bundle_example =
    verify_bundle-write_bundle insertion in_order in_order digest encoder willing
      (knows (manifest_of written_names)) "evidence" scan blank written (λ bytes. refl)
      encoder-Inverse scan-written written-Fits
