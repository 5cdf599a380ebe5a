-- ===== src/Examples/Imports.antt =====
-- Imported reports, a signature that cosign verifies, and the arguments of a scan.
use clusterproof.Prelude.{
  ℕ, ◌≤◌, String, ◌≡◌, ◌≢◌, refl, Bool, true, false, Option, none, some, List, [], ◌∷◌, count_if,
  length, Result, ok, err,
}
use clusterproof.Sorting.Insertion.{insertion}
use clusterproof.Text.Chars.{to_lower}
use clusterproof.Text.Space.{is_blank}
use clusterproof.Files.{read_bounded}
use clusterproof.Model.{Finding, parse_severity}
use clusterproof.Queue.{Tree, size, sum_of, leaves, node, nil, cons}
use clusterproof.Policyreport.{Imported, RawReport, default_limits, parse, is_list, too_many_rounds}
use clusterproof.Policyreport.Leaves.{findings_of, parse_ends, parse-leaves}
use clusterproof.Image.{Reference}
use clusterproof.Trust.{Policy}
use clusterproof.Sigstore.{Options, Outcome, exited, Verification}
use clusterproof.Sigstore.{default_options}
use clusterproof.Command.Options.{parse_scan_options}
use clusterproof.Command.Options.Deterministic.{parse_scan_options-range}
use clusterproof.Examples.{in_order, backwards}

abbrev args : List String
args = "--format" ∷ "json" ∷ "--fail-on=high" ∷ "deploy" ∷ []

parse_scan_options-range_example :
    parse_scan_options in_order args ≡ parse_scan_options backwards args
parse_scan_options-range_example = parse_scan_options-range in_order backwards args

abbrev pub report : String → RawReport
report name = record {
  api_version = "wgpolicyk8s.io/v1alpha2";
  kind = "PolicyReport";
  scope = record { api_version = "v1"; kind = "Pod"; namespace = "default"; name = name };
  results =
      record {
        policy = "require-labels";
        rule = "check-team";
        result = "fail";
        severity = "high";
        source = "kyverno";
        category = "";
      }
      ∷ [];
}

abbrev list : RawReport
list = record {
  api_version = "v1";
  kind = "List";
  scope = record { api_version = ""; kind = ""; namespace = ""; name = "" };
  results = [];
}

-- A list that holds a report and a list of another one.
abbrev pub reports : Tree RawReport
reports =
    node list
      (cons (node (report "shop") nil) (cons (node list (cons (node (report "cart") nil) nil)) nil))

abbrev pub digest : List ℕ → String
digest bytes = "0123456789abcdef"

abbrev pub decode : List ℕ → Option (Tree RawReport)
decode bytes = some reports

parse_ends_example :
    parse insertion digest decode (some (123 ∷ [])) "report.json" default_limits
    ≢ err too_many_rounds
parse_ends_example =
    parse_ends insertion digest decode (some (123 ∷ [])) "report.json" default_limits

abbrev or_nothing : {E : Type 0} → Result E Imported → Imported
or_nothing (ok imported) = imported
or_nothing (err e) = record { findings = []; input = record { path = ""; sha256 = ""; bytes = 0 } }

abbrev imported : Imported
imported = or_nothing (parse insertion digest decode (some (123 ∷ [])) "report.json" default_limits)

parsed : parse insertion digest decode (some (123 ∷ [])) "report.json" default_limits ≡ ok imported
unfolding parse is_blank read_bounded size to_lower parse_severity
parsed = refl

parse-leaves_example :
    ((p : Finding → Bool)
      → count_if p imported.findings
        ≡ sum_of
            (λ report. count_if p (findings_of digest "report.json" report))
            (leaves is_list reports))
    × (sum_of (λ report. 1) (leaves is_list reports) ≤ 5000)
    × (sum_of (λ (report : RawReport). length report.results) (leaves is_list reports) ≤ 50000)
parse-leaves_example =
    parse-leaves insertion digest decode (123 ∷ []) reports "report.json" default_limits imported
      refl parsed

abbrev shop_image : Reference
shop_image = record {
  raw = "shop@sha256:0123456789abcdef0123456789abcdef0123456789abcdef0123456789abcdef";
  registry = "docker.io";
  repository = "library/shop";
  tag = "";
  digest = "sha256:0123456789abcdef0123456789abcdef0123456789abcdef0123456789abcdef";
  workloads = [];
}

abbrev policy : Policy
policy = record {
  schema_version = "1";
  identities = record { subject = "release@example.com"; issuer = "https://example.com" } ∷ [];
  keys = [];
  provenance = none;
  allowed_predicate_types = [];
}

-- Cosign accepts whatever it is asked, with one claim.
abbrev cosign : List String → Outcome
cosign arguments = exited (some 1)

abbrev online : Options
online = record default_options { allow_network = true }

abbrev verification : Verification
verification = record {
  image = shop_image.raw;
  digest = shop_image.digest;
  verified = true;
  mode = "keyless";
  identity = "release@example.com";
  issuer = "https://example.com";
  key_name = "";
  offline = false;
  network_used = true;
  failure_cause = "";
}
