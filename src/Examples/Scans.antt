-- ===== src/Examples/Scans.antt =====
-- A scan of a directory without workloads, with an imported report and an exception for one of its findings.
use clusterproof.Prelude.{
  ℕ, ◌+◌, String, ◌≡◌, refl, Bool, true, not, ◌&&◌, none, some, List, [], ◌∷◌, ◌==◌, nat_eq, Result,
  ok, err,
}
use clusterproof.Maps.{get, put}
use clusterproof.Sorting.Insertion.{insertion, insertion_sort, insert}
use clusterproof.Text.Chars.{to_lower, to_upper, is_control}
use clusterproof.Text.Keys.{nul_join}
use clusterproof.Vex.{clean}
use clusterproof.Text.Space.{join, fields, is_blank}
use clusterproof.Text.Search.{contains_any}
use clusterproof.Text.Bytes.{first_chars}
use clusterproof.Time.{parse_date}
use clusterproof.Files.{read_bounded, read_regular}
use clusterproof.Queue.{size}
use clusterproof.Rules.Psa.{evaluate_namespaces}
use clusterproof.Policyreport.{load}
use clusterproof.Model.{Finding, Input, Report, parse_severity}
use clusterproof.Cluster.{Snapshot}
use clusterproof.Exception
use clusterproof.Trivy.Runner.{Run}
use clusterproof.Sigstore.{exited}
use clusterproof.Command.Options.{ScanOptions, initial_options}
use clusterproof.Command.Scan.{Target, read_target, produce}
use clusterproof.Command.Machine.{Machine, ScanError}
use clusterproof.Command.Finish.{make_report, run_scan}
use clusterproof.Command.Finish.Exit.{
  asks, asks_scan, made, delivers, meets_threshold, run_scan-exit,
}
use clusterproof.Command.Finish.Accounted.{Trace, found, suppressed, make_report-found}
use clusterproof.Examples.{in_order}
use clusterproof.Examples.Imports.{decode, digest}
use clusterproof.Examples.Policies.{waiver_file, trust_yaml}
use clusterproof.Examples.Bundles.{encoder, willing}

abbrev empty_snapshot : Snapshot
empty_snapshot = record {
  workloads = [];
  namespaces = [];
  rbac_roles = [];
  rbac_bindings = [];
  network_policies = [];
  services = [];
  inputs = [];
}

abbrev shop_waiver : Exception.Exception
shop_waiver = record {
  rule_id = "CP-POLICY-0123456789AB";
  target = "default/Pod/shop";
  owner = "platform";
  reason = "accepted";
  expires = "2000-03-01";
}

abbrev machine : Machine
machine = record {
  file = λ path. waiver_file;
  closes = λ path. true;
  stdin = none;
  load = λ path. some empty_snapshot;
  load_bytes = λ bytes. none;
  kubectl = λ arguments. err "not found";
  trivy = λ arguments. Run.failed;
  cosign = λ arguments. exited none;
  digest = digest;
  policy_json = decode;
  open_json = λ bytes. none;
  trivy_json = λ bytes. none;
  vex_json = λ bytes. none;
  exceptions_yaml = record {
    decode = λ bytes. some (record { schema_version = "1"; exceptions = shop_waiver ∷ [] });
    at_end = λ bytes. true;
  };
  trust_yaml = trust_yaml;
  encoder = encoder;
  os = willing;
  vex_time = 5;
  exceptions_time = 5;
  report_time = 5;
  version = "1.0.0";
  render = λ format report. some [];
  can_print = true;
  write_new = λ path bytes. true;
}

abbrev arguments : List String
arguments =
    "--policy-report-json" ∷ "report.json" ∷ "--exceptions=waivers.yaml" ∷ "--fail-on" ∷ "high"
    ∷ "deploy" ∷ []

abbrev code : ℕ
code = (run_scan machine insertion in_order arguments none).0

run_scan-exit_example :
    (nat_eq code 2
      ≡ asks_scan machine insertion in_order arguments (λ o.
        made machine insertion in_order o (λ report.
          delivers machine insertion in_order o none report && meets_threshold o report.findings)))
    × (nat_eq code 1
        ≡ not (
            asks machine insertion in_order arguments (λ o.
              made machine insertion in_order o (delivers machine insertion in_order o none))))
run_scan-exit_example = run_scan-exit machine insertion in_order arguments none

abbrev options : ScanOptions
options = record initial_options {
  policy_json = "report.json";
  exceptions = "waivers.yaml";
  fail_on = "high";
  target = "deploy";
}

abbrev target : Target
target = record { loaded = empty_snapshot; scopes = []; name = "deploy" }

abbrev or_nothing : Result ScanError (List Finding × List Input) → List Finding × List Input
or_nothing (ok produced) = produced
or_nothing (err e) = ([], [])

abbrev produced : List Finding × List Input
produced = or_nothing (produce machine in_order insertion options target)

abbrev or_empty : Result ScanError Report → Report
or_empty (ok report) = report
or_empty (err e) = record {
  schema_version = "";
  generated_at = 0;
  target = "";
  tool_version = "";
  rules = none;
  assessment = none;
  scopes = [];
  inputs = [];
  findings = [];
  suppressed = [];
  summary = record { critical = 0; high = 0; medium = 0; low = 0; info = 0 };
}

abbrev report : Report
report = or_empty (make_report machine insertion in_order options)

is_read : read_target machine options ≡ ok target
unfolding read_target
is_read = refl

is_produced : produce machine in_order insertion options target ≡ ok (produced.0, produced.1)
unfolding produce load is_blank read_bounded size to_lower parse_severity
is_produced = refl

is_reported : make_report machine insertion in_order options ≡ ok report
unfolding make_report read_target produce load is_blank read_bounded size to_lower parse_severity
    Exception.load Exception.default_limits read_regular Exception.validate contains_any parse_date
is_reported = refl

abbrev is_shop : Trace → Bool
is_shop t = t.2 == "default/Pod/shop"

make_report-found_example :
    found is_shop report.findings + suppressed is_shop report.suppressed ≡ found is_shop produced.0
make_report-found_example =
    make_report-found is_shop machine insertion in_order options target produced.0 produced.1 report
      is_read is_produced is_reported

-- One finding is suppressed.
is_waived : suppressed is_shop report.suppressed ≡ 1
unfolding make_report read_target produce load is_blank read_bounded size to_lower parse_severity
    Exception.load Exception.default_limits read_regular Exception.validate contains_any parse_date
    Exception.apply insertion insertion_sort insert to_upper first_chars clean join fields
    is_control get put nul_join evaluate_namespaces
is_waived = refl
