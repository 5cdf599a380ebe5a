-- ===== src/Examples/Reports.antt =====
-- Summaries and comparisons of small reports.
use clusterproof.Prelude.{
  ◌≡◌, refl, none, List, [], ◌∷◌, ◌==◌, ◌&&◌, any, count_if, has_value, is_none, ok, String,
}
use clusterproof.Sorting.Insertion.{insertion}
use clusterproof.Model.{
  Finding, Report, severity_critical, severity_high, severity_medium, severity_low, severity_info,
  summarize,
}
use clusterproof.Model.Laws.{has_severity, summarize-counts}
use clusterproof.Compare.{
  Comparison, finding_key, reports, compare_sets, finding_set, ruleset_identity,
}
use clusterproof.Compare.Sets.{first}
use clusterproof.Compare.Classes.{change, reports_classes}
use clusterproof.Compare.Deterministic.{reports_deterministic}
use clusterproof.Examples.{in_order, backwards, host_network_finding}

abbrev findings : List Finding
findings =
    host_network_finding ∷ record host_network_finding { severity = "low"; id = "CP-K8S-020" } ∷ []

summarize-counts_example :
    let t = summarize findings in
    (t.critical ≡ count_if (has_severity severity_critical) findings)
    × (t.high ≡ count_if (has_severity severity_high) findings)
    × (t.medium ≡ count_if (has_severity severity_medium) findings)
    × (t.low ≡ count_if (has_severity severity_low) findings)
    × (t.info ≡ count_if (has_severity severity_info) findings)
summarize-counts_example = summarize-counts findings

abbrev old_report : Report
old_report = record {
  schema_version = "1";
  generated_at = 1;
  target = "app";
  tool_version = "1";
  rules = none;
  assessment = none;
  scopes = [];
  inputs = [];
  findings = findings;
  suppressed = [];
  summary = summarize findings;
}

abbrev new_report : Report
new_report = record old_report {
  findings = record host_network_finding { severity = "critical" } ∷ [];
}

abbrev comparison : Comparison
comparison =
    compare_sets in_order insertion (finding_set old_report.findings)
      (finding_set new_report.findings) "x" "y" "unversioned"

compared : reports in_order insertion old_report new_report "x" "y" ≡ ok comparison
unfolding reports ruleset_identity
compared = refl

abbrev key : String
key = finding_key host_network_finding

reports_classes_example :
    (any (λ f. finding_key f == key && f.severity == "high") comparison.new
      ≡ has_value
          (λ f. is_none (first key old_report.findings) && f.severity == "high")
          (first key new_report.findings))
    × (any (λ f. finding_key f == key && f.severity == "high") comparison.resolved
        ≡ has_value
            (λ f. is_none (first key new_report.findings) && f.severity == "high")
            (first key old_report.findings))
    × (any (λ d. finding_key d.finding == key && d.after == "critical") comparison.severity_changed
        ≡ has_value
            (λ f.
              has_value
                (λ previous. has_value (λ d. d.after == "critical") (change previous f))
                (first key old_report.findings))
            (first key new_report.findings))
reports_classes_example =
    reports_classes in_order insertion old_report new_report "x" "y" comparison key
      (λ f. f.severity == "high") (λ d. d.after == "critical") compared

reports_deterministic_example :
    reports in_order insertion old_report new_report "x" "y"
    ≡ reports backwards insertion old_report new_report "x" "y"
reports_deterministic_example =
    reports_deterministic in_order backwards insertion insertion old_report new_report "x" "y"
