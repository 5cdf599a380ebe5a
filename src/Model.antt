-- ===== src/Model.antt =====
-- internal/model/model.go: severities, findings, reports and the severity totals. Go's `int` counters
-- are natural numbers; the maps of a finding are association lists. `Severity` is Go's string type.
pub mod Laws
use clusterproof.Prelude.{
  ℕ, ◌+◌, String, Bool, true, false, not, ◌&&◌, Option, none, some, List, [], ◌∷◌, ◌==◌,
  if◌then◌else◌, leb, Result, ok, err,
}
use clusterproof.Text.Chars.{to_lower}
use clusterproof.Text.Space.{trim_space}

abbrev pub Severity : Type 0
Severity = String

abbrev pub severity_info : Severity
severity_info = "info"

abbrev pub severity_low : Severity
severity_low = "low"

abbrev pub severity_medium : Severity
severity_medium = "medium"

abbrev pub severity_high : Severity
severity_high = "high"

abbrev pub severity_critical : Severity
severity_critical = "critical"

-- The map `severityRanks`.
pub severity_ranks : Severity → Option ℕ
severity_ranks s =
    if s == severity_info
    then some 0
    else if s == severity_low
    then some 1
    else if s == severity_medium
    then some 2
    else if s == severity_high
    then some 3
    else if s == severity_critical
    then some 4
    else none

-- Reading a missing key gives Go's zero value.
abbrev or_zero : Option ℕ → ℕ
or_zero none = 0
or_zero (some n) = n

pub severity_rank : Severity → ℕ
unfolding severity_ranks
severity_rank s = or_zero (severity_ranks s)

pub data SeverityError : Type 0 where
  unknown_severity : String → SeverityError

unfoldable pub parse_severity : String → Result SeverityError Severity
unfolding severity_ranks
parse_severity raw =
    let severity = to_lower (trim_space raw) in
    elim (severity_ranks severity) [ none ↦ err (unknown_severity raw) | some _ ↦ ok severity ]

pub meets : Severity → Severity → Bool
unfolding severity_rank
meets s threshold = leb (severity_rank threshold) (severity_rank s)

pub record Location : Type 0 where
  pub path : String
  pub document : ℕ
  pub line : ℕ
  pub resource : String
  pub container : String

pub record Evidence : Type 0 where
  pub observed : String
  pub expected : String

pub record Finding : Type 0 where
  pub id : String
  pub severity : Severity
  pub title : String
  pub description : String
  pub remediation : String
  pub source : String
  pub target : String
  pub location : Location
  pub evidence : Evidence
  pub control_refs : List String
  pub external_refs : List (String × String)

pub record Input : Type 0 where
  pub path : String
  pub sha256 : String
  pub bytes : ℕ

pub record SuppressedFinding : Type 0 where
  pub rule_id : String
  pub severity : Severity
  pub target : String
  pub owner : String
  pub reason : String
  pub expires : String
  pub location : Location

pub record Summary : Type 0 where
  pub critical : ℕ
  pub high : ℕ
  pub medium : ℕ
  pub low : ℕ
  pub info : ℕ

pub record RulesetReference : Type 0 where
  pub id : String
  pub version : String
  pub rules_evaluated : ℕ

pub record Assessment : Type 0 where
  pub status : String
  pub inputs_scanned : ℕ
  pub workloads_assessed : ℕ

pub record ScopeAssessment : Type 0 where
  pub scope : String
  pub resources : String
  pub status : String
  pub detail : String

-- `generated_at` is an instant, in nanoseconds.
pub record Report : Type 0 where
  pub schema_version : String
  pub generated_at : ℕ
  pub target : String
  pub tool_version : String
  pub rules : Option RulesetReference
  pub assessment : Option Assessment
  pub scopes : List ScopeAssessment
  pub inputs : List Input
  pub findings : List Finding
  pub suppressed : List SuppressedFinding
  pub summary : Summary

abbrev zero_summary : Summary
zero_summary = record { critical = 0; high = 0; medium = 0; low = 0; info = 0 }

-- The `switch` of `Summarize`.
count_severity : Summary → Severity → Summary
count_severity s severity =
    if severity == severity_critical
    then record s { critical = s.critical + 1 }
    else if severity == severity_high
    then record s { high = s.high + 1 }
    else if severity == severity_medium
    then record s { medium = s.medium + 1 }
    else if severity == severity_low
    then record s { low = s.low + 1 }
    else if severity == severity_info
    then record s { info = s.info + 1 }
    else s

summarize_from : Summary → List Finding → Summary
unfolding count_severity
summarize_from s [] = s
summarize_from s (f ∷ fs) = summarize_from (count_severity s f.severity) fs

pub summarize : List Finding → Summary
unfolding summarize_from
summarize findings = summarize_from zero_summary findings
