-- ===== src/Openreports.antt =====
-- internal/openreports/openreports.go: the experimental import of OpenReports objects. The JSON decoder and
-- SHA-256 are parameters; a report is a tree, whose nodes are the objects without their items.
use Prim.Native.String.{◌++◌ as append}
use clusterproof.Prelude.{
  ℕ, suc, ◌+◌, String, Bool, not, ◌&&◌, ◌||◌, Option, none, some, List, [], ◌∷◌, ◌++◌, ◌==◌,
  if◌then◌else◌, ltb, length, Result, ok, err, ◌>>=◌, ◌>>◌, refuse,
}
use clusterproof.Text.Chars.{to_lower, to_upper}
use clusterproof.Text.Space.{trim_space, is_blank}
use clusterproof.Text.Keys.{nul_join}
use clusterproof.Text.Search.{has_suffix}
use clusterproof.Text.Bytes.{bytes_of, first_chars}
use clusterproof.Maps.{Map}
use clusterproof.Sorting.Interface.{Sorter}
use clusterproof.Sorting.Orders.{then_by, by_text}
use clusterproof.Files.{File, FileError, read_bounded, cannot_inspect, not_regular, cannot_open}
use clusterproof.Model.{
  Severity, SeverityError, Finding, Input, severity_rank, parse_severity, severity_low,
  severity_medium,
}
use clusterproof.Queue.{Tree, Ending, done, failed, out_of_fuel, size, walk}
use clusterproof.Vex.{clean}

pub record Limits : Type 0 where
  pub max_bytes : ℕ
  pub max_reports : ℕ
  pub max_results : ℕ

abbrev pub default_limits : Limits
default_limits = record { max_bytes = 10485760; max_reports = 5000; max_results = 50000 }

pub record Imported : Type 0 where
  pub findings : List Finding
  pub input : Input

pub record RawScope : Type 0 where
  pub kind : String
  pub namespace : String
  pub name : String

pub record RawResult : Type 0 where
  pub policy : String
  pub rule : String
  pub result : String
  pub severity : String
  pub source : String
  pub category : String

-- An object without its items.
pub record RawReport : Type 0 where
  pub api_version : String
  pub kind : String
  pub scope : RawScope
  pub results : List RawResult

-- What is wrong with an object.
pub data ObjectError : Type 0 where
  unsupported_result : String → ObjectError
  unsupported_object : String → String → ObjectError
  too_many_reports too_many_results : ℕ → ObjectError
  bad_severity : SeverityError → ObjectError

pub data ImportError : Type 0 where
  source_required limits_not_positive not_json too_many_rounds : ImportError
  file : FileError → ImportError
  object : ObjectError → ImportError

abbrev adapter_version : String
adapter_version = "experimental-1"

abbrev clean_text : String → String
clean_text value = clean value 1000

result_severity : String → String → Result ObjectError Severity
result_severity raw outcome =
    if not (is_blank raw)
    then elim (parse_severity raw) [ ok severity ↦ ok severity | err e ↦ err (bad_severity e) ]
    else if outcome == "warn"
    then ok severity_low
    else ok severity_medium

abbrev or_text : String → String → String
or_text text default = if text == "" then default else text

scope_target : RawScope → String
scope_target scope =
    let kind = or_text (clean_text scope.kind) "Resource" in
    let name = or_text (clean_text scope.name) "unknown" in
    let namespace = clean_text scope.namespace in
    if not (namespace == "")
    then append namespace (append "/" (append kind (append "/" name)))
    else append kind (append "/" name)

-- The fields of a result, cleaned.
abbrev source_of : RawResult → String
source_of r = or_text (clean_text r.source) "external"

abbrev title_target : RawResult → String
title_target r =
    let policy = clean_text r.policy in
    let rule = clean_text r.rule in
    or_text (if not (rule == "") then append policy (append "/" rule) else policy) "unnamed rule"

abbrev with_category : String → Map String → Map String
with_category category refs =
    if not (category == "") then refs ++ ("category", category) ∷ [] else refs

-- What the loop over the queue counts and collects.
pub record Progress : Type 0 where
  pub reports : ℕ
  pub results : ℕ
  pub findings : List Finding

is_list : RawReport → Bool
is_list report = report.kind == "List" || has_suffix report.kind "ReportList"

module _ (digest : List ℕ → String) where
  -- The identity of a rule, hashed: six bytes of it in hexadecimal capitals.
  pub hashed_identity : RawResult → String
  hashed_identity r = to_upper (
      first_chars 12 (
        digest
          (bytes_of (nul_join (source_of r) (nul_join (clean_text r.policy) (clean_text r.rule))))))

  report_finding : String → RawScope → RawResult → String → Severity → Finding
  unfolding hashed_identity scope_target
  report_finding source scope r outcome severity = record {
    id = append "CP-OPENREPORT-" (hashed_identity r);
    severity = severity;
    title = append "External OpenReports result: " (title_target r);
    description =
        "An imported OpenReports object recorded an external result requiring review; the original message is intentionally omitted.";
    remediation =
        "Review the source policy and resource, document any approved exception, and re-run the producing engine.";
    source = append "openreports:" (source_of r);
    target = scope_target scope;
    location = record {
      path = source;
      document = 0;
      line = 0;
      resource = append (clean_text scope.kind) (append "/" (clean_text scope.name));
      container = "";
    };
    evidence = record {
      observed = append "report result: " outcome;
      expected = "report result: pass";
    };
    control_refs = [];
    external_refs = with_category (clean_text r.category) (
        ("policy", clean_text r.policy)
        ∷ ("rule", clean_text r.rule)
        ∷ ("adapter_version", adapter_version)
        ∷ []);
  }

  -- `none` for a result that is not included.
  pub normalize_result : String → RawScope → RawResult → Result ObjectError (Option Finding)
  unfolding result_severity report_finding
  normalize_result source scope r =
      let outcome = to_lower (trim_space r.result) in
      if outcome == "pass" || outcome == "skip"
      then ok none
      else if outcome == "fail" || outcome == "warn" || outcome == "error"
      then (result_severity r.severity outcome >>= λ severity.
          ok (some (report_finding source scope r outcome severity)))
      else err (unsupported_result (clean_text r.result))

  abbrev included : Option Finding → List Finding
  included none = []
  included (some f) = f ∷ []

  -- The loop over the results of an object.
  pub normalize_results : String → RawScope → List RawResult → Result ObjectError (List Finding)
  unfolding normalize_result
  normalize_results source scope [] = ok []
  normalize_results source scope (r ∷ rs) =
      let rest = normalize_results source scope rs in
      do
        finding ← normalize_result source scope r
        findings ← rest
        ok (included finding ++ findings)

  module _ (source : String) (limits : Limits) where
    -- One round, for an object that is no list.
    pub handle : Progress → RawReport → Result ObjectError Progress
    unfolding normalize_results
    handle p report = do
      refuse
          (not (report.api_version == "openreports.io/v1alpha1")
            || (not (report.kind == "Report") && not (report.kind == "ClusterReport")))
          (unsupported_object (clean_text report.api_version) (clean_text report.kind))
      refuse (ltb limits.max_reports (suc p.reports)) (too_many_reports limits.max_reports)
      refuse (ltb limits.max_results (p.results + length report.results))
          (too_many_results limits.max_results)
      findings ← normalize_results source report.scope report.results
      ok (record {
        reports = suc p.reports;
        results = p.results + length report.results;
        findings = p.findings ++ findings;
      })

    -- The loop over the queue; there are as many rounds as there are objects.
    pub collect : Tree RawReport → Ending ObjectError Progress
    unfolding walk handle is_list
    collect root =
        walk is_list (λ report. ok tt) handle (size root)
          (record { reports = 0; results = 0; findings = [] }) (root ∷ [])

abbrev pub finding_order : Finding → Finding → Bool
finding_order f g =
    if not (f.severity == g.severity)
    then ltb (severity_rank g.severity) (severity_rank f.severity)
    else then_by (λ (h : Finding). h.id) (by_text (λ (h : Finding). h.target)) f g

abbrev or_file : {A : Type 0} → Result FileError A → Result ImportError A
or_file (ok a) = ok a
or_file (err e) = err (file e)

abbrev or_err : {A : Type 0} → ImportError → Option A → Result ImportError A
or_err e none = err e
or_err e (some a) = ok a

module _ (S : Sorter) (digest : List ℕ → String) (json : List ℕ → Option (Tree RawReport)) where
  abbrev ended : List ℕ → String → Ending ObjectError Progress → Result ImportError Imported
  ended bytes source out_of_fuel = err too_many_rounds
  ended bytes source (failed e) = err (object e)
  ended bytes source (done p) = ok (record {
    findings = S.sort finding_order p.findings;
    input = record { path = source; sha256 = digest bytes; bytes = length bytes };
  })

  unfoldable pub parse : Option (List ℕ) → String → Limits → Result ImportError Imported
  unfolding collect
  parse reader source limits = do
    refuse (is_blank source) source_required
    refuse
        (not (ltb 0 limits.max_bytes)
          || not (ltb 0 limits.max_reports)
          || not (ltb 0 limits.max_results))
        limits_not_positive
    bytes ← or_file (read_bounded reader limits.max_bytes)
    root ← or_err not_json (json bytes)
    ended bytes source (collect digest source limits root)

  pub load : File → String → Limits → Result ImportError Imported
  unfolding parse
  load f path limits = elim f.stat [
    | none ↦ err (file cannot_inspect)
    | some s ↦ do
      refuse (s.symlink || not s.regular) (file not_regular)
      refuse (not f.opened) (file cannot_open)
      parse f.content path limits
  ]
