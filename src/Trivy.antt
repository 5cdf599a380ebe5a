-- ===== src/Trivy.antt =====
-- internal/trivy/parse.go: the findings of a Trivy report. The JSON decoder is a parameter.
pub mod Runner
use Prim.Native.String.{◌++◌ as append}
use clusterproof.Prelude.{
  ℕ, String, Bool, not, ◌&&◌, Option, none, some, List, [], ◌∷◌, ◌++◌, ◌==◌, if◌then◌else◌, ltb,
  map, concat_map, ok, err, Result, ◌>>=◌, ◌>>◌, refuse,
}
use clusterproof.Text.Chars.{equal_fold}
use clusterproof.Text.Search.{has_prefix, has_char, split_first}
use clusterproof.Maps.{Map}
use clusterproof.Sorting.Interface.{Sorter}
use clusterproof.Sorting.Orders.{then_by}
use clusterproof.Files.{FileError, read_bounded}
use clusterproof.Model.{Severity, Finding, Location, severity_rank, parse_severity, severity_info}
use clusterproof.Vex.{clean}

pub record Vulnerability : Type 0 where
  pub id : String
  pub package_name : String
  pub purl : String
  pub installed_version : String
  pub fixed_version : String
  pub severity : String
  pub title : String
  pub primary_url : String

pub record Misconfiguration : Type 0 where
  pub id : String
  pub avd_id : String
  pub title : String
  pub resolution : String
  pub severity : String
  pub status : String
  pub primary_url : String
  pub resource : String
  pub start_line : ℕ

pub record SecretFinding : Type 0 where
  pub rule_id : String
  pub category : String
  pub severity : String
  pub title : String
  pub start_line : ℕ

-- The type `result`; a report is the list of its results.
pub record TrivyResult : Type 0 where
  pub target : String
  pub vulnerabilities : List Vulnerability
  pub misconfigurations : List Misconfiguration
  pub secrets : List SecretFinding

pub data TrivyError : Type 0 where
  limit_not_positive not_json : TrivyError
  file : FileError → TrivyError

abbrev clean_text : String → String
clean_text value = clean value 1000

-- Credentials in front of an `@` are left out.
clean_target : String → String
unfolding has_char
clean_target value =
    let cleaned = clean_text value in
    elim (split_first b'@' cleaned) [
      | none ↦ cleaned
      | some (before, after) ↦
          if not (before == "") && has_char before b':' then append "<redacted>@" after else cleaned
    ]

normalize_severity : String → Severity
normalize_severity raw = elim (parse_severity raw) [
  | ok severity ↦ severity
  | err e ↦ severity_info
]

-- A link that is kept where it is an HTTPS one.
abbrev with_link : String → String → Map String → Map String
with_link key url refs = if has_prefix url "https://" then refs ++ (key, url) ∷ [] else refs

abbrev with_purl : String → Map String → Map String
with_purl purl refs = if not (purl == "") then refs ++ ("purl", purl) ∷ [] else refs

abbrev at_target : String → ℕ → String → Location
at_target target line resource = record {
  path = clean_target target;
  document = 0;
  line = line;
  resource = resource;
  container = "";
}

vulnerability_finding : String → Vulnerability → Finding
unfolding clean_target normalize_severity
vulnerability_finding target v = record {
  id = "CP-VULN-001";
  severity = normalize_severity v.severity;
  title = append "Known vulnerability: " (clean_text v.id);
  description =
      append "Trivy found a known vulnerability in package "
        (append (clean_text v.package_name) ".");
  remediation =
      if not (v.fixed_version == "")
      then append "Upgrade " (
          append (clean_text v.package_name)
            (append " to a fixed version such as " (append (clean_text v.fixed_version) ".")))
      else "Upgrade or replace the affected package after validating application compatibility.";
  source = "trivy";
  target = clean_target target;
  location = at_target target 0 "";
  evidence = record {
    observed = append "installed version " (clean_text v.installed_version);
    expected = "patched or not affected";
  };
  control_refs = "SOC2:CC7" ∷ "Vulnerability-Management" ∷ [];
  external_refs =
      with_purl (clean_text v.purl)
        (with_link "advisory" v.primary_url (("vulnerability", clean_text v.id) ∷ []));
}

normalize_vulnerabilities : TrivyResult → List Finding
unfolding vulnerability_finding
normalize_vulnerabilities r = map (vulnerability_finding r.target) r.vulnerabilities

abbrev or_text : String → String → String
or_text text default = if text == "" then default else text

misconfiguration_finding : String → Misconfiguration → Finding
unfolding clean_target normalize_severity
misconfiguration_finding target m =
    let rule_id = or_text m.id m.avd_id in
    record {
      id = "CP-TRIVY-CONFIG-001";
      severity = normalize_severity m.severity;
      title = clean_text m.title;
      description = "Trivy reported a failed infrastructure configuration check.";
      remediation =
          or_text (clean_text m.resolution)
            "Apply the safe configuration recommended by the scanner and re-run the check.";
      source = "trivy";
      target = clean_target target;
      location = at_target target m.start_line (clean_text m.resource);
      evidence = record {
        observed = append "failed check " (clean_text rule_id);
        expected = "check passes";
      };
      control_refs = "SOC2:CC6" ∷ "SOC2:CC7" ∷ [];
      external_refs = with_link "guidance" m.primary_url (("trivy_rule", clean_text rule_id) ∷ []);
    }

-- The loop over the misconfigurations, which leaves out those that passed.
misconfiguration_findings : String → List Misconfiguration → List Finding
unfolding misconfiguration_finding equal_fold
misconfiguration_findings target [] = []
misconfiguration_findings target (m ∷ ms) =
    let rest = misconfiguration_findings target ms in
    if equal_fold m.status "PASS" then rest else misconfiguration_finding target m ∷ rest

normalize_misconfigurations : TrivyResult → List Finding
unfolding misconfiguration_findings
normalize_misconfigurations r = misconfiguration_findings r.target r.misconfigurations

secret_finding : String → SecretFinding → Finding
unfolding clean_target normalize_severity
secret_finding target s = record {
  id = "CP-SECRET-001";
  severity = normalize_severity s.severity;
  title = append "Potential embedded secret: " (clean_text s.title);
  description =
      "Trivy detected a value matching a secret rule. The matched value is intentionally omitted.";
  remediation =
      "Revoke the exposed credential, remove it from current and historical source, and use an approved secret store.";
  source = "trivy";
  target = clean_target target;
  location = at_target target s.start_line "";
  evidence = record {
    observed = append "matched secret category " (clean_text s.category);
    expected = "no embedded credentials";
  };
  control_refs = "SOC2:CC6" ∷ "Secret-Management" ∷ [];
  external_refs = ("trivy_rule", clean_text s.rule_id) ∷ [];
}

normalize_secrets : TrivyResult → List Finding
unfolding secret_finding
normalize_secrets r = map (secret_finding r.target) r.secrets

abbrev by_line : Finding → Finding → Bool
by_line f g = ltb f.location.line g.location.line

abbrev pub finding_order : Finding → Finding → Bool
finding_order f g =
    if not (f.severity == g.severity)
    then ltb (severity_rank g.severity) (severity_rank f.severity)
    else then_by (λ (h : Finding). h.id) (then_by (λ (h : Finding). h.target) by_line) f g

abbrev or_file : {A : Type 0} → Result FileError A → Result TrivyError A
or_file (ok a) = ok a
or_file (err e) = err (file e)

abbrev or_err : {A : Type 0} → TrivyError → Option A → Result TrivyError A
or_err e none = err e
or_err e (some a) = ok a

result_findings : TrivyResult → List Finding
unfolding normalize_vulnerabilities normalize_misconfigurations normalize_secrets
result_findings r =
    normalize_vulnerabilities r ++ (normalize_misconfigurations r ++ normalize_secrets r)

pub parse :
    Sorter
    → (List ℕ → Option (List TrivyResult))
    → Option (List ℕ)
    → ℕ
    → Result TrivyError (List Finding)
unfolding result_findings
parse S json reader max_bytes = do
  refuse (not (ltb 0 max_bytes)) limit_not_positive
  bytes ← or_file (read_bounded reader max_bytes)
  results ← or_err not_json (json bytes)
  ok (S.sort finding_order (concat_map result_findings results))
