-- ===== src/Rules/Finding.antt =====
-- internal/rules/rules.go: how the rules make their findings.
use clusterproof.Prelude.{String, Bool, List, [], ◌∷◌, if◌then◌else◌}
use clusterproof.Text.Search.{has_prefix}
use clusterproof.Model.{Severity, Evidence, Finding}
use clusterproof.Manifest.{Workload, Container, workload_target}

pub guidance_url : String → String
unfolding has_prefix
guidance_url id =
    if has_prefix id "CP-SUPPLY-"
    then "https://slsa.dev/spec/"
    else "https://kubernetes.io/docs/concepts/security/pod-security-standards/"

abbrev pub finding :
    Workload → String → Severity → String → String → String → Evidence → List String → Finding
finding workload id severity title description remediation evidence control_refs = record {
  id = id;
  severity = severity;
  title = title;
  description = description;
  remediation = remediation;
  source = "clusterproof";
  target = workload_target workload;
  location = workload.location;
  evidence = evidence;
  control_refs = control_refs;
  external_refs = ("guidance", guidance_url id) ∷ [];
}

abbrev pub container_finding :
    Workload
    → Container
    → String
    → Severity
    → String
    → String
    → String
    → Evidence
    → List String
    → Finding
container_finding workload container id severity title description remediation evidence
      control_refs =
    let result = finding workload id severity title description remediation evidence control_refs in
    record result { location = record result.location { container = container.name } }

-- `if test { findings = append(findings, f) }`
abbrev pub emit : Bool → Finding → List Finding
emit test f = if test then f ∷ [] else []
