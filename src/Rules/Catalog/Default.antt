-- ===== src/Rules/Catalog/Default.antt =====
-- internal/rules/catalog.go: the built-in catalog.
use clusterproof.Prelude.{List, [], ◌∷◌, ◌++◌, String}
use clusterproof.Rules.Catalog.{Catalog, ControlCoverage}
use clusterproof.Rules.Catalog.Pods.{pod_rules}
use clusterproof.Rules.Catalog.Others.{other_rules}

abbrev coverage : String → String → String → List String → String → ControlCoverage
coverage profile control status rule_ids note = record {
  profile = profile;
  control = control;
  status = status;
  rule_ids = rule_ids;
  note = note;
}

abbrev pss_coverage : List ControlCoverage
pss_coverage =
    coverage "baseline" "HostProcess" "complete" ("CP-K8S-017" ∷ []) ""
    ∷ coverage "baseline" "Host Namespaces" "complete" ("CP-K8S-002" ∷ []) ""
    ∷ coverage "baseline" "Privileged Containers" "complete" ("CP-K8S-001" ∷ []) ""
    ∷ coverage "baseline" "Capabilities" "complete" ("CP-K8S-007" ∷ [])
        "Evaluated with the stricter Restricted add-list; every Baseline violation is also reported."
    ∷ coverage "baseline" "HostPath Volumes" "complete" ("CP-K8S-003" ∷ []) ""
    ∷ coverage "baseline" "Host Ports" "complete" ("CP-K8S-011" ∷ []) ""
    ∷ coverage "baseline" "AppArmor" "partial" ("CP-K8S-015" ∷ [])
        "securityContext.appArmorProfile is evaluated; deprecated container.apparmor.security.beta.kubernetes.io annotations are not parsed."
    ∷ coverage "baseline" "SELinux" "complete" ("CP-K8S-016" ∷ []) ""
    ∷ coverage "baseline" "/proc Mount Type" "complete" ("CP-K8S-013" ∷ []) ""
    ∷ coverage "baseline" "Seccomp" "complete" ("CP-K8S-006" ∷ []) ""
    ∷ coverage "baseline" "Sysctls" "complete" ("CP-K8S-014" ∷ []) ""
    ∷ coverage "restricted" "Volume Types" "complete" ("CP-K8S-003" ∷ "CP-K8S-012" ∷ []) ""
    ∷ coverage "restricted" "Privilege Escalation" "complete" ("CP-K8S-004" ∷ []) ""
    ∷ coverage "restricted" "Running as Non-root" "complete" ("CP-K8S-005" ∷ []) ""
    ∷ coverage "restricted" "Running as Non-root user" "complete" ("CP-K8S-005" ∷ []) ""
    ∷ coverage "restricted" "Seccomp" "complete" ("CP-K8S-006" ∷ []) ""
    ∷ coverage "restricted" "Capabilities" "complete" ("CP-K8S-007" ∷ "CP-K8S-008" ∷ []) ""
    ∷ []

unfoldable pub default_catalog : Catalog
default_catalog = record {
  schema_version = "1";
  id = "clusterproof-default";
  version = "1.5.0";
  kubernetes = record {
    kubernetes_minor = "1.36";
    supported_minors = "1.34" ∷ "1.35" ∷ "1.36" ∷ [];
  };
  coverage = pss_coverage;
  rules = pod_rules ++ other_rules;
}
