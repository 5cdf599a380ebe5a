-- ===== src/Rules/Psa.antt =====
-- internal/rules/psa.go: the labels of Pod Security Admission.
pub mod Labels
use Prim.Native.String.{◌++◌ as append}
use clusterproof.Prelude.{
  ℕ, String, Bool, true, false, not, ◌&&◌, ◌||◌, Option, none, some, List, [], ◌∷◌, ◌++◌, ◌==◌,
  if◌then◌else◌, ltb, nat_eq, concat_map,
}
use clusterproof.Text.Chars.{equal_fold}
use clusterproof.Text.Order.{str_lt}
use clusterproof.Text.Search.{trim_prefix}
use clusterproof.Text.Space.{join}
use clusterproof.Maps.{Map, get_text}
use clusterproof.Sorting.Interface.{Sorter}
use clusterproof.Sorting.Orders.{then_by, by_text}
use clusterproof.Model.{Severity, severity_low, severity_medium, Evidence, Finding}
use clusterproof.Manifest.{Namespace}
use clusterproof.Rules.Finding.{emit}
use clusterproof.Rules.Pod.{emit_texts}

abbrev pub psa_enforce_label : String
psa_enforce_label = "pod-security.kubernetes.io/enforce"

abbrev pub psa_enforce_version_label : String
psa_enforce_version_label = "pod-security.kubernetes.io/enforce-version"

abbrev pub psa_audit_label : String
psa_audit_label = "pod-security.kubernetes.io/audit"

abbrev pub psa_warn_label : String
psa_warn_label = "pod-security.kubernetes.io/warn"

-- The map `psaLevels`.
pub psa_level : String → Option ℕ
psa_level value =
    if value == "privileged"
    then some 0
    else if value == "baseline"
    then some 1
    else if value == "restricted"
    then some 2
    else none

-- Reading the map without asking whether the key is there.
abbrev level_or_zero : Option ℕ → ℕ
level_or_zero none = 0
level_or_zero (some n) = n

pub is_system_namespace : String → Bool
is_system_namespace name =
    name == "kube-system" || (name == "kube-public" || name == "kube-node-lease")

-- One step of the loop of `weakerAuxiliaryModes`.
pub weaker_mode : Map String → ℕ → String → List String
unfolding psa_level
weaker_mode labels enforce label =
    let value = get_text label labels in
    if value == "" then [] else elim (psa_level value) [
      | none ↦ []
      | some level ↦
          if ltb level enforce
          then append (trim_prefix label "pod-security.kubernetes.io/") (append ": " value) ∷ []
          else []
    ]

abbrev namespace_finding :
    Namespace → String → Severity → String → String → String → Evidence → Finding
namespace_finding namespace id severity title description remediation evidence = record {
  id = id;
  severity = severity;
  title = title;
  description = description;
  remediation = remediation;
  source = "clusterproof";
  target = append namespace.name (append "/Namespace/" namespace.name);
  location = namespace.location;
  evidence = evidence;
  control_refs = "SOC2:CC6" ∷ "Kubernetes:PSA" ∷ [];
  external_refs =
      ("guidance", "https://kubernetes.io/docs/concepts/security/pod-security-admission/") ∷ [];
}

abbrev enforce_absent : Namespace → Finding
enforce_absent namespace =
    namespace_finding namespace "CP-K8S-018" severity_medium
      "Namespace has no Pod Security Admission enforce level"
      "Without an enforce label, the namespace admits pods that violate every Pod Security Standard."
      "Set pod-security.kubernetes.io/enforce to baseline or restricted on the namespace."
      (record { observed = "enforce label absent"; expected = "enforce: baseline or restricted" })

abbrev enforce_undefined : Namespace → String → Finding
enforce_undefined namespace enforce =
    namespace_finding namespace "CP-K8S-019" severity_medium
      "Namespace Pod Security Admission level is not a defined value"
      "An unrecognized enforce level is rejected by the admission controller and behaves like no enforcement."
      "Use privileged, baseline, or restricted as the enforce level."
      (record { observed = append "enforce: " enforce; expected = "a defined PSA level" })

abbrev enforce_privileged : Namespace → Finding
enforce_privileged namespace =
    namespace_finding namespace "CP-K8S-020" severity_low
      "Namespace explicitly enforces the privileged profile"
      "The privileged profile is intentionally unrestricted; workloads in this namespace bypass all PSS controls."
      "Confirm the namespace requires privileged workloads or raise the enforce level to baseline."
      (record {
        observed = "enforce: privileged";
        expected = "baseline or restricted unless reviewed";
      })

abbrev pub version_unpinned : Namespace → String → Finding
version_unpinned namespace observed =
    namespace_finding namespace "CP-K8S-021" severity_low
      "Pod Security Admission version is not pinned"
      "An unpinned or latest policy version silently changes admission behavior on cluster upgrades."
      "Set pod-security.kubernetes.io/enforce-version to the tested Kubernetes minor, such as v1.36."
      (record { observed = observed; expected = "a pinned version like v1.36" })

abbrev pub modes_weaker : Namespace → List String → Finding
modes_weaker namespace weaker =
    namespace_finding namespace "CP-K8S-022" severity_low
      "Audit or warn level is weaker than the enforce level"
      "Weaker audit or warn levels hide violations that the next enforce-level increase would reject."
      "Set audit and warn to at least the enforce level."
      (record { observed = join ", " weaker; expected = "audit and warn at or above enforce" })

unfoldable pub enforce_findings : Namespace → String → List Finding
unfolding psa_level
enforce_findings namespace enforce =
    if enforce == ""
    then enforce_absent namespace ∷ []
    else if nat_eq (level_or_zero (psa_level enforce)) 0 && not (enforce == "privileged")
    then enforce_undefined namespace enforce ∷ []
    else emit (enforce == "privileged") (enforce_privileged namespace)

unfoldable pub version_findings : Namespace → String → List Finding
version_findings namespace version = emit (version == "" || equal_fold version "latest") (
    version_unpinned namespace (
      if not (version == "")
      then append "enforce-version: " version
      else "enforce-version label absent"))

abbrev pub psa_order : Finding → Finding → Bool
psa_order = then_by (λ f. f.id) (by_text (λ f. f.target))

module _ (S : Sorter) where
  pub weaker_auxiliary_modes : Map String → List String
  unfolding weaker_mode
  weaker_auxiliary_modes labels = elim (psa_level (get_text psa_enforce_label labels)) [
    | none ↦ []
    | some enforce ↦
        S.sort str_lt
          (weaker_mode labels enforce psa_audit_label ++ weaker_mode labels enforce psa_warn_label)
  ]

  unfoldable pub evaluate_namespace_psa : Namespace → List Finding
  unfolding is_system_namespace enforce_findings version_findings weaker_auxiliary_modes
  evaluate_namespace_psa namespace =
      if is_system_namespace namespace.name
      then []
      else enforce_findings namespace (get_text psa_enforce_label namespace.labels)
        ++ (version_findings namespace (get_text psa_enforce_version_label namespace.labels)
            ++ emit_texts (modes_weaker namespace) (weaker_auxiliary_modes namespace.labels))

  unfoldable pub evaluate_namespaces : List Namespace → List Finding
  unfolding evaluate_namespace_psa
  evaluate_namespaces namespaces = S.sort psa_order (concat_map evaluate_namespace_psa namespaces)
