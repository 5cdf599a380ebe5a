-- ===== src/Network.antt =====
-- internal/network/network.go: the analysis of network policies and services.
pub mod Coverage
pub mod Targets
pub mod Gaps
pub mod Exposure
pub mod Reported
pub mod HostIpc
use Prim.Native.String.{◌++◌ as append}
use clusterproof.Prelude.{
  ℕ, String, Bool, true, false, not, ◌&&◌, ◌||◌, Option, none, some, List, [], ◌∷◌, ◌++◌, ◌==◌,
  if◌then◌else◌, leb, ltb, length, map, all, concat_map, push_some, Result, ok, err, ◌>>=◌, ◌>>◌,
  refuse,
}
use clusterproof.Text.Chars.{to_lower}
use clusterproof.Text.Order.{str_lt}
use clusterproof.Text.Space.{join}
use clusterproof.Maps.{Map, get, put, get_text, Ranging}
use clusterproof.Sorting.Interface.{Sorter}
use clusterproof.Sorting.Orders.{then_by, by_text}
use clusterproof.Model.{Finding, Location, severity_medium, severity_high}
use clusterproof.Manifest.{
  Workload, Container, NetworkPolicy, Service, or_default, workload_target, all_containers,
}
use clusterproof.Rules.Risks.{is_true, text_if}

pub record Limits : Type 0 where
  pub max_policies : ℕ
  pub max_services : ℕ
  pub max_workloads : ℕ

abbrev pub default_limits : Limits
default_limits = record { max_policies = 10000; max_services = 20000; max_workloads = 50000 }

pub data NetworkError : Type 0 where
  limits_not_positive : NetworkError
  too_many_policies too_many_services too_many_workloads : ℕ → NetworkError

pub record Covered : Type 0 where
  pub ingress : Bool
  pub egress : Bool

abbrev pub uncovered : Covered
uncovered = record { ingress = false; egress = false }

-- The `switch` of the loop over the policy types.
pub cover_type : Covered → String → Covered
cover_type state policy_type =
    if to_lower policy_type == "ingress"
    then record state { ingress = true }
    else if to_lower policy_type == "egress"
    then record state { egress = true }
    else state

pub cover_types : Covered → List String → Covered
unfolding cover_type
cover_types state [] = state
cover_types state (t ∷ ts) = cover_types (cover_type state t) ts

-- What a policy writes to the state of its namespace.
pub cover_policy : Covered → NetworkPolicy → Covered
unfolding cover_types
cover_policy state policy =
    if not policy.selects_all_pods then state else elim policy.policy_types [
      | [] ↦ record state { ingress = true }
      | (t ∷ ts) ↦ cover_types state (t ∷ ts)
    ]

abbrev pub or_uncovered : Option Covered → Covered
or_uncovered none = uncovered
or_uncovered (some state) = state

-- The loop over the policies.
pub coverage_from : Map Covered → List NetworkPolicy → Map Covered
unfolding cover_policy
coverage_from coverage [] = coverage
coverage_from coverage (policy ∷ policies) =
    coverage_from
      (put policy.namespace (cover_policy (or_uncovered (get policy.namespace coverage)) policy)
        coverage)
      policies

-- The loop over the workloads: the first workload of each namespace.
pub namespaces_from : Map Workload → List Workload → Map Workload
namespaces_from namespaces [] = namespaces
namespaces_from namespaces (workload ∷ workloads) =
    let namespace = or_default workload.namespace in
    namespaces_from
      (elim (get namespace namespaces) [
        | none ↦ put namespace workload namespaces
        | some _ ↦ namespaces
      ])
      workloads

pub missing : Option Covered → List String
missing state =
    text_if (not (or_uncovered state).ingress) "ingress"
    ++ text_if (not (or_uncovered state).egress) "egress"

abbrev pub namespace_target : String → String
namespace_target namespace = append namespace (append "/Namespace/" namespace)

abbrev network_guidance : List (String × String)
network_guidance =
    ("guidance", "https://kubernetes.io/docs/concepts/services-networking/network-policies/") ∷ []

abbrev gap_finding : String → Location → List String → Finding
gap_finding namespace location directions = record {
  id = "CP-NET-001";
  severity = severity_medium;
  title = "Namespace lacks default-deny NetworkPolicy coverage";
  description =
      "Without a namespace-wide policy, every pod accepts traffic that the CNI would otherwise filter.";
  remediation =
      "Add a NetworkPolicy with an empty podSelector that declares both Ingress and Egress policy types.";
  source = "clusterproof";
  target = namespace_target namespace;
  location = location;
  evidence = record {
    observed = append "no all-pod policy for: " (join ", " directions);
    expected = "default-deny ingress and egress policies";
  };
  control_refs = "SOC2:CC6" ∷ "Kubernetes:NetworkPolicy" ∷ [];
  external_refs = network_guidance;
}

abbrev gap_of : String → Location → List String → Option Finding
gap_of namespace location [] = none
gap_of namespace location (d ∷ ds) = some (gap_finding namespace location (d ∷ ds))

-- Where a key is missing, Go reads an empty workload.
abbrev location_of : Option Workload → Location
location_of none = record { path = ""; document = 0; line = 0; resource = ""; container = "" }
location_of (some workload) = workload.location

-- The loop over the names.
pub gap_findings : Map Covered → Map Workload → List String → List Finding
unfolding missing
gap_findings coverage namespaces [] = []
gap_findings coverage namespaces (namespace ∷ names) =
    push_some
      (gap_of namespace (location_of (get namespace namespaces)) (missing (get namespace coverage)))
      (gap_findings coverage namespaces names)

-- No label at all matches no selector.
pub labels_match : Map String → Map String → Bool
unfolding get_text
labels_match selector [] = false
labels_match selector (label ∷ labels) = all (λ s. get_text s.0 (label ∷ labels) == s.1) selector

abbrev pub is_external : Service → Bool
is_external service = service.type == "NodePort" || service.type == "LoadBalancer"

pub container_risks : List Container → List String
container_risks [] = []
container_risks (container ∷ containers) =
    let rest = container_risks containers in
    if is_true container.security_context.privileged
    then append "privileged container " container.name ∷ rest
    else rest

pub risks : Workload → List String
unfolding container_risks
risks workload =
    text_if workload.pod_spec.host_network "hostNetwork"
    ++ (text_if workload.pod_spec.host_pid "hostPID"
        ++ container_risks (all_containers workload.pod_spec))

abbrev exposure_finding : Service → Workload → String → Finding
exposure_finding service workload risk = record {
  id = "CP-NET-002";
  severity = severity_high;
  title = "High-risk workload exposed outside the cluster";
  description =
      "An externally reachable Service selects a workload whose posture weakens node isolation.";
  remediation =
      "Fix the workload posture or move it behind a ClusterIP Service and an authenticating proxy.";
  source = "clusterproof";
  target = workload_target workload;
  location = workload.location;
  evidence = record {
    observed = append service.type (
        append " Service " (
          append (or_default service.namespace)
            (append "/" (append service.name (append " selects workload with " risk)))));
    expected = "external exposure only for hardened workloads";
  };
  control_refs = "SOC2:CC6" ∷ "Kubernetes:NetworkPolicy" ∷ [];
  external_refs = network_guidance;
}

abbrev pub network_order : Finding → Finding → Bool
network_order = then_by (λ f. f.id) (by_text (λ f. f.target))

module _ (S : Sorter) where
  pub workload_risk : Workload → String
  unfolding risks
  workload_risk workload = join ", " (S.sort str_lt (risks workload))

  -- The body of the inner loop of `exposureFindings`.
  pub exposure : Service → Workload → List Finding
  unfolding workload_risk labels_match
  exposure service workload =
      if not (or_default workload.namespace == or_default service.namespace)
      then []
      else if not (labels_match service.selector workload.pod_labels)
      then []
      else if not (workload_risk workload == "")
      then exposure_finding service workload (workload_risk workload) ∷ []
      else []

  -- The body of the outer loop.
  pub service_findings : List Workload → Service → List Finding
  unfolding exposure
  service_findings workloads service =
      if not (is_external service)
      then []
      else elim service.selector [ [] ↦ [] | (_ ∷ _) ↦ concat_map (exposure service) workloads ]

  pub exposure_findings : List Workload → List Service → List Finding
  unfolding service_findings
  exposure_findings workloads services = concat_map (service_findings workloads) services

module _ (R : Ranging) (S : Sorter) where
  pub default_deny_findings : List Workload → List NetworkPolicy → List Finding
  unfolding coverage_from namespaces_from gap_findings
  default_deny_findings workloads policies =
      let namespaces = namespaces_from [] workloads in
      gap_findings (coverage_from [] policies) namespaces
        (S.sort str_lt (map (λ entry. entry.0) (R.range namespaces)))

  unfoldable pub analyze :
      List Workload
      → List NetworkPolicy
      → List Service
      → Limits
      → Result NetworkError (List Finding)
  unfolding default_deny_findings exposure_findings
  analyze workloads policies services limits = do
    refuse (leb limits.max_policies 0 || (leb limits.max_services 0 || leb limits.max_workloads 0))
        limits_not_positive
    refuse (ltb limits.max_policies (length policies)) (too_many_policies limits.max_policies)
    refuse (ltb limits.max_services (length services)) (too_many_services limits.max_services)
    refuse (ltb limits.max_workloads (length workloads)) (too_many_workloads limits.max_workloads)
    ok (
        S.sort network_order
          (default_deny_findings workloads policies ++ exposure_findings S workloads services))
