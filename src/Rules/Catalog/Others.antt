-- ===== src/Rules/Catalog/Others.antt =====
-- internal/rules/catalog.go: the rules about namespaces, RBAC, networks and images.
use clusterproof.Prelude.{List, [], ◌∷◌}
use clusterproof.Rules.Catalog.{RuleDefinition}
use clusterproof.Rules.Catalog.Sources.{
  all_os, psa_source, rbac_source, network_policy_source, slsa_source, sigstore_source,
}

abbrev cp_k8s_018 : RuleDefinition
cp_k8s_018 = record {
  id = "CP-K8S-018";
  title = "Namespace has no Pod Security Admission enforce level";
  category = "namespace-admission";
  description =
      "Without an enforce label, the namespace admits pods that violate every Pod Security Standard.";
  remediation =
      "Set pod-security.kubernetes.io/enforce to baseline or restricted on the namespace.";
  os = all_os;
  control_refs = "SOC2:CC6" ∷ "Kubernetes:PSA" ∷ [];
  sources = psa_source ∷ [];
}

abbrev cp_k8s_019 : RuleDefinition
cp_k8s_019 = record {
  id = "CP-K8S-019";
  title = "Namespace Pod Security Admission level is not a defined value";
  category = "namespace-admission";
  description =
      "An unrecognized enforce level is rejected by the admission controller and behaves like no enforcement.";
  remediation = "Use privileged, baseline, or restricted as the enforce level.";
  os = all_os;
  control_refs = "SOC2:CC6" ∷ "Kubernetes:PSA" ∷ [];
  sources = psa_source ∷ [];
}

abbrev cp_k8s_020 : RuleDefinition
cp_k8s_020 = record {
  id = "CP-K8S-020";
  title = "Namespace explicitly enforces the privileged profile";
  category = "namespace-admission";
  description =
      "The privileged profile is intentionally unrestricted; workloads in this namespace bypass all PSS controls.";
  remediation =
      "Confirm the namespace requires privileged workloads or raise the enforce level to baseline.";
  os = all_os;
  control_refs = "SOC2:CC6" ∷ "Kubernetes:PSA" ∷ [];
  sources = psa_source ∷ [];
}

abbrev cp_k8s_021 : RuleDefinition
cp_k8s_021 = record {
  id = "CP-K8S-021";
  title = "Pod Security Admission version is not pinned";
  category = "namespace-admission";
  description =
      "An unpinned or latest policy version silently changes admission behavior on cluster upgrades.";
  remediation =
      "Set pod-security.kubernetes.io/enforce-version to the tested Kubernetes minor, such as v1.36.";
  os = all_os;
  control_refs = "SOC2:CC6" ∷ "Kubernetes:PSA" ∷ [];
  sources = psa_source ∷ [];
}

abbrev cp_k8s_022 : RuleDefinition
cp_k8s_022 = record {
  id = "CP-K8S-022";
  title = "Audit or warn level is weaker than the enforce level";
  category = "namespace-admission";
  description =
      "Weaker audit or warn levels hide violations that the next enforce-level increase would reject.";
  remediation = "Set audit and warn to at least the enforce level.";
  os = all_os;
  control_refs = "SOC2:CC6" ∷ "Kubernetes:PSA" ∷ [];
  sources = psa_source ∷ [];
}

abbrev cp_rbac_001 : RuleDefinition
cp_rbac_001 = record {
  id = "CP-RBAC-001";
  title = "Wildcard permission grant";
  category = "rbac";
  description = "A role granting * verbs on * resources is cluster-admin-equivalent for its scope.";
  remediation =
      "Replace wildcard verbs and resources with the explicit permissions the subject needs.";
  os = all_os;
  control_refs = "SOC2:CC6" ∷ "Kubernetes:RBAC-Good-Practices" ∷ [];
  sources = rbac_source ∷ [];
}

abbrev cp_rbac_002 : RuleDefinition
cp_rbac_002 = record {
  id = "CP-RBAC-002";
  title = "Secrets read access granted";
  category = "rbac";
  description = "Reading Secrets exposes every credential in the grant's scope.";
  remediation =
      "Scope Secret access to named resources or use projected volumes and workload identity.";
  os = all_os;
  control_refs = "SOC2:CC6" ∷ "Kubernetes:RBAC-Good-Practices" ∷ [];
  sources = rbac_source ∷ [];
}

abbrev cp_rbac_003 : RuleDefinition
cp_rbac_003 = record {
  id = "CP-RBAC-003";
  title = "Workload creation privilege";
  category = "rbac";
  description =
      "Creating workloads lets a subject run arbitrary pods, including privileged ones, in scope.";
  remediation = "Restrict workload creation to deployment automation with reviewed pipelines.";
  os = all_os;
  control_refs = "SOC2:CC6" ∷ "Kubernetes:RBAC-Good-Practices" ∷ [];
  sources = rbac_source ∷ [];
}

abbrev cp_rbac_004 : RuleDefinition
cp_rbac_004 = record {
  id = "CP-RBAC-004";
  title = "Pod exec privilege";
  category = "rbac";
  description = "pods/exec provides interactive code execution inside every reachable container.";
  remediation = "Limit exec to break-glass roles with audit logging.";
  os = all_os;
  control_refs = "SOC2:CC6" ∷ "Kubernetes:RBAC-Good-Practices" ∷ [];
  sources = rbac_source ∷ [];
}

abbrev cp_rbac_005 : RuleDefinition
cp_rbac_005 = record {
  id = "CP-RBAC-005";
  title = "Impersonation privilege";
  category = "rbac";
  description =
      "Impersonation lets the subject act as any user or group it can name, bypassing its own authorization.";
  remediation = "Remove impersonate verbs outside dedicated, audited administrative tooling.";
  os = all_os;
  control_refs = "SOC2:CC6" ∷ "Kubernetes:RBAC-Good-Practices" ∷ [];
  sources = rbac_source ∷ [];
}

abbrev cp_rbac_006 : RuleDefinition
cp_rbac_006 = record {
  id = "CP-RBAC-006";
  title = "Bind or escalate privilege";
  category = "rbac";
  description =
      "bind and escalate allow granting permissions beyond the subject's own, defeating RBAC containment.";
  remediation = "Reserve bind and escalate for the cluster's role-management controller.";
  os = all_os;
  control_refs = "SOC2:CC6" ∷ "Kubernetes:RBAC-Good-Practices" ∷ [];
  sources = rbac_source ∷ [];
}

abbrev cp_rbac_007 : RuleDefinition
cp_rbac_007 = record {
  id = "CP-RBAC-007";
  title = "Service account token creation privilege";
  category = "rbac";
  description = "serviceaccounts/token lets the subject mint credentials for other identities.";
  remediation =
      "Remove token creation or scope it to the specific automation account that needs it.";
  os = all_os;
  control_refs = "SOC2:CC6" ∷ "Kubernetes:RBAC-Good-Practices" ∷ [];
  sources = rbac_source ∷ [];
}

abbrev cp_net_001 : RuleDefinition
cp_net_001 = record {
  id = "CP-NET-001";
  title = "Namespace lacks default-deny NetworkPolicy coverage";
  category = "network";
  description =
      "Without a namespace-wide policy, every pod accepts traffic that the CNI would otherwise filter.";
  remediation =
      "Add a NetworkPolicy with an empty podSelector that declares both Ingress and Egress policy types.";
  os = all_os;
  control_refs = "SOC2:CC6" ∷ "Kubernetes:NetworkPolicy" ∷ [];
  sources = network_policy_source ∷ [];
}

abbrev cp_net_002 : RuleDefinition
cp_net_002 = record {
  id = "CP-NET-002";
  title = "High-risk workload exposed outside the cluster";
  category = "network";
  description =
      "An externally reachable Service selects a workload whose posture weakens node isolation.";
  remediation =
      "Fix the workload posture or move it behind a ClusterIP Service and an authenticating proxy.";
  os = all_os;
  control_refs = "SOC2:CC6" ∷ "Kubernetes:NetworkPolicy" ∷ [];
  sources = network_policy_source ∷ [];
}

abbrev cp_supply_001 : RuleDefinition
cp_supply_001 = record {
  id = "CP-SUPPLY-001";
  title = "Container image uses a mutable latest tag";
  category = "supply-chain";
  description =
      "A mutable tag can resolve to different content without a manifest change or review.";
  remediation =
      "Pin the image to an immutable sha256 digest produced by the trusted build pipeline.";
  os = all_os;
  control_refs = "SOC2:CC7" ∷ "SLSA:Provenance" ∷ [];
  sources = slsa_source ∷ [];
}

abbrev cp_supply_002 : RuleDefinition
cp_supply_002 = record {
  id = "CP-SUPPLY-002";
  title = "Container image is not digest pinned";
  category = "supply-chain";
  description = "Tags are mutable and do not prove which image bytes were reviewed and deployed.";
  remediation =
      "Replace the tag with the verified image digest while retaining the tag in deployment metadata if useful.";
  os = all_os;
  control_refs = "SOC2:CC7" ∷ "SLSA:Provenance" ∷ [];
  sources = slsa_source ∷ [];
}

abbrev cp_supply_003 : RuleDefinition
cp_supply_003 = record {
  id = "CP-SUPPLY-003";
  title = "Image cannot be signature verified without a digest";
  category = "supply-chain";
  description =
      "Signature verification binds trust to exact bytes; a floating tag has no exact identity to verify.";
  remediation = "Pin the image to its sha256 digest, then re-run signature verification.";
  os = all_os;
  control_refs = "SOC2:CC7" ∷ "SLSA:Provenance" ∷ [];
  sources = sigstore_source ∷ [];
}

abbrev cp_supply_004 : RuleDefinition
cp_supply_004 = record {
  id = "CP-SUPPLY-004";
  title = "Image signature verification failed";
  category = "supply-chain";
  description = "No signature satisfied the pinned trust policy for this digest-pinned image.";
  remediation =
      "Sign the image with an identity or key from the trust policy, or correct the policy if the signer changed legitimately.";
  os = all_os;
  control_refs = "SOC2:CC7" ∷ "SLSA:Provenance" ∷ [];
  sources = sigstore_source ∷ [];
}

abbrev pub other_rules : List RuleDefinition
other_rules =
    cp_k8s_018 ∷ cp_k8s_019 ∷ cp_k8s_020 ∷ cp_k8s_021 ∷ cp_k8s_022 ∷ cp_rbac_001 ∷ cp_rbac_002
    ∷ cp_rbac_003 ∷ cp_rbac_004 ∷ cp_rbac_005 ∷ cp_rbac_006 ∷ cp_rbac_007 ∷ cp_net_001 ∷ cp_net_002
    ∷ cp_supply_001 ∷ cp_supply_002 ∷ cp_supply_003 ∷ cp_supply_004 ∷ []
