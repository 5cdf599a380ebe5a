-- ===== src/Rules/Catalog/Pods.antt =====
-- internal/rules/catalog.go: the rules about pods and containers.
use clusterproof.Prelude.{List, [], ◌∷◌}
use clusterproof.Rules.Catalog.{RuleDefinition, os_windows}
use clusterproof.Rules.Catalog.Sources.{
  all_os, linux_only, pss_source, security_checklist_source, application_checklist_source,
}

abbrev cp_k8s_001 : RuleDefinition
cp_k8s_001 = record {
  id = "CP-K8S-001";
  title = "Privileged container";
  category = "kubernetes-posture";
  description =
      "Privileged containers bypass major isolation controls and can commonly reach the node.";
  remediation =
      "Set securityContext.privileged: false and grant only the specific capability required.";
  os = all_os;
  control_refs = "SOC2:CC6" ∷ "Kubernetes:PSS-Baseline" ∷ [];
  sources = pss_source ∷ [];
}

abbrev cp_k8s_002 : RuleDefinition
cp_k8s_002 = record {
  id = "CP-K8S-002";
  title = "Host namespace sharing enabled";
  category = "kubernetes-posture";
  description =
      "Sharing host namespaces weakens workload isolation and can expose node-level processes or networking.";
  remediation =
      "Disable hostNetwork, hostPID, and hostIPC unless the workload has a reviewed infrastructure exception.";
  os = all_os;
  control_refs = "SOC2:CC6" ∷ "Kubernetes:PSS-Baseline" ∷ [];
  sources = pss_source ∷ [];
}

abbrev cp_k8s_003 : RuleDefinition
cp_k8s_003 = record {
  id = "CP-K8S-003";
  title = "Host filesystem mounted into workload";
  category = "kubernetes-posture";
  description =
      "A hostPath volume can expose node files and turn a container compromise into a node compromise.";
  remediation =
      "Replace hostPath with a restricted volume type or document and enforce a narrow exception.";
  os = all_os;
  control_refs = "SOC2:CC6" ∷ "Kubernetes:PSS-Restricted" ∷ [];
  sources = pss_source ∷ [];
}

abbrev cp_k8s_004 : RuleDefinition
cp_k8s_004 = record {
  id = "CP-K8S-004";
  title = "Privilege escalation is not disabled";
  category = "kubernetes-posture";
  description = "The container may gain more privileges than its parent process.";
  remediation = "Set securityContext.allowPrivilegeEscalation: false.";
  os = linux_only;
  control_refs = "SOC2:CC6" ∷ "Kubernetes:PSS-Restricted" ∷ [];
  sources = pss_source ∷ [];
}

abbrev cp_k8s_005 : RuleDefinition
cp_k8s_005 = record {
  id = "CP-K8S-005";
  title = "Non-root execution is not guaranteed";
  category = "kubernetes-posture";
  description =
      "Root execution increases the impact of a container escape or writable filesystem weakness.";
  remediation =
      "Set runAsNonRoot: true and use a non-zero runAsUser where the image requires an explicit UID.";
  os = all_os;
  control_refs = "SOC2:CC6" ∷ "Kubernetes:PSS-Restricted" ∷ [];
  sources = pss_source ∷ [];
}

abbrev cp_k8s_006 : RuleDefinition
cp_k8s_006 = record {
  id = "CP-K8S-006";
  title = "Seccomp isolation is not enforced";
  category = "kubernetes-posture";
  description =
      "A missing or unconfined seccomp profile leaves unnecessary kernel syscalls available.";
  remediation = "Set seccompProfile.type to RuntimeDefault or a reviewed Localhost profile.";
  os = linux_only;
  control_refs = "SOC2:CC6" ∷ "Kubernetes:PSS-Restricted" ∷ [];
  sources = pss_source ∷ [];
}

abbrev cp_k8s_007 : RuleDefinition
cp_k8s_007 = record {
  id = "CP-K8S-007";
  title = "Additional Linux capabilities requested";
  category = "kubernetes-posture";
  description =
      "Powerful Linux capabilities can provide host-level actions without a fully privileged container.";
  remediation = "Remove added capabilities; if required, allow only NET_BIND_SERVICE after review.";
  os = linux_only;
  control_refs = "SOC2:CC6" ∷ "Kubernetes:PSS-Restricted" ∷ [];
  sources = pss_source ∷ [];
}

abbrev cp_k8s_008 : RuleDefinition
cp_k8s_008 = record {
  id = "CP-K8S-008";
  title = "Default Linux capabilities are not dropped";
  category = "kubernetes-posture";
  description = "The runtime capability set is broader than most applications require.";
  remediation =
      "Set securityContext.capabilities.drop to [ALL], then add back only reviewed requirements.";
  os = linux_only;
  control_refs = "SOC2:CC6" ∷ "Kubernetes:PSS-Restricted" ∷ [];
  sources = pss_source ∷ [];
}

abbrev cp_k8s_009 : RuleDefinition
cp_k8s_009 = record {
  id = "CP-K8S-009";
  title = "Container root filesystem is writable";
  category = "kubernetes-posture";
  description =
      "A writable image filesystem gives an attacker persistence space inside the running container.";
  remediation =
      "Set readOnlyRootFilesystem: true and mount explicit writable volumes where required.";
  os = all_os;
  control_refs = "SOC2:CC6" ∷ "Kubernetes:Application-Checklist" ∷ [];
  sources = application_checklist_source ∷ [];
}

abbrev cp_k8s_010 : RuleDefinition
cp_k8s_010 = record {
  id = "CP-K8S-010";
  title = "Service account token is automatically mounted";
  category = "kubernetes-posture";
  description =
      "An unnecessary Kubernetes API credential increases the impact of a container compromise.";
  remediation =
      "Set automountServiceAccountToken: false unless the workload calls the Kubernetes API.";
  os = all_os;
  control_refs = "SOC2:CC6" ∷ "Kubernetes:Security-Checklist" ∷ [];
  sources = security_checklist_source ∷ [];
}

abbrev cp_k8s_011 : RuleDefinition
cp_k8s_011 = record {
  id = "CP-K8S-011";
  title = "Host port binding requested";
  category = "kubernetes-posture";
  description =
      "Host ports bind the workload to node network interfaces and bypass Service-level controls.";
  remediation = "Remove hostPort and expose the workload through a Service or ingress controller.";
  os = all_os;
  control_refs = "SOC2:CC6" ∷ "Kubernetes:PSS-Baseline" ∷ [];
  sources = pss_source ∷ [];
}

abbrev cp_k8s_012 : RuleDefinition
cp_k8s_012 = record {
  id = "CP-K8S-012";
  title = "Volume type outside the restricted allowlist";
  category = "kubernetes-posture";
  description =
      "The Restricted profile allows only a fixed set of volume types; other drivers can reach node or network resources.";
  remediation =
      "Use configMap, csi, downwardAPI, emptyDir, ephemeral, persistentVolumeClaim, projected, or secret volumes.";
  os = all_os;
  control_refs = "SOC2:CC6" ∷ "Kubernetes:PSS-Restricted" ∷ [];
  sources = pss_source ∷ [];
}

abbrev cp_k8s_013 : RuleDefinition
cp_k8s_013 = record {
  id = "CP-K8S-013";
  title = "Non-default proc mount requested";
  category = "kubernetes-posture";
  description =
      "An unmasked /proc filesystem exposes sensitive kernel interfaces to the container.";
  remediation = "Remove procMount or set it to Default.";
  os = linux_only;
  control_refs = "SOC2:CC6" ∷ "Kubernetes:PSS-Baseline" ∷ [];
  sources = pss_source ∷ [];
}

abbrev cp_k8s_014 : RuleDefinition
cp_k8s_014 = record {
  id = "CP-K8S-014";
  title = "Sysctl outside the safe allowlist requested";
  category = "kubernetes-posture";
  description = "Sysctls can disable security mechanisms or affect every workload on the node.";
  remediation = "Remove the sysctl or keep only entries from the Kubernetes safe sysctl allowlist.";
  os = linux_only;
  control_refs = "SOC2:CC6" ∷ "Kubernetes:PSS-Baseline" ∷ [];
  sources = pss_source ∷ [];
}

abbrev cp_k8s_015 : RuleDefinition
cp_k8s_015 = record {
  id = "CP-K8S-015";
  title = "AppArmor profile is overridden to an unconfined state";
  category = "kubernetes-posture";
  description =
      "Disabling AppArmor removes a mandatory access-control layer expected by the Baseline profile.";
  remediation =
      "Set appArmorProfile.type to RuntimeDefault or a reviewed Localhost profile, or remove the override.";
  os = linux_only;
  control_refs = "SOC2:CC6" ∷ "Kubernetes:PSS-Baseline" ∷ [];
  sources = pss_source ∷ [];
}

abbrev cp_k8s_016 : RuleDefinition
cp_k8s_016 = record {
  id = "CP-K8S-016";
  title = "Disallowed SELinux options requested";
  category = "kubernetes-posture";
  description = "Custom SELinux users, roles, or types can escape the container security domain.";
  remediation =
      "Remove seLinuxOptions.user and role, and keep type unset or one of the allowed container types.";
  os = linux_only;
  control_refs = "SOC2:CC6" ∷ "Kubernetes:PSS-Baseline" ∷ [];
  sources = pss_source ∷ [];
}

abbrev cp_k8s_017 : RuleDefinition
cp_k8s_017 = record {
  id = "CP-K8S-017";
  title = "Windows HostProcess pod requested";
  category = "kubernetes-posture";
  description =
      "HostProcess containers run directly on the Windows host and are equivalent to privileged access.";
  remediation =
      "Set windowsOptions.hostProcess to false unless the workload has a reviewed infrastructure exception.";
  os = os_windows ∷ [];
  control_refs = "SOC2:CC6" ∷ "Kubernetes:PSS-Baseline" ∷ [];
  sources = pss_source ∷ [];
}

abbrev pub pod_rules : List RuleDefinition
pod_rules =
    cp_k8s_001 ∷ cp_k8s_002 ∷ cp_k8s_003 ∷ cp_k8s_004 ∷ cp_k8s_005 ∷ cp_k8s_006 ∷ cp_k8s_007
    ∷ cp_k8s_008 ∷ cp_k8s_009 ∷ cp_k8s_010 ∷ cp_k8s_011 ∷ cp_k8s_012 ∷ cp_k8s_013 ∷ cp_k8s_014
    ∷ cp_k8s_015 ∷ cp_k8s_016 ∷ cp_k8s_017 ∷ []
