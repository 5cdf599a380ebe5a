-- ===== src/Rules/Pod/Findings.antt =====
-- internal/rules/rules.go: the findings of `evaluatePod`, with their texts.
use Prim.Native.String.{◌++◌ as append}
use clusterproof.Prelude.{String, List, [], ◌∷◌}
use clusterproof.Text.Space.{join}
use clusterproof.Model.{severity_high, severity_medium, severity_critical, Finding}
use clusterproof.Manifest.{Workload}
use clusterproof.Rules.Finding.{finding}

abbrev pub pod_k8s_002 : Workload → List String → Finding
pod_k8s_002 workload namespaces =
    finding workload "CP-K8S-002" severity_high "Host namespace sharing enabled"
      "Sharing host namespaces weakens workload isolation and can expose node-level processes or networking."
      "Disable hostNetwork, hostPID, and hostIPC unless the workload has a reviewed infrastructure exception."
      (record { observed = join ", " namespaces; expected = "host namespaces disabled" })
      ("SOC2:CC6" ∷ "Kubernetes:PSS-Baseline" ∷ [])

abbrev pub pod_k8s_003 : Workload → String → Finding
pod_k8s_003 workload name =
    finding workload "CP-K8S-003" severity_high "Host filesystem mounted into workload"
      "A hostPath volume can expose node files and turn a container compromise into a node compromise."
      "Replace hostPath with a restricted volume type or document and enforce a narrow exception."
      (record { observed = append "hostPath volume " name; expected = "restricted volume type" })
      ("SOC2:CC6" ∷ "Kubernetes:PSS-Restricted" ∷ [])

abbrev pub pod_k8s_012 : Workload → List String → Finding
pod_k8s_012 workload unexpected =
    finding workload "CP-K8S-012" severity_medium "Volume type outside the restricted allowlist"
      "The Restricted profile allows only a fixed set of volume types; other drivers can reach node or network resources."
      "Use configMap, csi, downwardAPI, emptyDir, ephemeral, persistentVolumeClaim, projected, or secret volumes."
      (record { observed = join ", " unexpected; expected = "restricted volume types only" })
      ("SOC2:CC6" ∷ "Kubernetes:PSS-Restricted" ∷ [])

abbrev pub pod_k8s_014 : Workload → List String → Finding
pod_k8s_014 workload unsafe =
    finding workload "CP-K8S-014" severity_high "Sysctl outside the safe allowlist requested"
      "Sysctls can disable security mechanisms or affect every workload on the node."
      "Remove the sysctl or keep only entries from the Kubernetes safe sysctl allowlist."
      (record { observed = join ", " unsafe; expected = "safe sysctl allowlist only" })
      ("SOC2:CC6" ∷ "Kubernetes:PSS-Baseline" ∷ [])

abbrev pub pod_k8s_015 : Workload → String → Finding
pod_k8s_015 workload observed =
    finding workload "CP-K8S-015" severity_high
      "AppArmor profile is overridden to an unconfined state"
      "Disabling AppArmor removes a mandatory access-control layer expected by the Baseline profile."
      "Set appArmorProfile.type to RuntimeDefault or a reviewed Localhost profile, or remove the override."
      (record { observed = observed; expected = "RuntimeDefault or Localhost" })
      ("SOC2:CC6" ∷ "Kubernetes:PSS-Baseline" ∷ [])

abbrev pub pod_k8s_016 : Workload → String → Finding
pod_k8s_016 workload observed =
    finding workload "CP-K8S-016" severity_high "Disallowed SELinux options requested"
      "Custom SELinux users, roles, or types can escape the container security domain."
      "Remove seLinuxOptions.user and role, and keep type unset or one of the allowed container types."
      (record { observed = observed; expected = "allowed SELinux container types only" })
      ("SOC2:CC6" ∷ "Kubernetes:PSS-Baseline" ∷ [])

abbrev pub pod_k8s_017 : Workload → Finding
pod_k8s_017 workload =
    finding workload "CP-K8S-017" severity_critical "Windows HostProcess pod requested"
      "HostProcess containers run directly on the Windows host and are equivalent to privileged access."
      "Set windowsOptions.hostProcess to false unless the workload has a reviewed infrastructure exception."
      (record { observed = "hostProcess: true"; expected = "hostProcess: false" })
      ("SOC2:CC6" ∷ "Kubernetes:PSS-Baseline" ∷ [])

abbrev pub pod_k8s_010 : Workload → Finding
pod_k8s_010 workload =
    finding workload "CP-K8S-010" severity_medium "Service account token is automatically mounted"
      "An unnecessary Kubernetes API credential increases the impact of a container compromise."
      "Set automountServiceAccountToken: false unless the workload calls the Kubernetes API."
      (record {
        observed = "token automount enabled or implicit";
        expected = "automountServiceAccountToken: false";
      })
      ("SOC2:CC6" ∷ "Kubernetes:Security-Checklist" ∷ [])
