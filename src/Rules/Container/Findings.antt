-- ===== src/Rules/Container/Findings.antt =====
-- internal/rules/rules.go: the findings of `evaluateContainer` and `imageFindings`, with their
-- texts.
use Prim.Native.String.{◌++◌ as append}
use clusterproof.Prelude.{String, List, [], ◌∷◌}
use clusterproof.Text.Space.{join}
use clusterproof.Model.{Severity, severity_high, severity_medium, severity_critical, Finding}
use clusterproof.Manifest.{Workload, Container}
use clusterproof.Rules.Finding.{container_finding}

abbrev pub container_k8s_001 : Workload → Container → Finding
container_k8s_001 workload container =
    container_finding workload container "CP-K8S-001" severity_critical "Privileged container"
      "Privileged containers bypass major isolation controls and can commonly reach the node."
      "Set securityContext.privileged: false and grant only the specific capability required."
      (record { observed = "privileged: true"; expected = "privileged: false" })
      ("SOC2:CC6" ∷ "Kubernetes:PSS-Baseline" ∷ [])

abbrev pub container_k8s_011 : Workload → Container → List String → Finding
container_k8s_011 workload container ports =
    container_finding workload container "CP-K8S-011" severity_medium "Host port binding requested"
      "Host ports bind the workload to node network interfaces and bypass Service-level controls."
      "Remove hostPort and expose the workload through a Service or ingress controller."
      (record {
        observed = append "hostPort " (join ", " ports);
        expected = "no hostPort bindings";
      })
      ("SOC2:CC6" ∷ "Kubernetes:PSS-Baseline" ∷ [])

abbrev pub container_k8s_013 : Workload → Container → String → Finding
container_k8s_013 workload container mount =
    container_finding workload container "CP-K8S-013" severity_high
      "Non-default proc mount requested"
      "An unmasked /proc filesystem exposes sensitive kernel interfaces to the container."
      "Remove procMount or set it to Default."
      (record { observed = append "procMount: " mount; expected = "procMount: Default" })
      ("SOC2:CC6" ∷ "Kubernetes:PSS-Baseline" ∷ [])

abbrev pub container_k8s_015 : Workload → Container → String → Finding
container_k8s_015 workload container observed =
    container_finding workload container "CP-K8S-015" severity_high
      "AppArmor profile is overridden to an unconfined state"
      "Disabling AppArmor removes a mandatory access-control layer expected by the Baseline profile."
      "Set appArmorProfile.type to RuntimeDefault or a reviewed Localhost profile, or remove the override."
      (record { observed = observed; expected = "RuntimeDefault or Localhost" })
      ("SOC2:CC6" ∷ "Kubernetes:PSS-Baseline" ∷ [])

abbrev pub container_k8s_016 : Workload → Container → String → Finding
container_k8s_016 workload container observed =
    container_finding workload container "CP-K8S-016" severity_high
      "Disallowed SELinux options requested"
      "Custom SELinux users, roles, or types can escape the container security domain."
      "Remove seLinuxOptions.user and role, and keep type unset or one of the allowed container types."
      (record { observed = observed; expected = "allowed SELinux container types only" })
      ("SOC2:CC6" ∷ "Kubernetes:PSS-Baseline" ∷ [])

abbrev pub container_k8s_017 : Workload → Container → Finding
container_k8s_017 workload container =
    container_finding workload container "CP-K8S-017" severity_critical
      "Windows HostProcess pod requested"
      "HostProcess containers run directly on the Windows host and are equivalent to privileged access."
      "Set windowsOptions.hostProcess to false unless the workload has a reviewed infrastructure exception."
      (record { observed = "hostProcess: true"; expected = "hostProcess: false" })
      ("SOC2:CC6" ∷ "Kubernetes:PSS-Baseline" ∷ [])

abbrev pub container_k8s_004 : Workload → Container → Finding
container_k8s_004 workload container =
    container_finding workload container "CP-K8S-004" severity_high
      "Privilege escalation is not disabled"
      "The container may gain more privileges than its parent process."
      "Set securityContext.allowPrivilegeEscalation: false."
      (record {
        observed = "true or implicit default";
        expected = "allowPrivilegeEscalation: false";
      })
      ("SOC2:CC6" ∷ "Kubernetes:PSS-Restricted" ∷ [])

abbrev pub container_k8s_005 : Workload → Container → Severity → String → Finding
container_k8s_005 workload container severity observed =
    container_finding workload container "CP-K8S-005" severity
      "Non-root execution is not guaranteed"
      "Root execution increases the impact of a container escape or writable filesystem weakness."
      "Set runAsNonRoot: true and use a non-zero runAsUser where the image requires an explicit UID."
      (record { observed = observed; expected = "runAsNonRoot: true" })
      ("SOC2:CC6" ∷ "Kubernetes:PSS-Restricted" ∷ [])

abbrev pub container_k8s_006 : Workload → Container → Severity → String → Finding
container_k8s_006 workload container severity observed =
    container_finding workload container "CP-K8S-006" severity "Seccomp isolation is not enforced"
      "A missing or unconfined seccomp profile leaves unnecessary kernel syscalls available."
      "Set seccompProfile.type to RuntimeDefault or a reviewed Localhost profile."
      (record { observed = observed; expected = "RuntimeDefault or Localhost" })
      ("SOC2:CC6" ∷ "Kubernetes:PSS-Restricted" ∷ [])

abbrev pub container_k8s_007 : Workload → Container → List String → Finding
container_k8s_007 workload container capabilities =
    container_finding workload container "CP-K8S-007" severity_high
      "Additional Linux capabilities requested"
      "Powerful Linux capabilities can provide host-level actions without a fully privileged container."
      "Remove added capabilities; if required, allow only NET_BIND_SERVICE after review."
      (record { observed = join ", " capabilities; expected = "no added capabilities" })
      ("SOC2:CC6" ∷ "Kubernetes:PSS-Restricted" ∷ [])

abbrev pub container_k8s_008 : Workload → Container → Finding
container_k8s_008 workload container =
    container_finding workload container "CP-K8S-008" severity_medium
      "Default Linux capabilities are not dropped"
      "The runtime capability set is broader than most applications require."
      "Set securityContext.capabilities.drop to [ALL], then add back only reviewed requirements."
      (record { observed = "drop ALL absent"; expected = "capabilities.drop: [ALL]" })
      ("SOC2:CC6" ∷ "Kubernetes:PSS-Restricted" ∷ [])

abbrev pub container_k8s_009 : Workload → Container → Finding
container_k8s_009 workload container =
    container_finding workload container "CP-K8S-009" severity_medium
      "Container root filesystem is writable"
      "A writable image filesystem gives an attacker persistence space inside the running container."
      "Set readOnlyRootFilesystem: true and mount explicit writable volumes where required."
      (record { observed = "false or implicit default"; expected = "readOnlyRootFilesystem: true" })
      ("SOC2:CC6" ∷ "Kubernetes:Application-Checklist" ∷ [])

abbrev pub container_supply_001 : Workload → Container → Finding
container_supply_001 workload container =
    container_finding workload container "CP-SUPPLY-001" severity_high
      "Container image uses a mutable latest tag"
      "A mutable tag can resolve to different content without a manifest change or review."
      "Pin the image to an immutable sha256 digest produced by the trusted build pipeline."
      (record { observed = "latest or implicit tag"; expected = "image@sha256:<digest>" })
      ("SOC2:CC7" ∷ "SLSA:Provenance" ∷ [])

abbrev pub container_supply_002 : Workload → Container → Finding
container_supply_002 workload container =
    container_finding workload container "CP-SUPPLY-002" severity_medium
      "Container image is not digest pinned"
      "Tags are mutable and do not prove which image bytes were reviewed and deployed."
      "Replace the tag with the verified image digest while retaining the tag in deployment metadata if useful."
      (record { observed = "tag reference"; expected = "sha256 digest reference" })
      ("SOC2:CC7" ∷ "SLSA:Provenance" ∷ [])
