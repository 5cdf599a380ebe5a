-- ===== src/Rules/Pod.antt =====
-- internal/rules/rules.go: `evaluatePod`.
pub mod Findings
use clusterproof.Prelude.{
  String, Bool, true, false, not, ◌&&◌, ◌||◌, Option, none, some, List, [], ◌∷◌, ◌++◌,
  if◌then◌else◌,
}
use clusterproof.Sorting.Interface.{Sorter}
use clusterproof.Model.{Finding}
use clusterproof.Manifest.{Workload, PodSpec, Volume, is_windows}
use clusterproof.Rules.Finding.{emit}
use clusterproof.Rules.Risks.{
  nil_or_true, text_if, restricted_volume_violations, unsafe_sysctls, app_armor_risk, se_linux_risk,
  host_process_enabled,
}
use Findings.{
  pod_k8s_002, pod_k8s_003, pod_k8s_012, pod_k8s_014, pod_k8s_015, pod_k8s_016, pod_k8s_017,
  pod_k8s_010,
}

unfoldable pub host_namespaces : PodSpec → List String
host_namespaces spec =
    text_if spec.host_network "hostNetwork"
    ++ (text_if spec.host_pid "hostPID" ++ text_if spec.host_ipc "hostIPC")

-- A finding for the texts observed, if there are any.
abbrev pub emit_texts : (List String → Finding) → List String → List Finding
emit_texts f [] = []
emit_texts f (x ∷ xs) = f (x ∷ xs) ∷ []

-- A finding for a risk, if there is one and the rule applies.
abbrev pub emit_risk : {A : Type 0} → Bool → (A → Finding) → Option A → List Finding
emit_risk applies f none = []
emit_risk applies f (some a) = if applies then f a ∷ [] else []

-- The loop over the volumes.
unfoldable pub volume_findings : Workload → List Volume → List Finding
volume_findings workload [] = []
volume_findings workload (v ∷ vs) =
    let rest = volume_findings workload vs in
    elim v.host_path [ none ↦ rest | some _ ↦ pod_k8s_003 workload v.name ∷ rest ]

module _ (S : Sorter) where
  unfoldable pub evaluate_pod : Workload → List Finding
  unfolding host_namespaces volume_findings
  evaluate_pod workload =
      let spec = workload.pod_spec in
      let linux = not (is_windows spec.os) in
      emit_texts (pod_k8s_002 workload) (host_namespaces spec)
      ++ (volume_findings workload spec.volumes
          ++ (emit_texts (pod_k8s_012 workload) (restricted_volume_violations S spec.volumes)
              ++ (emit_texts (pod_k8s_014 workload)
                    (if linux then unsafe_sysctls S spec.security_context.sysctls else [])
                  ++ (emit_risk linux (pod_k8s_015 workload)
                        (app_armor_risk spec.security_context.app_armor_profile)
                      ++ (emit_risk linux (pod_k8s_016 workload)
                            (se_linux_risk spec.security_context.se_linux_options)
                          ++ (emit (host_process_enabled spec.security_context.windows_options)
                                (pod_k8s_017 workload)
                              ++ emit (nil_or_true spec.automount_service_account_token)
                                  (pod_k8s_010 workload)))))))
