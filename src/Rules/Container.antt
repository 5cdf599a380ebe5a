-- ===== src/Rules/Container.antt =====
-- internal/rules/rules.go: `evaluateContainer` and `imageFindings`.
pub mod Findings
use clusterproof.Prelude.{
  String, Bool, true, false, not, ◌&&◌, ◌||◌, Option, none, some, List, [], ◌∷◌, ◌++◌, ◌==◌,
  if◌then◌else◌,
}
use clusterproof.Text.Chars.{equal_fold}
use clusterproof.Text.Space.{trim_space}
use clusterproof.Text.Search.{contains}
use clusterproof.Sorting.Interface.{Sorter}
use clusterproof.Model.{Finding}
use clusterproof.Manifest.{Workload, Container, is_windows}
use clusterproof.Rules.Finding.{emit}
use clusterproof.Rules.Risks.{
  is_true, nil_or_true, host_ports, app_armor_risk, se_linux_risk, host_process_enabled,
  non_root_risk, seccomp_risk, unexpected_capabilities, contains_fold, image_uses_latest,
}
use clusterproof.Rules.Pod.{emit_texts, emit_risk}
use Findings.{
  container_k8s_001, container_k8s_011, container_k8s_013, container_k8s_015, container_k8s_016,
  container_k8s_017, container_k8s_004, container_k8s_005, container_k8s_006, container_k8s_007,
  container_k8s_008, container_k8s_009, container_supply_001, container_supply_002,
}

unfoldable pub is_pinned : String → Bool
is_pinned image = image == "" || contains image "@sha256:"

unfoldable pub image_findings : Workload → Container → List Finding
unfolding is_pinned
image_findings workload container =
    let image = trim_space container.image in
    if is_pinned image
    then []
    else emit (image_uses_latest image) (container_supply_001 workload container)
      ++ container_supply_002 workload container ∷ []

-- A proc mount other than the default.
unfoldable pub proc_mount_risk : Option String → Option String
proc_mount_risk none = none
proc_mount_risk (some mount) = if not (equal_fold mount "Default") then some mount else none

module _ (S : Sorter) where
  unfoldable pub evaluate_container : Workload → Container → List Finding
  unfolding image_findings proc_mount_risk
  evaluate_container workload container =
      let context = container.security_context in
      let pod = workload.pod_spec.security_context in
      let windows = is_windows workload.pod_spec.os in
      let linux = not windows in
      emit (is_true context.privileged) (container_k8s_001 workload container)
      ++ (emit_texts (container_k8s_011 workload container) (host_ports S container.ports)
          ++ (emit_risk linux (container_k8s_013 workload container)
                (proc_mount_risk context.proc_mount)
              ++ (emit_risk linux (container_k8s_015 workload container)
                    (app_armor_risk context.app_armor_profile)
                  ++ (emit_risk linux (container_k8s_016 workload container)
                        (se_linux_risk context.se_linux_options)
                      ++ (emit (host_process_enabled context.windows_options)
                            (container_k8s_017 workload container)
                          ++ (emit (linux && nil_or_true context.allow_privilege_escalation)
                                (container_k8s_004 workload container)
                              ++ (emit_risk true (λ r. container_k8s_005 workload container r.0 r.1)
                                    (non_root_risk pod context windows)
                                  ++ (emit_risk linux
                                        (λ r. container_k8s_006 workload container r.0 r.1)
                                        (seccomp_risk pod context)
                                      ++ (emit_texts (container_k8s_007 workload container) (
                                            if linux
                                            then unexpected_capabilities S context.capabilities.add
                                            else [])
                                          ++ (emit
                                                (linux
                                                  && not (
                                                      contains_fold context.capabilities.drop
                                                        "ALL"))
                                                (container_k8s_008 workload container)
                                              ++ (emit
                                                    (not
                                                      (is_true context.read_only_root_filesystem))
                                                    (container_k8s_009 workload container)
                                                  ++ image_findings workload container)))))))))))
