-- ===== src/Rules/Evaluate/Hardened.antt =====
-- What the rules of internal/rules/rules.go ask of a workload, read off the documentation of the
-- Pod Security Standards: no list is built, sorted or made free of duplicates.
use clusterproof.Prelude.{
  ℤ, is_zero, String, Bool, true, false, not, ◌&&◌, ◌||◌, Option, none, some, ◌==◌, all, any,
}
use clusterproof.Text.Chars.{to_lower, equal_fold}
use clusterproof.Text.Space.{trim_space}
use clusterproof.Text.Search.{contains}
use clusterproof.Manifest.{
  SecurityContext, AppArmor, SeLinux, WindowsOpts, Sysctl, Volume, Container, Workload, is_windows,
  all_containers,
}
use clusterproof.Rules.Risks.{
  elem, is_true, restricted_volume_types, safe_sysctls, sysctl_name, is_allowed_se_linux_type,
  is_allowed_capability, or_option,
}

-- A test that holds where nothing is given.
abbrev pub unless_given : {A : Type 0} → (A → Bool) → Option A → Bool
unless_given p none = true
unless_given p (some a) = p a

abbrev is_given_false : Option Bool → Bool
is_given_false none = false
is_given_false (some b) = not b

unfoldable pub volume_allowed : Volume → Bool
volume_allowed v =
    unless_given (λ _. false) v.host_path
    && all (λ t. t == "hostPath" || elem t restricted_volume_types) v.types

unfoldable pub sysctl_allowed : Sysctl → Bool
sysctl_allowed s = elem (sysctl_name s) safe_sysctls

abbrev pub is_confined : String → Bool
is_confined type = type == "runtimedefault" || type == "localhost"

unfoldable pub app_armor_allowed : Option AppArmor → Bool
app_armor_allowed = unless_given (λ p. is_confined (to_lower p.type))

unfoldable pub se_linux_allowed : Option SeLinux → Bool
se_linux_allowed =
    unless_given (λ o. o.user == "" && (o.role == "" && is_allowed_se_linux_type o.type))

unfoldable pub windows_allowed : Option WindowsOpts → Bool
windows_allowed = unless_given (λ o. not (is_true o.host_process))

-- The seccomp profile that counts is the container's, where it has one.
unfoldable pub seccomp_allowed : SecurityContext → SecurityContext → Bool
seccomp_allowed pod container =
    is_confined (to_lower container.seccomp_profile.type)
    || container.seccomp_profile.type == "" && is_confined (to_lower pod.seccomp_profile.type)

abbrev is_user : Option ℤ → Bool
is_user none = false
is_user (some user) = not (is_zero user)

-- The container says `runAsNonRoot`, or it leaves that to the pod: which says it, or leaves it to
-- a user other than root, on Linux.
unfoldable pub non_root_assured : SecurityContext → SecurityContext → Bool → Bool
non_root_assured pod container windows =
    unless_given (λ b. b) container.run_as_non_root
    && (is_true container.run_as_non_root
        || unless_given (λ b. b) pod.run_as_non_root
          && (is_true pod.run_as_non_root
              || not windows && is_user (or_option container.run_as_user pod.run_as_user)))

unfoldable pub image_pinned : String → Bool
image_pinned image = trim_space image == "" || contains (trim_space image) "@sha256:"

unfoldable pub container_hardened : SecurityContext → Bool → Container → Bool
container_hardened pod windows c =
    let context = c.security_context in
    let linux_only = λ (b : Bool). windows || b in
    not (is_true context.privileged)
    && (all (λ p. is_zero p.host_port) c.ports
        && (linux_only (unless_given (λ m. equal_fold m "Default") context.proc_mount)
            && (linux_only (app_armor_allowed context.app_armor_profile)
                && (linux_only (se_linux_allowed context.se_linux_options)
                    && (windows_allowed context.windows_options
                        && (linux_only (is_given_false context.allow_privilege_escalation)
                            && (non_root_assured pod context windows
                                && (linux_only (seccomp_allowed pod context)
                                    && (linux_only
                                          (all is_allowed_capability context.capabilities.add)
                                        && (linux_only (
                                              any (λ d. equal_fold d "ALL")
                                                context.capabilities.drop)
                                            && (is_true context.read_only_root_filesystem
                                                && image_pinned c.image)))))))))))

unfoldable pub pod_hardened : Workload → Bool
pod_hardened workload =
    let spec = workload.pod_spec in
    let linux_only = λ (b : Bool). is_windows spec.os || b in
    not (spec.host_network || (spec.host_pid || spec.host_ipc))
    && (all volume_allowed spec.volumes
        && (linux_only (all sysctl_allowed spec.security_context.sysctls)
            && (linux_only (app_armor_allowed spec.security_context.app_armor_profile)
                && (linux_only (se_linux_allowed spec.security_context.se_linux_options)
                    && (windows_allowed spec.security_context.windows_options
                        && is_given_false spec.automount_service_account_token)))))

unfoldable pub is_hardened : Workload → Bool
is_hardened workload =
    pod_hardened workload
    && all (container_hardened workload.pod_spec.security_context (is_windows workload.pod_spec.os))
        (all_containers workload.pod_spec)
