-- ===== src/Rules/Risks.antt =====
-- internal/rules/rules.go: the helpers that decide and describe a risk.
use Prim.Native.String.{◌++◌ as append}
use clusterproof.Prelude.{
  ℤ, is_zero, int_text, String, Bool, true, false, not, ◌||◌, Option, none, some, List, [], ◌∷◌,
  ◌++◌, ◌==◌, if◌then◌else◌, any,
}
use clusterproof.Text.Chars.{to_lower, to_upper, equal_fold}
use clusterproof.Text.Space.{trim_space, join}
use clusterproof.Text.Search.{contains, split_last}
use clusterproof.Text.Order.{str_lt}
use clusterproof.Sorting.Interface.{Sorter}
use clusterproof.Model.{Severity, severity_high, severity_medium}
use clusterproof.Manifest.{
  SecurityContext, AppArmor, SeLinux, WindowsOpts, Sysctl, Volume, ContainerPort,
}

-- Whether a list of texts holds one: a read of the set `seen`.
abbrev pub elem : String → List String → Bool
elem x = any (λ y. y == x)

abbrev pub is_true : Option Bool → Bool
is_true none = false
is_true (some b) = b

-- A pointer that is nil or points to true.
abbrev pub nil_or_true : Option Bool → Bool
nil_or_true none = true
nil_or_true (some b) = b

-- The answer of `nonRootRisk` and `seccompRisk` where there is a risk.
abbrev Risk : Type 0
Risk = Option (Severity × String)

-- The part of `nonRootRisk` that looks at `runAsUser`.
unfoldable pub user_risk : Option ℤ → Risk
user_risk none = some (severity_medium, "non-root policy absent")
user_risk (some user) = if is_zero user then some (severity_high, "runAsUser: 0") else none

abbrev pub or_option : {A : Type 0} → Option A → Option A → Option A
or_option none d = d
or_option (some a) d = some a

unfoldable pub non_root_risk : SecurityContext → SecurityContext → Bool → Risk
unfolding user_risk is_zero
non_root_risk pod container windows = elim container.run_as_non_root [
  | some true ↦ none
  | some false ↦ some (severity_high, "container runAsNonRoot: false")
  | none ↦ elim pod.run_as_non_root [
    | some true ↦ none
    | some false ↦ some (severity_high, "pod runAsNonRoot: false")
    | none ↦
        if windows
        then some (severity_medium, "non-root policy absent")
        else user_risk (or_option container.run_as_user pod.run_as_user)
  ]
]

unfoldable pub seccomp_risk : SecurityContext → SecurityContext → Risk
seccomp_risk pod container =
    let own = container.seccomp_profile.type in
    let profile = to_lower (if own == "" then pod.seccomp_profile.type else own) in
    if profile == "runtimedefault" || profile == "localhost"
    then none
    else if profile == "unconfined"
    then some (severity_high, "Unconfined")
    else some (severity_medium, "profile absent")

abbrev pub is_allowed_capability : String → Bool
is_allowed_capability c = equal_fold c "NET_BIND_SERVICE"

-- The loop of `unexpectedCapabilities`.
unfoldable pub unexpected_in : List String → List String
unexpected_in [] = []
unexpected_in (c ∷ cs) =
    let rest = unexpected_in cs in if not (is_allowed_capability c) then to_upper c ∷ rest else rest

abbrev pub restricted_volume_types : List String
restricted_volume_types =
    "configMap" ∷ "csi" ∷ "downwardAPI" ∷ "emptyDir" ∷ "ephemeral" ∷ "persistentVolumeClaim"
    ∷ "projected" ∷ "secret" ∷ []

-- Appends an entry that was not seen before. (`seen` holds the entries appended so far.)
abbrev pub append_new : List String → String → List String
append_new seen entry = if elem entry seen then seen else seen ++ entry ∷ []

-- The inner loop of `restrictedVolumeViolations`, over the types of one volume.
unfoldable pub volume_violations : String → List String → List String → List String
volume_violations name seen [] = seen
volume_violations name seen (t ∷ ts) =
    volume_violations name
      (if t == "hostPath" || elem t restricted_volume_types
        then seen
        else append_new seen (append name (append ":" t)))
      ts

unfoldable pub violations_in : List String → List Volume → List String
unfolding volume_violations
violations_in seen [] = seen
violations_in seen (v ∷ vs) = violations_in (volume_violations v.name seen v.types) vs

abbrev pub safe_sysctls : List String
safe_sysctls =
    "kernel.shm_rmid_forced" ∷ "net.ipv4.ip_local_port_range" ∷ "net.ipv4.ip_local_reserved_ports"
    ∷ "net.ipv4.ip_unprivileged_port_start" ∷ "net.ipv4.ping_group_range"
    ∷ "net.ipv4.tcp_fin_timeout" ∷ "net.ipv4.tcp_keepalive_intvl" ∷ "net.ipv4.tcp_keepalive_probes"
    ∷ "net.ipv4.tcp_keepalive_time" ∷ "net.ipv4.tcp_rmem" ∷ "net.ipv4.tcp_syncookies"
    ∷ "net.ipv4.tcp_wmem" ∷ []

pub sysctl_name : Sysctl → String
sysctl_name s = let name = trim_space s.name in if name == "" then "(unnamed sysctl)" else name

-- The loop of `unsafeSysctls`.
unfoldable pub unsafe_in : List String → List Sysctl → List String
unfolding sysctl_name
unsafe_in seen [] = seen
unsafe_in seen (s ∷ ss) =
    unsafe_in (if elem (sysctl_name s) safe_sysctls then seen else append_new seen (sysctl_name s))
      ss

unfoldable pub app_armor_risk : Option AppArmor → Option String
app_armor_risk none = none
app_armor_risk (some profile) =
    let type = to_lower profile.type in
    if type == "runtimedefault" || type == "localhost"
    then none
    else if type == "unconfined"
    then some "appArmorProfile.type: Unconfined"
    else some (append "appArmorProfile.type: " profile.type)

abbrev pub is_allowed_se_linux_type : String → Bool
is_allowed_se_linux_type t =
    t == ""
    || t == "container_t"
    || t == "container_init_t"
    || t == "container_kvm_t"
    || t == "container_engine_t"

abbrev pub text_if : Bool → String → List String
text_if test text = if test then text ∷ [] else []

abbrev pub some_joined : List String → Option String
some_joined [] = none
some_joined (x ∷ xs) = some (join ", " (x ∷ xs))

unfoldable pub se_linux_risk : Option SeLinux → Option String
se_linux_risk none = none
se_linux_risk (some options) = some_joined (
    text_if (not (options.user == "")) "user set"
    ++ (text_if (not (options.role == "")) "role set"
        ++ text_if (not (is_allowed_se_linux_type options.type)) (append "type: " options.type)))

unfoldable pub host_process_enabled : Option WindowsOpts → Bool
host_process_enabled none = false
host_process_enabled (some options) = is_true options.host_process

-- The loop of `hostPorts`.
unfoldable pub host_ports_in : List String → List ContainerPort → List String
unfolding is_zero int_text
host_ports_in seen [] = seen
host_ports_in seen (p ∷ ps) =
    host_ports_in (if is_zero p.host_port then seen else append_new seen (int_text p.host_port)) ps

unfoldable pub contains_fold : List String → String → Bool
contains_fold values expected = any (λ v. equal_fold v expected) values

-- The text behind the last colon, if that colon stands behind the last slash.
tag_of : String → Option String
unfolding split_last contains
tag_of image = elim (split_last b':' image) [
  | none ↦ none
  | some (before, tag) ↦ if contains tag "/" then none else some tag
]

pub image_uses_latest : String → Bool
unfolding tag_of
image_uses_latest image = elim (tag_of image) [ none ↦ true | some tag ↦ equal_fold tag "latest" ]

module _ (S : Sorter) where
  abbrev sort_strings : List String → List String
  sort_strings = S.sort str_lt

  unfoldable pub unexpected_capabilities : List String → List String
  unfolding unexpected_in
  unexpected_capabilities capabilities = sort_strings (unexpected_in capabilities)

  unfoldable pub restricted_volume_violations : List Volume → List String
  unfolding violations_in
  restricted_volume_violations volumes = sort_strings (violations_in [] volumes)

  unfoldable pub unsafe_sysctls : List Sysctl → List String
  unfolding unsafe_in
  unsafe_sysctls sysctls = sort_strings (unsafe_in [] sysctls)

  unfoldable pub host_ports : List ContainerPort → List String
  unfolding host_ports_in
  host_ports ports = sort_strings (host_ports_in [] ports)
