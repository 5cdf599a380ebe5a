-- ===== src/Rules/Evaluate/Clean.antt =====
-- internal/rules/rules.go: which workloads have no finding.
use clusterproof.Prelude.{
  ◌≡◌, refl, sym, ap, subst, ◌∙◌, concat_map, all_cong, String, Bool, true, false, not, ◌&&◌, ◌||◌,
  Option, none, some, List, [], ◌∷◌, ◌==◌, arith, all, if◌then◌else◌, eq_iff,
}
use clusterproof.Text.Chars.{to_lower, equal_fold}
use clusterproof.Sorting.Interface.{Sorter}
use clusterproof.Model.{Severity, severity_high, severity_medium}
use clusterproof.Manifest.{
  Workload, Container, Volume, SecurityContext, AppArmor, SeLinux, WindowsOpts, is_windows,
  all_containers,
}
use clusterproof.Rules.Risks.{
  elem, restricted_volume_types, some_joined, app_armor_risk, se_linux_risk, host_process_enabled,
  non_root_risk, user_risk, seccomp_risk, unexpected_capabilities, restricted_volume_violations,
  unsafe_sysctls, host_ports, contains_fold,
}
use clusterproof.Rules.Pod.{host_namespaces, evaluate_pod}
use clusterproof.Rules.Container.{evaluate_container, image_findings, is_pinned, proc_mount_risk}
use clusterproof.Rules.Evaluate.{evaluate, unsorted, severity_order}
use clusterproof.Rules.Evaluate.Hardened.{
  unless_given, is_confined, volume_allowed, app_armor_allowed, se_linux_allowed, windows_allowed,
  seccomp_allowed, non_root_assured, image_pinned, container_hardened, pod_hardened, is_hardened,
}
use clusterproof.Sorting.Empty.{is_empty, is_empty-append, is_empty-sort, is_empty-concat_map}
use clusterproof.Rules.Evaluate.Silent.{
  is_empty-emit, is_empty-emit_texts, is_empty-emit_risk, is_empty-volume_findings,
  is_empty-violations_in, is_empty-unsafe_in, is_empty-unexpected_in, is_empty-host_ports_in,
}

abbrev no_risk : {A : Type 0} → Option A → Bool
no_risk = unless_given (λ _. false)

no_app_armor_risk : (o : Option AppArmor) → no_risk (app_armor_risk o) ≡ app_armor_allowed o
unfolding app_armor_risk app_armor_allowed
no_app_armor_risk none = refl
no_app_armor_risk (some p) = ground arith

no_risk-some_joined : (xs : List String) → no_risk (some_joined xs) ≡ is_empty xs
unfolding is_empty
no_risk-some_joined [] = refl
no_risk-some_joined (x ∷ xs) = refl

no_se_linux_risk : (o : Option SeLinux) → no_risk (se_linux_risk o) ≡ se_linux_allowed o
unfolding se_linux_risk se_linux_allowed
no_se_linux_risk none = refl
no_se_linux_risk (some p) = ground arith

no_host_process : (o : Option WindowsOpts) → not (host_process_enabled o) ≡ windows_allowed o
unfolding host_process_enabled windows_allowed
no_host_process none = refl
no_host_process (some p) = refl

no_non_root_risk :
    (pod container : SecurityContext) (windows : Bool)
    → no_risk (non_root_risk pod container windows) ≡ non_root_assured pod container windows
unfolding non_root_risk user_risk non_root_assured
no_non_root_risk pod container windows = ground arith

-- The effective profile.
is_confined-profile :
    (own pod : String) (b : Bool)
    → (own == "") ≡ b
    → is_confined (to_lower (if b then pod else own))
      ≡ (is_confined (to_lower own) || b && is_confined (to_lower pod))
unfolding to_lower
is_confined-profile own pod true h =
    subst
      (λ s. is_confined (to_lower pod) ≡ (is_confined (to_lower s) || is_confined (to_lower pod)))
      (sym ((eq_iff own "").0 h)) refl
is_confined-profile own pod false h = ground arith

no_risk-profile :
    (profile : String)
    → no_risk {A = Severity × String} (
        if is_confined profile
        then none
        else if profile == "unconfined"
        then some (severity_high, "Unconfined")
        else some (severity_medium, "profile absent"))
      ≡ is_confined profile
no_risk-profile profile = ground arith

no_seccomp_risk :
    (pod container : SecurityContext)
    → no_risk (seccomp_risk pod container) ≡ seccomp_allowed pod container
unfolding seccomp_risk seccomp_allowed
no_seccomp_risk pod container =
    no_risk-profile (
      to_lower (
        if container.seccomp_profile.type == ""
        then pod.seccomp_profile.type
        else container.seccomp_profile.type))
    ∙ is_confined-profile container.seccomp_profile.type pod.seccomp_profile.type _ refl

no_proc_mount_risk :
    (o : Option String) → no_risk (proc_mount_risk o) ≡ unless_given (λ m. equal_fold m "Default") o
unfolding proc_mount_risk
no_proc_mount_risk none = refl
no_proc_mount_risk (some m) = ground arith

is_empty-image_findings :
    (w : Workload) (c : Container) → is_empty (image_findings w c) ≡ image_pinned c.image
unfolding image_findings is_pinned image_pinned is_empty
is_empty-image_findings w c = ground arith

-- The parts of a workload that the two lists of volumes look at, in one test.
all-volume_allowed :
    (vs : List Volume)
    → (all (λ v. no_risk v.host_path) vs
        && all (λ v. all (λ t. t == "hostPath" || elem t restricted_volume_types) v.types) vs)
      ≡ all volume_allowed vs
unfolding volume_allowed
all-volume_allowed [] = refl
all-volume_allowed (v ∷ vs) = ground (arith, all-volume_allowed vs)

is_empty-if :
    (b : Bool) (xs : List String) → is_empty (if not b then xs else []) ≡ (b || is_empty xs)
unfolding is_empty
is_empty-if b xs = ground arith

module _ (S : Sorter) where
  no_pod_finding : (w : Workload) → is_empty (evaluate_pod S w) ≡ pod_hardened w
  unfolding evaluate_pod pod_hardened restricted_volume_violations unsafe_sysctls host_namespaces
      is_empty
  no_pod_finding w =
      simp
        (
          is_empty-append,
          is_empty-emit_texts,
          is_empty-volume_findings,
          is_empty-if,
          is_empty-sort S,
          is_empty-violations_in,
          is_empty-unsafe_in,
          is_empty-emit_risk,
          is_empty-emit,
          no_app_armor_risk,
          no_se_linux_risk,
          no_host_process,
        )
        (ground (arith, all-volume_allowed w.pod_spec.volumes))

  no_container_finding :
      (w : Workload) (c : Container)
      → is_empty (evaluate_container S w c)
        ≡ container_hardened w.pod_spec.security_context (is_windows w.pod_spec.os) c
  unfolding evaluate_container container_hardened unexpected_capabilities host_ports contains_fold
      is_empty
  no_container_finding w c =
      simp
        (
          is_empty-append,
          is_empty-emit_texts,
          is_empty-if,
          is_empty-sort S,
          is_empty-host_ports_in,
          is_empty-unexpected_in,
          is_empty-emit_risk,
          is_empty-emit,
          no_app_armor_risk,
          no_se_linux_risk,
          no_host_process,
          no_proc_mount_risk,
          no_non_root_risk,
          no_seccomp_risk,
          is_empty-image_findings,
        )
        (ground arith)

  -- `Evaluate` reports nothing on a workload exactly if the pod and each of its containers, init and
  -- ephemeral containers included, meets every requirement of the rules.
  pub evaluate-hardened : (w : Workload) → is_empty (evaluate S w) ≡ is_hardened w
  unfolding evaluate unsorted is_hardened
  evaluate-hardened w =
      is_empty-sort S severity_order _
      ∙ is_empty-append (evaluate_pod S w) _
      ∙ ap (λ b. b && is_empty (concat_map (evaluate_container S w) (all_containers w.pod_spec)))
          (no_pod_finding w)
      ∙ ap (λ b. pod_hardened w && b)
          (is_empty-concat_map (evaluate_container S w) (all_containers w.pod_spec)
            ∙ all_cong _ _ (no_container_finding w) (all_containers w.pod_spec))
