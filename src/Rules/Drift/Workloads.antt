-- ===== src/Rules/Drift/Workloads.antt =====
-- internal/rules/rules.go: the findings on workloads and the catalog.
use clusterproof.Prelude.{
  String, ◌≡◌, refl, ◌∙◌, Bool, true, not, ◌&&◌, ◌||◌, List, [], ◌∷◌, arith, all,
}
use clusterproof.Sorting.Counts.{all-perm}
use clusterproof.Sorting.Interface.{Sorter}
use clusterproof.Model.{Finding, Severity}
use clusterproof.Manifest.{Workload, Container, Volume, is_windows, all_containers}
use clusterproof.Rules.Risks.{nil_or_true, contains_fold}
use clusterproof.Rules.Pod.{evaluate_pod, volume_findings}
use clusterproof.Rules.Pod.Findings.{
  pod_k8s_002, pod_k8s_003, pod_k8s_012, pod_k8s_014, pod_k8s_015, pod_k8s_016, pod_k8s_017,
  pod_k8s_010,
}
use clusterproof.Rules.Container.{evaluate_container, image_findings}
use clusterproof.Rules.Container.Findings.{
  container_k8s_001, container_k8s_011, container_k8s_013, container_k8s_015, container_k8s_016,
  container_k8s_017, container_k8s_004, container_k8s_005, container_k8s_006, container_k8s_007,
  container_k8s_008, container_k8s_009, container_supply_001, container_supply_002,
}
use clusterproof.Rules.Evaluate.{evaluate, unsorted, severity_order}
use clusterproof.Rules.Drift.{is_listed, is_for_windows}
use clusterproof.Rules.Drift.Emitted.{
  Emits, Emits-append, Emits-emit, Emits-emit_texts, Emits-emit_risk, Emits-concat_map,
  Emits-emit_texts_if,
}

-- The finding is as the catalog lists it, and on Windows its rule is declared for Windows.
pub agrees : Bool → Finding → Bool
agrees windows f = is_listed f && (not windows || is_for_windows f)

agrees-everywhere :
    (windows : Bool) (f : Finding)
    → is_listed f ≡ true
    → is_for_windows f ≡ true
    → agrees windows f ≡ true
unfolding agrees
agrees-everywhere windows f h k = ground arith

agrees-linux :
    (windows : Bool) (f : Finding)
    → is_listed f ≡ true
    → not windows ≡ true
    → agrees windows f ≡ true
unfolding agrees
agrees-linux windows f h k = ground arith

and_left : (a b : Bool) → (a && b) ≡ true → a ≡ true
and_left a b h = ground arith

module _ (w : Workload) (windows : Bool) where
  all-volume_findings : (vs : List Volume) → all (agrees windows) (volume_findings w vs) ≡ true
  unfolding volume_findings is_listed is_for_windows
  all-volume_findings [] = refl
  all-volume_findings (v ∷ vs) =
      ground
        (arith, agrees-everywhere windows (pod_k8s_003 w v.name) refl refl, all-volume_findings vs)

module _ (S : Sorter) (w : Workload) where
  pod-agrees : Emits (agrees (is_windows w.pod_spec.os)) (evaluate_pod S w)
  unfolding evaluate_pod is_listed is_for_windows
  pod-agrees =
      let windows = is_windows w.pod_spec.os in
      let p = agrees windows in
      let linux = not windows in
      Emits-append p _ _
        (Emits-emit_texts p (pod_k8s_002 w) _
          (λ xs. agrees-everywhere windows (pod_k8s_002 w xs) refl refl))
        (Emits-append p _ _ (record { every = all-volume_findings w windows w.pod_spec.volumes })
          (Emits-append p _ _
            (Emits-emit_texts p (pod_k8s_012 w) _
              (λ xs. agrees-everywhere windows (pod_k8s_012 w xs) refl refl))
            (Emits-append p _ _
              (Emits-emit_texts_if p linux (pod_k8s_014 w) _
                (λ l xs. agrees-linux windows (pod_k8s_014 w xs) refl l))
              (Emits-append p _ _
                (Emits-emit_risk p linux (pod_k8s_015 w) _
                  (λ l a. agrees-linux windows (pod_k8s_015 w a) refl l))
                (Emits-append p _ _
                  (Emits-emit_risk p linux (pod_k8s_016 w) _
                    (λ l a. agrees-linux windows (pod_k8s_016 w a) refl l))
                  (Emits-append p _ _
                    (Emits-emit p _ (pod_k8s_017 w)
                      (λ _. agrees-everywhere windows (pod_k8s_017 w) refl refl))
                    (Emits-emit p _ (pod_k8s_010 w)
                      (λ _. agrees-everywhere windows (pod_k8s_010 w) refl refl))))))))

  image-agrees : (c : Container) → Emits (agrees (is_windows w.pod_spec.os)) (image_findings w c)
  unfolding image_findings is_listed is_for_windows
  image-agrees c = record {
    every = ground (
      arith,
      agrees-everywhere (is_windows w.pod_spec.os) (container_supply_001 w c) refl refl,
      agrees-everywhere (is_windows w.pod_spec.os) (container_supply_002 w c) refl refl,
    );
  }

  container-agrees :
      (c : Container) → Emits (agrees (is_windows w.pod_spec.os)) (evaluate_container S w c)
  unfolding evaluate_container is_listed is_for_windows
  container-agrees c =
      let windows = is_windows w.pod_spec.os in
      let p = agrees windows in
      let linux = not windows in
      Emits-append p _ _
        (Emits-emit p _ (container_k8s_001 w c)
          (λ _. agrees-everywhere windows (container_k8s_001 w c) refl refl))
        (Emits-append p _ _
          (Emits-emit_texts p (container_k8s_011 w c) _
            (λ xs. agrees-everywhere windows (container_k8s_011 w c xs) refl refl))
          (Emits-append p _ _
            (Emits-emit_risk p linux (container_k8s_013 w c) _
              (λ l a. agrees-linux windows (container_k8s_013 w c a) refl l))
            (Emits-append p _ _
              (Emits-emit_risk p linux (container_k8s_015 w c) _
                (λ l a. agrees-linux windows (container_k8s_015 w c a) refl l))
              (Emits-append p _ _
                (Emits-emit_risk p linux (container_k8s_016 w c) _
                  (λ l a. agrees-linux windows (container_k8s_016 w c a) refl l))
                (Emits-append p _ _
                  (Emits-emit p _ (container_k8s_017 w c)
                    (λ _. agrees-everywhere windows (container_k8s_017 w c) refl refl))
                  (Emits-append p _ _
                    (Emits-emit p _ (container_k8s_004 w c) (λ e.
                      agrees-linux windows (container_k8s_004 w c) refl (
                        and_left linux (nil_or_true c.security_context.allow_privilege_escalation)
                          e)))
                    (Emits-append p _ _
                      (Emits-emit_risk p true
                        (λ (r : Severity × String). container_k8s_005 w c r.0 r.1) _
                        (λ _ r.
                          agrees-everywhere windows (container_k8s_005 w c r.0 r.1) refl refl))
                      (Emits-append p _ _
                        (Emits-emit_risk p linux
                          (λ (r : Severity × String). container_k8s_006 w c r.0 r.1) _
                          (λ l r. agrees-linux windows (container_k8s_006 w c r.0 r.1) refl l))
                        (Emits-append p _ _
                          (Emits-emit_texts_if p linux (container_k8s_007 w c) _
                            (λ l xs. agrees-linux windows (container_k8s_007 w c xs) refl l))
                          (Emits-append p _ _
                            (Emits-emit p _ (container_k8s_008 w c) (λ e.
                              agrees-linux windows (container_k8s_008 w c) refl (
                                and_left linux
                                  (not (contains_fold c.security_context.capabilities.drop "ALL"))
                                  e)))
                            (Emits-append p _ _
                              (Emits-emit p _ (container_k8s_009 w c)
                                (λ _. agrees-everywhere windows (container_k8s_009 w c) refl refl))
                              (image-agrees c))))))))))))

  -- Every finding that `Evaluate` emits has the title, the texts and the controls that the catalog
  -- lists for its id; and on a Windows workload its rule is one that the catalog declares for Windows.
  pub evaluate-agrees : all (agrees (is_windows w.pod_spec.os)) (evaluate S w) ≡ true
  unfolding evaluate unsorted
  evaluate-agrees =
      let p = agrees (is_windows w.pod_spec.os) in
      all-perm p (S.sort_perm severity_order _)
      ∙ (Emits-append p _ _ pod-agrees (
          Emits-concat_map p (evaluate_container S w) (all_containers w.pod_spec)
            container-agrees)).every
