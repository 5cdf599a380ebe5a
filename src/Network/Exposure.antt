-- ===== src/Network/Exposure.antt =====
-- internal/network/network.go: which workloads `exposureFindings` reports.
use Prim.Native.String.{◌++◌ as append}
use clusterproof.Prelude.{
  String, ◌≡◌, refl, ◌∙◌, Bool, false, not, ◌&&◌, ◌||◌, List, [], ◌∷◌, ◌==◌, arith, any, any_ext,
  any-concat_map, any_factor,
}
use clusterproof.Text.Empty.{append-eq_empty}
use clusterproof.Text.Space.{join}
use clusterproof.Text.Order.{str_lt}
use clusterproof.Sorting.Empty.{is_empty, is_empty-sort}
use clusterproof.Sorting.Counts.{any-perm}
use clusterproof.Sorting.Interface.{Sorter}
use clusterproof.Model.{Finding}
use clusterproof.Manifest.{
  Workload, Container, Service, or_default, workload_target, all_containers,
}
use clusterproof.Rules.Risks.{is_true}
use clusterproof.Network.{
  labels_match, is_external, container_risks, risks, workload_risk, exposure, service_findings,
  exposure_findings,
}

-- Texts none of which is empty join to the empty text only if there are none.
join-eq_empty :
    (xs : List String) → any (λ x. x == "") xs ≡ false → (join ", " xs == "") ≡ is_empty xs
unfolding join is_empty
join-eq_empty [] h = refl
join-eq_empty (x ∷ []) h = ground arith
join-eq_empty (x ∷ y ∷ xs) h = ground (arith, append-eq_empty x (append ", " (join ", " (y ∷ xs))))

container_risks-not_empty : (cs : List Container) → any (λ x. x == "") (container_risks cs) ≡ false
unfolding container_risks
container_risks-not_empty [] = refl
container_risks-not_empty (c ∷ cs) =
    ground (arith, container_risks-not_empty cs, append-eq_empty "privileged container " c.name)

risks-not_empty : (w : Workload) → any (λ x. x == "") (risks w) ≡ false
unfolding risks
risks-not_empty w = ground (arith, container_risks-not_empty (all_containers w.pod_spec))

is_empty-container_risks :
    (cs : List Container)
    → is_empty (container_risks cs) ≡ not (any (λ c. is_true c.security_context.privileged) cs)
unfolding container_risks is_empty
is_empty-container_risks [] = refl
is_empty-container_risks (c ∷ cs) = ground (arith, is_empty-container_risks cs)

-- The posture that exposure reports: the host's network or processes, or a privileged container.
pub is_risky : Workload → Bool
is_risky w =
    w.pod_spec.host_network
    || (w.pod_spec.host_pid
        || any (λ c. is_true c.security_context.privileged) (all_containers w.pod_spec))

is_empty-risks : (w : Workload) → is_empty (risks w) ≡ not (is_risky w)
unfolding risks is_risky is_empty
is_empty-risks w = ground (arith, is_empty-container_risks (all_containers w.pod_spec))

-- A service that is reachable from outside, with a selector, and a workload that it selects.
pub exposes : Service → Workload → Bool
exposes service workload =
    is_external service
    && (not (is_empty service.selector)
        && (or_default workload.namespace == or_default service.namespace
            && labels_match service.selector workload.pod_labels))

abbrev reached : Service → String → Workload → Bool
reached service target w =
    or_default w.namespace == or_default service.namespace
    && (labels_match service.selector w.pod_labels && (is_risky w && workload_target w == target))

exposes-reached :
    (service : Service) (target : String) (w : Workload)
    → (exposes service w && (is_risky w && workload_target w == target))
      ≡ ((is_external service && not (is_empty service.selector)) && reached service target w)
unfolding exposes
exposes-reached service target w = ground arith

abbrev pub is_exposure : String → Finding → Bool
is_exposure target f = f.id == "CP-NET-002" && f.target == target

module _ (S : Sorter) where
  workload_risk-eq_empty : (w : Workload) → (workload_risk S w == "") ≡ not (is_risky w)
  unfolding workload_risk
  workload_risk-eq_empty w =
      join-eq_empty (S.sort str_lt (risks w))
        (any-perm (λ x. x == "") (S.sort_perm str_lt (risks w)) ∙ risks-not_empty w)
      ∙ is_empty-sort S str_lt (risks w)
      ∙ is_empty-risks w

  any-exposure :
      (target : String) (service : Service) (w : Workload)
      → any (is_exposure target) (exposure S service w) ≡ (
          or_default w.namespace == or_default service.namespace
          && (labels_match service.selector w.pod_labels
              && (is_risky w && workload_target w == target)))
  unfolding exposure
  any-exposure target service w = ground (arith, workload_risk-eq_empty w)

  any-service_findings :
      (target : String) (workloads : List Workload) (service : Service)
      → any (is_exposure target) (service_findings S workloads service)
        ≡ any (λ w. exposes service w && (is_risky w && workload_target w == target)) workloads
  unfolding service_findings exposes is_empty
  any-service_findings target workloads service = ground (
    arith,
    any-concat_map (is_exposure target) (exposure S service) workloads,
    any_ext (λ w. any (is_exposure target) (exposure S service w)) (reached service target)
        (any-exposure target service) workloads,
    any_ext (λ w. exposes service w && (is_risky w && workload_target w == target))
        (λ w. (is_external service && not (is_empty service.selector)) && reached service target w)
        (exposes-reached service target) workloads,
    any_factor (is_external service && not (is_empty service.selector)) (reached service target)
        workloads,
  )

  pub any-exposure_findings :
      (target : String) (workloads : List Workload) (services : List Service)
      → any (is_exposure target) (exposure_findings S workloads services)
        ≡ any
            (λ service.
              any (λ w. exposes service w && (is_risky w && workload_target w == target)) workloads)
            services
  unfolding exposure_findings
  any-exposure_findings target workloads services =
      any-concat_map (is_exposure target) (service_findings S workloads) services
      ∙ any_ext _ _ (any-service_findings target workloads) services
