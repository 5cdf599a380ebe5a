-- ===== src/Network/HostIpc.antt =====
-- internal/network/network.go: `workloadRisk` does not look at `hostIPC`.
use clusterproof.Prelude.{
  arith, ◌≡◌, refl, ap, fun_ext, ◌∙◌, Bool, List, [], ◌∷◌, ◌++◌, map, concat_map,
}
use clusterproof.Sorting.Interface.{Sorter}
use clusterproof.Model.{Finding}
use clusterproof.Manifest.{Workload, Service, workload_target, all_containers}
use clusterproof.Network.{exposure, service_findings, exposure_findings, workload_risk, risks}

abbrev pub set_host_ipc : Bool → Workload → Workload
set_host_ipc b w = record w { pod_spec = record w.pod_spec { host_ipc = b } }

concat_map-map :
    {A B C : Type 0} (f : B → List C) (g : A → B) (xs : List A)
    → concat_map f (map g xs) ≡ concat_map (λ x. f (g x)) xs
concat_map-map f g [] = refl
concat_map-map f g (x ∷ xs) = ap (λ ys. f (g x) ++ ys) (concat_map-map f g xs)

module _ (S : Sorter) (b : Bool) where
  exposure-set_host_ipc :
      (service : Service) (w : Workload)
      → exposure S service (set_host_ipc b w) ≡ exposure S service w
  unfolding exposure workload_risk risks all_containers workload_target
  exposure-set_host_ipc service w = refl

  exposures-set_host_ipc :
      (service : Service) (workloads : List Workload)
      → concat_map (exposure S service) (map (set_host_ipc b) workloads)
        ≡ concat_map (exposure S service) workloads
  exposures-set_host_ipc service workloads =
      concat_map-map (exposure S service) (set_host_ipc b) workloads
      ∙ ap (λ (f : Workload → List Finding). concat_map f workloads)
          (fun_ext (exposure-set_host_ipc service))

  service_findings-set_host_ipc :
      (workloads : List Workload) (service : Service)
      → service_findings S (map (set_host_ipc b) workloads) service
        ≡ service_findings S workloads service
  unfolding service_findings
  service_findings-set_host_ipc workloads service =
      ground (arith, exposures-set_host_ipc service workloads)

  -- Sharing the host's IPC namespace changes nothing in what is reported as exposed: the findings are
  -- the same when `hostIPC` is set, or cleared, in all workloads.
  pub exposure_findings-set_host_ipc :
      (workloads : List Workload) (services : List Service)
      → exposure_findings S (map (set_host_ipc b) workloads) services
        ≡ exposure_findings S workloads services
  unfolding exposure_findings
  exposure_findings-set_host_ipc workloads services =
      ap (λ (f : Service → List Finding). concat_map f services)
        (fun_ext (service_findings-set_host_ipc workloads))
