-- ===== src/Rules/Evaluate.antt =====
-- internal/rules/rules.go: `Evaluate`.
pub mod Hardened
pub mod Silent
pub mod Clean
use clusterproof.Prelude.{Bool, not, List, ◌++◌, ◌==◌, ltb, if◌then◌else◌, concat_map}
use clusterproof.Sorting.Interface.{Sorter}
use clusterproof.Sorting.Orders.{then_by, by_text}
use clusterproof.Model.{Finding, severity_rank}
use clusterproof.Manifest.{Workload, all_containers}
use clusterproof.Rules.Pod.{evaluate_pod}
use clusterproof.Rules.Container.{evaluate_container}

-- The order of the findings: the higher severity first, then by rule and container. The map
-- `severityRank` of rules.go has the entries of `severityRanks` in model.go.
abbrev pub severity_order : Finding → Finding → Bool
severity_order f g =
    if not (f.severity == g.severity)
    then ltb (severity_rank g.severity) (severity_rank f.severity)
    else then_by (λ h. h.id) (by_text (λ h. h.location.container)) f g

module _ (S : Sorter) where
  unfoldable pub unsorted : Workload → List Finding
  unfolding all_containers
  unsorted workload =
      evaluate_pod S workload
      ++ concat_map (evaluate_container S workload) (all_containers workload.pod_spec)

  unfoldable pub evaluate : Workload → List Finding
  unfolding unsorted
  evaluate workload = S.sort severity_order (unsorted workload)
