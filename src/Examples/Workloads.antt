-- ===== src/Examples/Workloads.antt =====
-- The rules on one workload and on one namespace.
use clusterproof.Prelude.{◌≡◌, true, [], ◌∷◌, all}
use clusterproof.Sorting.Insertion.{insertion}
use clusterproof.Sorting.Empty.{is_empty}
use clusterproof.Manifest.{is_windows}
use clusterproof.Rules.Evaluate.{evaluate}
use clusterproof.Rules.Evaluate.Hardened.{is_hardened}
use clusterproof.Rules.Evaluate.Clean.{evaluate-hardened}
use clusterproof.Rules.Drift.Workloads.{agrees, evaluate-agrees}
use clusterproof.Rules.Psa.{evaluate_namespaces}
use clusterproof.Rules.Psa.Labels.{is_admission_hardened, evaluate_namespaces-hardened}
use clusterproof.Examples.{shop, team}

evaluate-hardened_example : is_empty (evaluate insertion shop) ≡ is_hardened shop
evaluate-hardened_example = evaluate-hardened insertion shop

evaluate-agrees_example :
    all (agrees (is_windows shop.pod_spec.os)) (evaluate insertion shop) ≡ true
evaluate-agrees_example = evaluate-agrees insertion shop

evaluate_namespaces-hardened_example :
    is_empty (evaluate_namespaces insertion (team ∷ [])) ≡ all is_admission_hardened (team ∷ [])
evaluate_namespaces-hardened_example = evaluate_namespaces-hardened insertion (team ∷ [])
