-- ===== src/Examples/Graphs.antt =====
-- The analyses of roles and of networks on one workload, one policy and one binding.
use clusterproof.Prelude.{
  ◌*◌, ◌≤◌, List, [], ◌∷◌, ◌≡◌, refl, true, any, some, Result, ok, err, length, map,
}
use clusterproof.Sorting.Insertion.{insertion}
use clusterproof.Model.{Finding}
use clusterproof.Text.Search.{has_char}
use clusterproof.Rbac
use clusterproof.Rbac.Grants.{is_about, grants, analyze-grants}
use clusterproof.Rbac.Roles.{resolve_role-last}
use clusterproof.Rbac.Bounds.{length-analyze}
use clusterproof.Rbac.Deterministic.{analyze_deterministic}
use clusterproof.Network
use clusterproof.Network.HostIpc.{set_host_ipc, exposure_findings-set_host_ipc}
use clusterproof.Examples.{in_order, backwards, shop, gateway, deny_ingress, reader, readers}

-- The value of a result.
abbrev value {ℓ} : {E : Type ℓ} → Result E (List Finding) → List Finding
value (ok findings) = findings
value (err e) = []

abbrev granted : List Finding
granted = value (Rbac.analyze in_order insertion (reader ∷ []) (readers ∷ []) Rbac.default_limits)

granted_ok :
    Rbac.analyze in_order insertion (reader ∷ []) (readers ∷ []) Rbac.default_limits ≡ ok granted
unfolding Rbac.analyze Rbac.count_subjects Rbac.count_rules
granted_ok = refl

analyze-grants_example :
    any (is_about "CP-RBAC-002" "Group/devs") granted
    ≡ any (grants in_order insertion (reader ∷ []) "CP-RBAC-002" "Group/devs") (readers ∷ [])
analyze-grants_example =
    analyze-grants in_order insertion (reader ∷ []) (readers ∷ []) Rbac.default_limits granted
      "CP-RBAC-002" "Group/devs" granted_ok

resolve_role-last_example :
    Rbac.resolve_role (Rbac.role_index_from [] (reader ∷ [])) readers ≡ some reader
unfolding has_char
resolve_role-last_example = resolve_role-last (reader ∷ []) readers ((refl, refl), tt) refl

length-analyze_example : length granted ≤ 7 * 100000
length-analyze_example =
    length-analyze in_order insertion (reader ∷ []) (readers ∷ []) Rbac.default_limits granted
      granted_ok

analyze_deterministic_example :
    Rbac.analyze in_order insertion (reader ∷ []) (readers ∷ []) Rbac.default_limits
    ≡ Rbac.analyze backwards insertion (reader ∷ []) (readers ∷ []) Rbac.default_limits
analyze_deterministic_example =
    analyze_deterministic in_order backwards insertion (reader ∷ []) (readers ∷ [])
      Rbac.default_limits

abbrev reported : List Finding
reported = value (
    Network.analyze in_order insertion (shop ∷ []) (deny_ingress ∷ []) (gateway ∷ [])
      Network.default_limits)

exposure_findings-set_host_ipc_example :
    Network.exposure_findings insertion (map (set_host_ipc true) (shop ∷ [])) (gateway ∷ [])
    ≡ Network.exposure_findings insertion (shop ∷ []) (gateway ∷ [])
exposure_findings-set_host_ipc_example =
    exposure_findings-set_host_ipc insertion true (shop ∷ []) (gateway ∷ [])
