-- ===== src/Rbac/Bounds.antt =====
-- internal/rbac/rbac.go: how much `Analyze` can report.
use clusterproof.Prelude.{
  ◌*◌, ◌≤◌, ◌≡◌, List, [], ◌∷◌, arith, length, length-append, length-map, concat_map, Option-cases,
  inl, inr, ok, ap,
}
use clusterproof.Maps.{Map, Ranging}
use clusterproof.Sorting.Counts.{length-perm}
use clusterproof.Sorting.Interface.{Sorter}
use clusterproof.Model.{Finding}
use clusterproof.Manifest.{RbacRole, RbacBinding}
use clusterproof.Rbac.Checks.{RiskCheck, risk_checks}
use clusterproof.Rbac.{
  Limits, analyze, role_index_from, resolve_role, binding_findings, check_findings, match_role,
  rbac_order, grant_finding, count_subjects,
}
use clusterproof.Rbac.Grants.{analyze-eq-ok}

module _ (R : Ranging) (S : Sorter) where
  length-check_findings :
      (binding : RbacBinding) (role : RbacRole) (check : RiskCheck)
      → length (check_findings R S binding role check) ≤ length binding.subjects
  unfolding check_findings
  length-check_findings binding role check = elim (Option-cases (match_role R S role check)) [
    | inl e ↦ ground (arith, e)
    | inr (observed, e) ↦
        ground (arith, e, length-map (grant_finding binding role check observed) binding.subjects)
  ]

  length-checks :
      (binding : RbacBinding) (role : RbacRole) (checks : List RiskCheck)
      → length (concat_map (check_findings R S binding role) checks)
        ≤ length checks * length binding.subjects
  length-checks binding role [] = omega arith
  length-checks binding role (check ∷ checks) = omega (
    arith,
    length-append (check_findings R S binding role check)
        (concat_map (check_findings R S binding role) checks),
    length-check_findings binding role check,
    length-checks binding role checks,
  )

  length-binding_findings :
      (index : Map RbacRole) (binding : RbacBinding)
      → length (binding_findings R S index binding) ≤ 7 * length binding.subjects
  unfolding binding_findings
  length-binding_findings index binding = elim (Option-cases (resolve_role index binding)) [
    | inl e ↦ ground (arith, e)
    | inr (role, e) ↦ ground (arith, e, length-checks binding role (risk_checks R S))
  ]

  length-bindings :
      (index : Map RbacRole) (bindings : List RbacBinding)
      → length (concat_map (binding_findings R S index) bindings) ≤ 7 * count_subjects bindings
  unfolding count_subjects
  length-bindings index [] = omega arith
  length-bindings index (binding ∷ bindings) = omega (
    arith,
    length-append (binding_findings R S index binding)
        (concat_map (binding_findings R S index) bindings),
    length-binding_findings index binding,
    length-bindings index bindings,
  )

  within_subjects :
      (roles : List RbacRole) (bindings : List RbacBinding) (limits : Limits)
      (findings : List Finding)
      → analyze R S roles bindings limits ≡ ok findings
      → count_subjects bindings ≤ limits.max_subjects
  unfolding analyze
  within_subjects roles bindings limits findings h = ground (arith, h)

  -- A successful `Analyze` returns at most seven findings, one for each check, per subject that the
  -- limits allow.
  pub length-analyze :
      (roles : List RbacRole) (bindings : List RbacBinding) (limits : Limits)
      (findings : List Finding)
      → analyze R S roles bindings limits ≡ ok findings
      → length findings ≤ 7 * limits.max_subjects
  length-analyze roles bindings limits findings h = omega (
    arith,
    ap length (analyze-eq-ok R S roles bindings limits findings h),
    length-perm (
        S.sort_perm rbac_order
          (concat_map (binding_findings R S (role_index_from [] roles)) bindings)),
    length-bindings (role_index_from [] roles) bindings,
    within_subjects roles bindings limits findings h,
  )
