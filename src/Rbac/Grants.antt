-- ===== src/Rbac/Grants.antt =====
-- internal/rbac/rbac.go: which grants `Analyze` reports.
use clusterproof.Prelude.{
  String, not, Option-cases, inl, inr, any_factor, any_factor_right, ◌≡◌, refl, ap, ◌∙◌, Bool, true,
  false, ◌&&◌, Option, none, some, List, [], ◌∷◌, ◌==◌, arith, any, any_ext, any-concat_map,
  any-map, concat_map, has_value, ok,
}
use clusterproof.Maps.{Ranging}
use clusterproof.Sorting.Counts.{any-perm}
use clusterproof.Sorting.Interface.{Sorter}
use clusterproof.Model.{Finding}
use clusterproof.Sorting.Empty.{is_empty}
use clusterproof.Manifest.{RbacRule, RbacRole, RbacBinding}
use clusterproof.Rbac.Checks.{RiskCheck, risk_checks}
use clusterproof.Rbac.{
  Limits, analyze, role_index_from, resolve_role, binding_findings, check_findings, match_role,
  observations, rbac_order, subject_target, grant_finding,
}

-- Whether a check finds something in a rule of a role.
abbrev finds : RiskCheck → RbacRole → Bool
finds check role = any (λ rule. has_value (λ _. true) (check.matches rule)) role.rules

abbrev pub is_about : String → String → Finding → Bool
is_about id target f = f.id == id && f.target == target

module _ (R : Ranging) (S : Sorter) where
  -- A binding whose role is known, and has a rule that the check `id` finds, names the subject.
  abbrev pub grants : List RbacRole → String → String → RbacBinding → Bool
  grants roles id target binding = elim (resolve_role (role_index_from [] roles) binding) [
    | none ↦ false
    | some role ↦
        any (λ check. check.id == id && finds check role) (risk_checks R S)
        && any (λ subject. subject_target subject == target) binding.subjects
  ]

  any-observations :
      (matches : RbacRule → Option String) (rules : List RbacRule)
      → not (is_empty (observations matches rules))
        ≡ any (λ rule. has_value (λ _. true) (matches rule)) rules
  unfolding observations is_empty
  any-observations matches [] = refl
  any-observations matches (rule ∷ rules) = ground (arith, any-observations matches rules)

  finds-match_role :
      (role : RbacRole) (check : RiskCheck)
      → has_value (λ _. true) (match_role R S role check) ≡ finds check role
  unfolding match_role is_empty
  finds-match_role role check = ground (arith, any-observations check.matches role.rules)

  any-check_findings :
      (binding : RbacBinding) (role : RbacRole) (id target : String) (check : RiskCheck)
      → any (is_about id target) (check_findings R S binding role check) ≡ (
          (check.id == id && finds check role)
          && any (λ subject. subject_target subject == target) binding.subjects)
  unfolding check_findings
  any-check_findings binding role id target check =
      elim (Option-cases (match_role R S role check)) [
        | inl e ↦ ground (arith, e, finds-match_role role check)
        | inr (observed, e) ↦ ground (
          arith,
          e,
          finds-match_role role check,
          any-map (is_about id target) (grant_finding binding role check observed) binding.subjects,
          any_factor (check.id == id) (λ subject. subject_target subject == target)
              binding.subjects,
        )
      ]

  any-binding_findings :
      (roles : List RbacRole) (id target : String) (binding : RbacBinding)
      → any (is_about id target) (binding_findings R S (role_index_from [] roles) binding)
        ≡ grants roles id target binding
  unfolding binding_findings
  any-binding_findings roles id target binding =
      elim (Option-cases (resolve_role (role_index_from [] roles) binding)) [
        | inl e ↦ ground (arith, e)
        | inr (role, e) ↦ ground (
          arith,
          e,
          any-concat_map (is_about id target) (check_findings R S binding role) (risk_checks R S),
          any_ext _ _ (any-check_findings binding role id target) (risk_checks R S),
          any_factor_right (any (λ subject. subject_target subject == target) binding.subjects)
              (λ check. check.id == id && finds check role) (risk_checks R S),
        )
      ]

  pub analyze-eq-ok :
      (roles : List RbacRole) (bindings : List RbacBinding) (limits : Limits)
      (findings : List Finding)
      → analyze R S roles bindings limits ≡ ok findings
      → findings
        ≡ S.sort rbac_order (concat_map (binding_findings R S (role_index_from [] roles)) bindings)
  unfolding analyze
  analyze-eq-ok roles bindings limits findings h = ground (arith, h)

  -- Where `Analyze` succeeds, it reports a rule id against a target exactly if some binding names a
  -- subject of that target and resolves to a role of which a rule is found by the check of that id.
  pub analyze-grants :
      (roles : List RbacRole) (bindings : List RbacBinding) (limits : Limits)
      (findings : List Finding) (id target : String)
      → analyze R S roles bindings limits ≡ ok findings
      → any (is_about id target) findings ≡ any (grants roles id target) bindings
  analyze-grants roles bindings limits findings id target h =
      ap (any (is_about id target)) (analyze-eq-ok roles bindings limits findings h)
      ∙ any-perm (is_about id target) (S.sort_perm rbac_order _)
      ∙ any-concat_map (is_about id target) (binding_findings R S (role_index_from [] roles))
          bindings
      ∙ any_ext _ _ (any-binding_findings roles id target) bindings
