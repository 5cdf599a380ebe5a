-- ===== src/Rbac/Deterministic.antt =====
-- internal/rbac/rbac.go: `Analyze` ranges over the map `targets`, whose order Go leaves open.
use mathlib.Core.List.Perm
use clusterproof.Prelude.{
  ◌≤◌, String, ◌≡◌, refl, sym, ap, fun_ext, ◌∙◌, Bool, true, false, ◌&&◌, none, some, List, [], ◌∷◌,
  ◌==◌, arith, eq_iff, count_if, any, not, concat_map, count_if_le, count_if-filter_map, filter_map,
  has_value, All,
}
use clusterproof.Maps.{Map, Ranging}
use clusterproof.Sorting.Keyed.{Separate, sort_unique, filter_map-perm}
use clusterproof.Sorting.Interface.{Sorter}
use clusterproof.Text.Order.{str_lt, String-set}
use clusterproof.Model.{Finding}
use clusterproof.Manifest.{RbacRule, RbacRole, RbacBinding}
use clusterproof.Rbac.Checks.{
  risk_checks, creatable, creation_targets, workload_creation, shown, check_001, check_002,
  check_003, check_004, check_005, check_006, check_007,
}
use clusterproof.Rbac.{
  Limits, analyze, role_index_from, resolve_role, binding_findings, check_findings, match_role,
}

creatable-target :
    (rule : RbacRule) (k : String) (entry : String × String)
    → has_value (λ x. x == k) (creatable rule entry) ≡ true
    → (entry.0 == k) ≡ true
unfolding creatable
creatable-target rule k (resource, group) h = ground (arith, h)

All-creatable :
    (rule : RbacRule) (k : String) (entries : Map String)
    → All
        (λ entry. has_value (λ x. x == k) (creatable rule entry) ≡ true → (entry.0 == k) ≡ true)
        entries
All-creatable rule k [] = tt
All-creatable rule k (entry ∷ entries) =
    (creatable-target rule k entry, All-creatable rule k entries)

distinct_keys : Map String → Bool
distinct_keys [] = true
distinct_keys ((key, value) ∷ entries) =
    not (any (λ e. e.0 == key) entries) && distinct_keys entries

count_if_none :
    (k : String) (entries : Map String)
    → any (λ e. e.0 == k) entries ≡ false
    → count_if (λ e. e.0 == k) entries ≤ 0
count_if_none k [] h = omega arith
count_if_none k (e ∷ entries) h = ground (arith, count_if_none k entries)

count_if_distinct :
    (k : String) (entries : Map String)
    → distinct_keys entries ≡ true
    → count_if (λ e. e.0 == k) entries ≤ 1
unfolding distinct_keys
count_if_distinct k [] h = omega arith
count_if_distinct k ((key, value) ∷ entries) h =
    ground (arith, eq_iff key k, count_if_distinct k entries, count_if_none key entries)

targets-differ :
    (k : String) → count_if (λ (entry : String × String). entry.0 == k) creation_targets ≤ 1
unfolding distinct_keys
targets-differ k = count_if_distinct k creation_targets refl

creatable-Separate :
    (rule : RbacRule) → Separate (λ (x : String). x) (filter_map (creatable rule) creation_targets)
creatable-Separate rule k = omega (
  arith,
  count_if-filter_map (creatable rule) (λ x. x == k) creation_targets,
  count_if_le (λ entry. has_value (λ x. x == k) (creatable rule entry)) (λ entry. entry.0 == k)
      creation_targets (All-creatable rule k creation_targets),
  targets-differ k,
)

module _ (R T : Ranging) (S : Sorter) where
  workload_creation-order :
      (rule : RbacRule) → workload_creation R S rule ≡ workload_creation T S rule
  unfolding workload_creation
  workload_creation-order rule = ap (λ xs. shown "create: " xs "") (sym (sorted R) ∙ sorted T)
    where
      sorted :
          (Q : Ranging)
          → S.sort str_lt (filter_map (creatable rule) creation_targets)
            ≡ S.sort str_lt (filter_map (creatable rule) (Q.range creation_targets))
      sorted Q =
          sort_unique (λ x. x) String-set S S (filter_map (creatable rule) creation_targets)
            (filter_map (creatable rule) (Q.range creation_targets))
            (Perm.symm (filter_map-perm (creatable rule) (Q.range_perm creation_targets)))
            (creatable-Separate rule)

  risk_checks-order : risk_checks R S ≡ risk_checks T S
  risk_checks-order =
      ap
        (λ m.
          check_001 R S
          ∷ check_002 R S
          ∷ record (check_003 R S) { matches = m }
          ∷ check_004 R S
          ∷ check_005 R S
          ∷ check_006 R S
          ∷ check_007 R S
          ∷ [])
        (fun_ext workload_creation-order)

  binding_findings-order :
      (index : Map RbacRole) (binding : RbacBinding)
      → binding_findings R S index binding ≡ binding_findings T S index binding
  unfolding binding_findings check_findings match_role
  binding_findings-order index binding =
      ap
        (λ checks. elim (resolve_role index binding) [
          | none ↦ []
          | some role ↦ concat_map (check_findings R S binding role) checks
        ])
        risk_checks-order

  -- `Analyze` gives the same result whatever the order in which it visits the map of workload
  -- resources.
  pub analyze_deterministic :
      (roles : List RbacRole) (bindings : List RbacBinding) (limits : Limits)
      → analyze R S roles bindings limits ≡ analyze T S roles bindings limits
  unfolding analyze
  analyze_deterministic roles bindings limits = ground (
    arith,
    ap (λ (f : RbacBinding → List Finding). concat_map f bindings)
        (fun_ext (binding_findings-order (role_index_from [] roles))),
  )
