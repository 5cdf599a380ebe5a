-- ===== src/Rbac.antt =====
-- internal/rbac/rbac.go: the analysis of role bindings.
pub mod Checks
pub mod Roles
pub mod Grants
pub mod Bounds
pub mod Deterministic
use Prim.Native.String.{◌++◌ as append}
use clusterproof.Prelude.{
  ℕ, ◌+◌, String, Bool, not, ◌&&◌, ◌||◌, Option, none, some, List, [], ◌∷◌, ◌++◌, ◌==◌,
  if◌then◌else◌, leb, ltb, length, map, concat_map, push_some, Result, ok, err, ◌>>=◌, ◌>>◌, refuse,
}
use clusterproof.Text.Keys.{nul_join}
use clusterproof.Text.Order.{str_lt}
use clusterproof.Text.Space.{join}
use clusterproof.Maps.{Map, get, put, Ranging}
use clusterproof.Sorting.Interface.{Sorter}
use clusterproof.Sorting.Orders.{then_by, by_text}
use clusterproof.Model.{Finding}
use clusterproof.Manifest.{RbacRule, RbacRole, RbacSubject, RbacBinding}
use Checks.{RiskCheck, risk_checks}

-- `limits <= 0` is a limit of 0: the limits of the callers are not negative.
pub record Limits : Type 0 where
  pub max_roles : ℕ
  pub max_bindings : ℕ
  pub max_subjects : ℕ
  pub max_rules : ℕ

abbrev pub default_limits : Limits
default_limits = record {
  max_roles = 10000;
  max_bindings = 20000;
  max_subjects = 100000;
  max_rules = 100000;
}

pub data RbacError : Type 0 where
  limits_not_positive : RbacError
  too_many_roles too_many_bindings too_many_subjects too_many_rules : ℕ → RbacError

abbrev pub role_key : String → String → String → String
role_key kind namespace name = nul_join kind (nul_join namespace name)

-- The loop that fills `roleIndex`.
pub role_index_from : Map RbacRole → List RbacRole → Map RbacRole
role_index_from index [] = index
role_index_from index (role ∷ roles) =
    role_index_from (put (role_key role.kind role.namespace role.name) role index) roles

pub resolve_role : Map RbacRole → RbacBinding → Option RbacRole
resolve_role index binding =
    if binding.role_kind == "ClusterRole"
    then get (role_key "ClusterRole" "" binding.role_name) index
    else get (role_key "Role" binding.namespace binding.role_name) index

pub binding_path : RbacBinding → String
binding_path binding = append binding.kind (
    append " " (
      if not (binding.namespace == "")
      then append binding.namespace (append "/" binding.name)
      else binding.name))

pub subject_target : RbacSubject → String
subject_target subject =
    if subject.kind == "ServiceAccount" && not (subject.namespace == "")
    then append subject.namespace (append "/ServiceAccount/" subject.name)
    else append subject.kind (append "/" subject.name)

-- `dedupe` drops a text that equals its predecessor. It writes into the array that it reads, behind
-- the place that it reads: so the array is read as it was.
dedupe_after : String → List String → List String
dedupe_after previous [] = []
dedupe_after previous (value ∷ values) =
    let rest = dedupe_after value values in if value == previous then rest else value ∷ rest

dedupe : List String → List String
unfolding dedupe_after
dedupe [] = []
dedupe (value ∷ values) = value ∷ dedupe_after value values

-- The loop of `matchRole`.
pub observations : (RbacRule → Option String) → List RbacRule → List String
observations matches [] = []
observations matches (rule ∷ rules) = push_some (matches rule) (observations matches rules)

abbrev pub rbac_order : Finding → Finding → Bool
rbac_order = then_by (λ f. f.id) (then_by (λ f. f.target) (by_text (λ f. f.evidence.observed)))

unfoldable pub count_subjects : List RbacBinding → ℕ
count_subjects [] = 0
count_subjects (binding ∷ bindings) = length binding.subjects + count_subjects bindings

unfoldable pub count_rules : List RbacRole → ℕ
count_rules [] = 0
count_rules (role ∷ roles) = length role.rules + count_rules roles

pub scope_text : RbacBinding → String
scope_text binding =
    if binding.kind == "ClusterRoleBinding"
    then "cluster-wide"
    else append "namespace " binding.namespace

abbrev pub grant_finding : RbacBinding → RbacRole → RiskCheck → String → RbacSubject → Finding
grant_finding binding role check observed subject = record {
  id = check.id;
  severity = check.severity;
  title = check.title;
  description = check.description;
  remediation = check.remediation;
  source = "clusterproof";
  target = subject_target subject;
  location = binding.location;
  evidence = record {
    observed = append (binding_path binding) (
        append " -> " (
          append role.kind (
            append " " (
              append role.name
                (append " (" (append (scope_text binding) (append "): " observed)))))));
    expected = check.expected;
  };
  control_refs = "SOC2:CC6" ∷ "Kubernetes:RBAC-Good-Practices" ∷ [];
  external_refs =
      ("guidance", "https://kubernetes.io/docs/concepts/security/rbac-good-practices/") ∷ [];
}

module _ (R : Ranging) (S : Sorter) where
  pub match_role : RbacRole → RiskCheck → Option String
  unfolding observations dedupe
  match_role role check = elim (observations check.matches role.rules) [
    | [] ↦ none
    | (o ∷ os) ↦ some (join "; " (dedupe (S.sort str_lt (o ∷ os))))
  ]

  -- The loops over the checks and the subjects of a binding.
  unfoldable pub check_findings : RbacBinding → RbacRole → RiskCheck → List Finding
  unfolding match_role
  check_findings binding role check = elim (match_role role check) [
    | none ↦ []
    | some observed ↦ map (grant_finding binding role check observed) binding.subjects
  ]

  unfoldable pub binding_findings : Map RbacRole → RbacBinding → List Finding
  unfolding resolve_role check_findings
  binding_findings index binding = elim (resolve_role index binding) [
    | none ↦ []
    | some role ↦ concat_map (check_findings binding role) (risk_checks R S)
  ]

  unfoldable pub analyze :
      List RbacRole → List RbacBinding → Limits → Result RbacError (List Finding)
  unfolding role_index_from binding_findings count_subjects count_rules
  analyze roles bindings limits = do
    refuse
        (leb limits.max_roles 0
          || (leb limits.max_bindings 0 || (leb limits.max_subjects 0 || leb limits.max_rules 0)))
        limits_not_positive
    refuse (ltb limits.max_roles (length roles)) (too_many_roles limits.max_roles)
    refuse (ltb limits.max_bindings (length bindings)) (too_many_bindings limits.max_bindings)
    refuse (ltb limits.max_subjects (count_subjects bindings))
        (too_many_subjects limits.max_subjects)
    refuse (ltb limits.max_rules (count_rules roles)) (too_many_rules limits.max_rules)
    let index = role_index_from [] roles
    ok (S.sort rbac_order (concat_map (binding_findings index) bindings))
