-- ===== src/Rbac/Checks.antt =====
-- internal/rbac/rbac.go: the patterns of privilege, `riskChecks`.
use Prim.Native.String.{◌++◌ as append}
use clusterproof.Prelude.{
  String, Bool, true, not, ◌&&◌, ◌||◌, Option, none, some, List, [], ◌∷◌, ◌++◌, ◌==◌, if◌then◌else◌,
  any, map, keep_if, filter_map,
}
use clusterproof.Text.Chars.{to_lower, equal_fold}
use clusterproof.Text.Order.{str_lt}
use clusterproof.Text.Space.{join}
use clusterproof.Maps.{Map, Ranging}
use clusterproof.Sorting.Interface.{Sorter}
use clusterproof.Model.{Severity, severity_critical, severity_high, severity_medium}
use clusterproof.Manifest.{RbacRule}

pub record RiskCheck : Type 0 where
  pub id : String
  pub severity : Severity
  pub title : String
  pub description : String
  pub remediation : String
  pub expected : String
  pub matches : RbacRule → Option String

contains_wildcard : List String → Bool
contains_wildcard values = any (λ value. value == "*") values

has_verb : List String → String → Bool
has_verb verbs verb = any (λ candidate. candidate == "*" || equal_fold candidate verb) verbs

-- No API group stands for every group.
abbrev group_matched : List String → String → Bool
group_matched [] group = true
group_matched (g ∷ gs) group =
    any (λ api_group. api_group == "*" || equal_fold api_group group) (g ∷ gs)

matches_resource : RbacRule → String → String → Bool
matches_resource rule group resource =
    group_matched rule.api_groups group
    && any (λ candidate. candidate == "*" || equal_fold candidate resource) rule.resources

read_verbs : List String → List String
read_verbs verbs = keep_if (has_verb verbs) ("get" ∷ "list" ∷ "watch" ∷ [])

-- A text if there are any entries to show.
abbrev pub shown : String → List String → String → Option String
shown before [] after = none
shown before (x ∷ xs) after = some (append before (append (join ", " (x ∷ xs)) after))

pub wildcard_grant : RbacRule → Option String
unfolding contains_wildcard
wildcard_grant rule =
    if contains_wildcard rule.verbs && contains_wildcard rule.resources
    then some "verbs: [*], resources: [*]"
    else none

pub secrets_read : RbacRule → Option String
unfolding matches_resource read_verbs
secrets_read rule =
    if not (matches_resource rule "" "secrets")
    then none
    else shown "secrets: " (read_verbs rule.verbs) ""

-- The map `targets`, from resource to group.
abbrev pub creation_targets : Map String
creation_targets =
    ("pods", "")
    ∷ ("deployments", "apps")
    ∷ ("daemonsets", "apps")
    ∷ ("statefulsets", "apps")
    ∷ ("replicasets", "apps")
    ∷ ("jobs", "batch")
    ∷ ("cronjobs", "batch")
    ∷ []

-- The body of the loop over `targets`.
unfoldable pub creatable : RbacRule → String × String → Option String
unfolding matches_resource has_verb
creatable rule (resource, group) =
    if matches_resource rule group resource && has_verb rule.verbs "create"
    then some resource
    else none

pub pod_exec : RbacRule → Option String
unfolding matches_resource has_verb
pod_exec rule =
    if matches_resource rule "" "pods/exec"
      && (has_verb rule.verbs "create" || has_verb rule.verbs "get")
    then some "pods/exec granted"
    else none

pub bind_or_escalate : RbacRule → Option String
unfolding has_verb
bind_or_escalate rule =
    shown ""
      ((if has_verb rule.verbs "bind" then "bind" ∷ [] else [])
        ++ (if has_verb rule.verbs "escalate" then "escalate" ∷ [] else []))
      " granted"

pub token_creation : RbacRule → Option String
unfolding matches_resource has_verb
token_creation rule =
    if matches_resource rule "" "serviceaccounts/token" && has_verb rule.verbs "create"
    then some "serviceaccounts/token: create"
    else none

module _ (S : Sorter) where
  lower_all : List String → List String
  lower_all values = S.sort str_lt (map to_lower values)

  pub impersonation : RbacRule → Option String
  unfolding has_verb lower_all
  impersonation rule =
      if has_verb rule.verbs "impersonate"
      then some (append "impersonate: " (join ", " (lower_all rule.resources)))
      else none

module _ (R : Ranging) (S : Sorter) where
  unfoldable pub workload_creation : RbacRule → Option String
  unfolding creatable
  workload_creation rule =
      shown "create: " (S.sort str_lt (filter_map (creatable rule) (R.range creation_targets))) ""

  abbrev pub check_001 : RiskCheck
  check_001 = record {
    id = "CP-RBAC-001";
    severity = severity_critical;
    title = "Wildcard permission grant";
    description =
        "A role granting * verbs on * resources is cluster-admin-equivalent for its scope.";
    remediation =
        "Replace wildcard verbs and resources with the explicit permissions the subject needs.";
    expected = "explicit verbs and resources";
    matches = wildcard_grant;
  }

  abbrev pub check_002 : RiskCheck
  check_002 = record {
    id = "CP-RBAC-002";
    severity = severity_high;
    title = "Secrets read access granted";
    description = "Reading Secrets exposes every credential in the grant's scope.";
    remediation =
        "Scope Secret access to named resources or use projected volumes and workload identity.";
    expected = "no broad Secret read access";
    matches = secrets_read;
  }

  abbrev pub check_003 : RiskCheck
  check_003 = record {
    id = "CP-RBAC-003";
    severity = severity_high;
    title = "Workload creation privilege";
    description =
        "Creating workloads lets a subject run arbitrary pods, including privileged ones, in scope.";
    remediation = "Restrict workload creation to deployment automation with reviewed pipelines.";
    expected = "workload creation limited to deploy automation";
    matches = workload_creation;
  }

  abbrev pub check_004 : RiskCheck
  check_004 = record {
    id = "CP-RBAC-004";
    severity = severity_high;
    title = "Pod exec privilege";
    description = "pods/exec provides interactive code execution inside every reachable container.";
    remediation = "Limit exec to break-glass roles with audit logging.";
    expected = "no standing pods/exec access";
    matches = pod_exec;
  }

  abbrev pub check_005 : RiskCheck
  check_005 = record {
    id = "CP-RBAC-005";
    severity = severity_high;
    title = "Impersonation privilege";
    description =
        "Impersonation lets the subject act as any user or group it can name, bypassing its own authorization.";
    remediation = "Remove impersonate verbs outside dedicated, audited administrative tooling.";
    expected = "no impersonate verbs";
    matches = impersonation S;
  }

  abbrev pub check_006 : RiskCheck
  check_006 = record {
    id = "CP-RBAC-006";
    severity = severity_high;
    title = "Bind or escalate privilege";
    description =
        "bind and escalate allow granting permissions beyond the subject's own, defeating RBAC containment.";
    remediation = "Reserve bind and escalate for the cluster's role-management controller.";
    expected = "no bind or escalate verbs";
    matches = bind_or_escalate;
  }

  abbrev pub check_007 : RiskCheck
  check_007 = record {
    id = "CP-RBAC-007";
    severity = severity_medium;
    title = "Service account token creation privilege";
    description = "serviceaccounts/token lets the subject mint credentials for other identities.";
    remediation =
        "Remove token creation or scope it to the specific automation account that needs it.";
    expected = "no serviceaccounts/token creation";
    matches = token_creation;
  }

  abbrev pub risk_checks : List RiskCheck
  risk_checks =
      check_001 ∷ check_002 ∷ check_003 ∷ check_004 ∷ check_005 ∷ check_006 ∷ check_007 ∷ []
