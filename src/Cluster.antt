-- ===== src/Cluster.antt =====
-- internal/cluster/scopes.go and collector.go: the collection of scopes, and the buffers that cap what
-- kubectl prints. Running kubectl and reading its snapshot (`runCollection`) is a parameter of the
-- collection; its error is its message.
pub mod Accepted
pub mod Capped
pub mod Scopes
use Prim.Native.String.{◌++◌ as append}
use clusterproof.Prelude.{
  ℕ, ◌-◌, String, Bool, true, false, not, ◌&&◌, ◌||◌, Option, none, some, List, [], ◌∷◌, ◌++◌, ◌==◌,
  if◌then◌else◌, any, keep_if, length, ltb, is_none, Result, ok, err, ◌>>=◌, ◌>>◌, refuse,
}
use clusterproof.Text.Chars.{to_lower}
use clusterproof.Text.Search.{contains}
use clusterproof.Files.{take}
use clusterproof.Model.{Input}
use clusterproof.Manifest.{Workload, Namespace, RbacRole, RbacBinding, NetworkPolicy, Service}
use clusterproof.Vex.{clean}

-- The bytes kept so far, and whether some were dropped.
pub record CappedBuffer : Type 0 where
  pub buffer : List ℕ
  pub exceeded : Bool

abbrev pub new_capped_buffer : CappedBuffer
new_capped_buffer = record { buffer = []; exceeded = false }

-- `Write`. The buffer never holds more than the limit, so the difference is what remains.
pub write : ℕ → CappedBuffer → List ℕ → CappedBuffer
write limit b bytes =
    let remaining = limit - length b.buffer in
    record {
      buffer = if ltb 0 remaining then b.buffer ++ take remaining bytes else b.buffer;
      exceeded = if ltb remaining (length bytes) then true else b.exceeded;
    }

has_owner_kind : Workload → List String → Bool
has_owner_kind workload kinds =
    any (λ owner. any (λ kind. owner == kind) kinds) workload.owner_kinds

-- Whether a workload is left out because its owner stands for it.
is_owned : Workload → Bool
unfolding has_owner_kind
is_owned workload =
    if workload.kind == "Pod"
    then has_owner_kind workload ("ReplicaSet" ∷ "StatefulSet" ∷ "DaemonSet" ∷ "Job" ∷ [])
    else if workload.kind == "ReplicaSet"
    then has_owner_kind workload ("Deployment" ∷ [])
    else if workload.kind == "Job"
    then has_owner_kind workload ("CronJob" ∷ [])
    else false

top_level_workloads : List Workload → List Workload
unfolding is_owned
top_level_workloads workloads = keep_if (λ w. not (is_owned w)) workloads

-- The part of `Options` that the arguments need; `timeout` is the text of the duration.
pub record Options : Type 0 where
  pub kubeconfig : String
  pub context : String
  pub namespace : String
  pub timeout : String

-- The map `scopeResources`.
unfoldable pub scope_resources : String → Option String
scope_resources scope =
    if scope == "workloads"
    then some
        "pods,deployments.apps,statefulsets.apps,daemonsets.apps,replicasets.apps,jobs.batch,cronjobs.batch"
    else if scope == "namespaces"
    then some "namespaces"
    else if scope == "rbac"
    then some (
        append "roles.rbac.authorization.k8s.io,clusterroles.rbac.authorization.k8s.io,"
          "rolebindings.rbac.authorization.k8s.io,clusterrolebindings.rbac.authorization.k8s.io")
    else if scope == "network"
    then some "networkpolicies.networking.k8s.io,services"
    else none

abbrev resources_of : Option String → String
resources_of none = ""
resources_of (some resources) = resources

-- The `switch` of `ScopeArgs`.
unfoldable pub namespace_args : Options → String → List String
namespace_args options scope =
    if scope == "namespaces"
    then []
    else if scope == "rbac" || options.namespace == ""
    then "--all-namespaces" ∷ []
    else "--namespace" ∷ options.namespace ∷ []

unfoldable pub scope_args : Options → String → List String
unfolding namespace_args scope_resources
scope_args options scope =
    ("--kubeconfig" ∷ options.kubeconfig ∷ [])
    ++ ((if not (options.context == "") then "--context" ∷ options.context ∷ [] else [])
        ++ (("get" ∷ resources_of (scope_resources scope) ∷ [])
            ++ (namespace_args options scope
                ++ ("--output=yaml"
                    ∷ "--show-managed-fields=false"
                    ∷ append "--request-timeout=" options.timeout
                    ∷ []))))

-- What one scope yields: manifest.Result.
pub record Snapshot : Type 0 where
  pub workloads : List Workload
  pub namespaces : List Namespace
  pub rbac_roles : List RbacRole
  pub rbac_bindings : List RbacBinding
  pub network_policies : List NetworkPolicy
  pub services : List Service
  pub inputs : List Input

pub record ScopeStatus : Type 0 where
  pub scope : String
  pub resources : String
  pub status : String
  pub detail : String

pub record ScopedResult : Type 0 where
  pub result : Snapshot
  pub scopes : List ScopeStatus

abbrev pub nothing_collected : ScopedResult
nothing_collected = record {
  result = record {
    workloads = [];
    namespaces = [];
    rbac_roles = [];
    rbac_bindings = [];
    network_policies = [];
    services = [];
    inputs = [];
  };
  scopes = [];
}

pub data CollectError : Type 0 where
  no_scope : CollectError
  unknown_scope duplicate_scope : String → CollectError
  collection_failed : String → String → CollectError

-- `classifyCollectionError`: the status of an error that leaves a partial assessment.
unfoldable pub classify : String → Option String
classify message =
    let lowered = to_lower message in
    if contains lowered "forbidden" || contains lowered "cannot list"
    then some "denied"
    else if contains lowered "doesn't have a resource type"
        || contains lowered "the server could not find the requested resource"
    then some "absent"
    else none

abbrev pub clean_text : String → String
clean_text message = clean message 1000

-- The loop that checks the requested scopes.
unfoldable pub check_scopes : List String → List String → Result CollectError (Unit {0})
unfolding scope_resources
check_scopes seen [] = ok tt
check_scopes seen (scope ∷ scopes) = do
  refuse (is_none (scope_resources scope)) (unknown_scope scope)
  refuse (any (λ s. s == scope) seen) (duplicate_scope scope)
  check_scopes (scope ∷ seen) scopes

pub status_of : String → String → String → ScopeStatus
unfolding scope_resources
status_of scope status detail = record {
  scope = scope;
  resources = resources_of (scope_resources scope);
  status = status;
  detail = detail;
}

abbrev add_snapshot : Snapshot → Snapshot → Snapshot
add_snapshot a b = record {
  workloads = a.workloads ++ b.workloads;
  namespaces = a.namespaces ++ b.namespaces;
  rbac_roles = a.rbac_roles ++ b.rbac_roles;
  rbac_bindings = a.rbac_bindings ++ b.rbac_bindings;
  network_policies = a.network_policies ++ b.network_policies;
  services = a.services ++ b.services;
  inputs = a.inputs ++ b.inputs;
}

abbrev pub add_collected : ScopedResult → String → Snapshot → ScopedResult
add_collected aggregate scope snapshot = record {
  result = add_snapshot aggregate.result snapshot;
  scopes = aggregate.scopes ++ status_of scope "collected" "" ∷ [];
}

abbrev pub add_partial : ScopedResult → String → String → String → ScopedResult
add_partial aggregate scope status message = record aggregate {
  scopes = aggregate.scopes ++ status_of scope status (clean_text message) ∷ [];
}

-- What an outcome of kubectl adds to the aggregate.
unfoldable pub add_outcome :
    ScopedResult → String → Result String Snapshot → Result CollectError ScopedResult
unfolding classify
add_outcome aggregate scope (ok snapshot) = ok (add_collected aggregate scope snapshot)
add_outcome aggregate scope (err message) = elim (classify message) [
  | none ↦ err (collection_failed scope message)
  | some status ↦ ok (add_partial aggregate scope status message)
]

module _ (run : List String → Result String Snapshot) (options : Options) where
  -- The loop over the scopes.
  unfoldable pub collect_from : ScopedResult → List String → Result CollectError ScopedResult
  unfolding add_outcome scope_args
  collect_from aggregate [] = ok aggregate
  collect_from aggregate (scope ∷ scopes) = do
    next ← add_outcome aggregate scope (run (scope_args options scope))
    collect_from next scopes

  unfoldable pub collect_scopes : List String → Result CollectError ScopedResult
  unfolding check_scopes collect_from
  collect_scopes scopes = do
    refuse (not (ltb 0 (length scopes))) no_scope
    check_scopes [] scopes
    collect_from nothing_collected scopes
