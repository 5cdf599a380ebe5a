-- ===== src/Network/Gaps.antt =====
-- internal/network/network.go: which namespaces `defaultDenyFindings` reports.
use clusterproof.Prelude.{
  String, ◌≡◌, refl, Bool, not, ◌&&◌, ◌||◌, Option, List, [], ◌∷◌, ◌==◌, arith, eq_iff, any,
  any-map, map, is_none, Option-cases, inl, inr,
}
use clusterproof.Text.Order.{str_lt}
use clusterproof.Sorting.Empty.{is_empty}
use clusterproof.Sorting.Counts.{any-perm}
use clusterproof.Sorting.Interface.{Sorter}
use clusterproof.Maps.{Map, get, put, Ranging}
use clusterproof.Model.{Finding}
use clusterproof.Manifest.{Workload, NetworkPolicy, or_default}
use clusterproof.Network.{
  Covered, or_uncovered, coverage_from, namespaces_from, missing, gap_findings,
  default_deny_findings, namespace_target,
}
use clusterproof.Network.Coverage.{denies_ingress, denies_egress, get-coverage_from}
use clusterproof.Network.Targets.{namespace_target-eq}

abbrev has_key : String → Map Workload → Bool
has_key k m = any (λ e. e.0 == k) m

has_key-put :
    (j k : String) (w : Workload) (m : Map Workload)
    → has_key k (put j w m) ≡ (j == k || has_key k m)
unfolding put
has_key-put j k w [] = ground arith
has_key-put j k w ((i, v) ∷ m) =
    ground (arith, eq_iff i j, eq_iff i k, eq_iff j k, has_key-put j k w m)

get-has_key : (k : String) (m : Map Workload) → has_key k m ≡ not (is_none (get k m))
unfolding get
get-has_key k [] = refl
get-has_key k ((j, w) ∷ m) = ground (arith, get-has_key k m)

has_key-namespaces_from :
    (k : String) (m : Map Workload) (ws : List Workload)
    → has_key k (namespaces_from m ws) ≡ (has_key k m || any (λ w. or_default w.namespace == k) ws)
unfolding namespaces_from
has_key-namespaces_from k m [] = ground arith
has_key-namespaces_from k m (w ∷ ws) = elim (Option-cases (get (or_default w.namespace) m)) [
  | inl e ↦ ground (
    arith,
    e,
    has_key-namespaces_from k (put (or_default w.namespace) w m) ws,
    has_key-put (or_default w.namespace) k w m,
  )
  | inr (v, e) ↦
      ground (
        arith,
        e,
        has_key-namespaces_from k m ws,
        eq_iff (or_default w.namespace) k,
        get-has_key k m,
      )
]

-- A finding of the rule CP-NET-001 against a namespace.
abbrev pub is_gap : String → Finding → Bool
is_gap namespace f = f.id == "CP-NET-001" && f.target == namespace_target namespace

any-gap_findings :
    (namespace : String) (coverage : Map Covered) (namespaces : Map Workload) (names : List String)
    → any (is_gap namespace) (gap_findings coverage namespaces names)
      ≡ (any (λ name. name == namespace) names && not (is_empty (missing (get namespace coverage))))
unfolding gap_findings is_empty
any-gap_findings namespace coverage namespaces [] = refl
any-gap_findings namespace coverage namespaces (name ∷ names) = ground (
  arith,
  namespace_target-eq name namespace,
  eq_iff name namespace,
  any-gap_findings namespace coverage namespaces names,
)

is_empty-missing :
    (state : Option Covered)
    → is_empty (missing state) ≡ ((or_uncovered state).ingress && (or_uncovered state).egress)
unfolding missing is_empty
is_empty-missing state = ground arith

module _ (R : Ranging) (S : Sorter) where
  pub any-default_deny_findings :
      (namespace : String) (workloads : List Workload) (policies : List NetworkPolicy)
      → any (is_gap namespace) (default_deny_findings R S workloads policies) ≡ (
          any (λ w. or_default w.namespace == namespace) workloads
          && not
              (any (denies_ingress namespace) policies && any (denies_egress namespace) policies))
  unfolding default_deny_findings get
  any-default_deny_findings namespace workloads policies = ground (
    arith,
    any-gap_findings namespace (coverage_from [] policies) (namespaces_from [] workloads)
        (S.sort str_lt (map (λ entry. entry.0) (R.range (namespaces_from [] workloads)))),
    any-perm (λ name. name == namespace)
        (S.sort_perm str_lt (map (λ entry. entry.0) (R.range (namespaces_from [] workloads)))),
    any-map (λ name. name == namespace) (λ (entry : String × Workload). entry.0)
        (R.range (namespaces_from [] workloads)),
    any-perm (λ (entry : String × Workload). entry.0 == namespace)
        (R.range_perm (namespaces_from [] workloads)),
    has_key-namespaces_from namespace [] workloads,
    is_empty-missing (get namespace (coverage_from [] policies)),
    get-coverage_from namespace [] policies,
  )
