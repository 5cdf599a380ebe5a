-- ===== src/Network/Coverage.antt =====
-- internal/network/network.go: which namespaces the policies cover.
use clusterproof.Prelude.{
  String, ◌≡◌, refl, sym, subst, ◌∙◌, Bool, true, false, ◌&&◌, ◌||◌, List, [], ◌∷◌, ◌==◌, arith,
  eq_iff, any, Bool-cases, inl, inr,
}
use clusterproof.Text.Chars.{to_lower}
use clusterproof.Sorting.Empty.{is_empty}
use clusterproof.Maps.{Map, get, put, get-put}
use clusterproof.Manifest.{NetworkPolicy}
use clusterproof.Network.{
  Covered, cover_type, cover_types, cover_policy, or_uncovered, coverage_from,
}

-- A policy that selects every pod of the namespace and declares ingress, which it does also by
-- declaring no type at all.
pub denies_ingress : String → NetworkPolicy → Bool
denies_ingress namespace policy =
    policy.namespace == namespace
    && (policy.selects_all_pods
        && (is_empty policy.policy_types || any (λ t. to_lower t == "ingress") policy.policy_types))

pub denies_egress : String → NetworkPolicy → Bool
denies_egress namespace policy =
    policy.namespace == namespace
    && (policy.selects_all_pods && any (λ t. to_lower t == "egress") policy.policy_types)

abbrev covered_or : Covered → Bool → Bool → Covered
covered_or state i e = record { ingress = state.ingress || i; egress = state.egress || e }

ingress_only : (s : String) → (s == "ingress") ≡ true → (s == "egress") ≡ false
ingress_only s h = subst (λ r. (r == "egress") ≡ false) (sym ((eq_iff s "ingress").0 h)) refl

cover_types-covered :
    (state : Covered) (ts : List String)
    → cover_types state ts ≡ record {
      ingress = state.ingress || any (λ t. to_lower t == "ingress") ts;
      egress = state.egress || any (λ t. to_lower t == "egress") ts;
    }
unfolding cover_types cover_type
cover_types-covered state [] = ground arith
cover_types-covered state (t ∷ ts) =
    ground (arith, ingress_only (to_lower t), cover_types-covered (cover_type state t) ts)

cover_policy-covered :
    (state : Covered) (policy : NetworkPolicy)
    → cover_policy state policy ≡ record {
      ingress = state.ingress || denies_ingress policy.namespace policy;
      egress = state.egress || denies_egress policy.namespace policy;
    }
unfolding cover_policy denies_ingress denies_egress is_empty
cover_policy-covered state policy =
    ground (
      arith,
      eq_iff policy.namespace policy.namespace,
      cover_types-covered state policy.policy_types,
    )

-- One policy changes the state of its own namespace only.
after_policy :
    (namespace : String) (coverage : Map Covered) (policy : NetworkPolicy) (i e : Bool)
    → covered_or
        (or_uncovered (
          get namespace (
            put policy.namespace
              (cover_policy (or_uncovered (get policy.namespace coverage)) policy)
              coverage)))
        i
        e
      ≡ covered_or
          (or_uncovered (get namespace coverage))
          (denies_ingress namespace policy || i)
          (denies_egress namespace policy || e)
unfolding denies_ingress denies_egress
after_policy namespace coverage policy i e = elim (Bool-cases (policy.namespace == namespace)) [
  | inl same ↦ ground (
    arith,
    same,
    eq_iff policy.namespace namespace,
    cover_policy-covered (or_uncovered (get policy.namespace coverage)) policy,
    get-put policy.namespace namespace
        (cover_policy (or_uncovered (get policy.namespace coverage)) policy) coverage,
  )
  | inr other ↦ ground (
    arith,
    other,
    get-put policy.namespace namespace
        (cover_policy (or_uncovered (get policy.namespace coverage)) policy) coverage,
  )
]

-- The state of a namespace after the loop.
pub get-coverage_from :
    (namespace : String) (coverage : Map Covered) (policies : List NetworkPolicy)
    → or_uncovered (get namespace (coverage_from coverage policies)) ≡ record {
      ingress =
          (or_uncovered (get namespace coverage)).ingress
          || any (denies_ingress namespace) policies;
      egress =
          (or_uncovered (get namespace coverage)).egress || any (denies_egress namespace) policies;
    }
unfolding coverage_from
get-coverage_from namespace coverage [] = ground arith
get-coverage_from namespace coverage (policy ∷ policies) =
    get-coverage_from namespace
      (put policy.namespace (cover_policy (or_uncovered (get policy.namespace coverage)) policy)
        coverage)
      policies
    ∙ after_policy namespace coverage policy (any (denies_ingress namespace) policies)
        (any (denies_egress namespace) policies)
