-- ===== src/Rules/Drift/Graphs.antt =====
-- internal/rules/psa.go and verification.go, internal/rbac/rbac.go, internal/network/network.go: the
-- findings of the other analyses and the catalog.
use clusterproof.Prelude.{
  String, ◌≡◌, refl, ◌∙◌, true, List, [], ◌∷◌, arith, all, map, concat_map, Option-cases, inl, inr,
  All, ap, ok,
}
use clusterproof.Sorting.Counts.{all-perm}
use clusterproof.Sorting.Interface.{Sorter}
use clusterproof.Maps.{Map, get_text, Ranging}
use clusterproof.Model.{Finding}
use clusterproof.Manifest.{Namespace, RbacRole, RbacBinding, RbacSubject}
use clusterproof.Rules.Psa.{
  psa_enforce_label, psa_enforce_version_label, version_unpinned, modes_weaker, enforce_findings,
  version_findings, weaker_auxiliary_modes, evaluate_namespace_psa, evaluate_namespaces, psa_order,
}
use clusterproof.Rbac.Checks.{RiskCheck, risk_checks}
use clusterproof.Rbac.{
  Limits, analyze, binding_findings, check_findings, grant_finding, match_role, resolve_role,
  role_index_from, rbac_order,
}
use clusterproof.Rbac.Grants.{analyze-eq-ok}
use clusterproof.Rules.Drift.{is_listed}
use clusterproof.Rules.Drift.Emitted.{
  Emits, Emits-append, Emits-emit, Emits-emit_texts, Emits-concat_map,
}

enforce-listed : (n : Namespace) (enforce : String) → Emits is_listed (enforce_findings n enforce)
unfolding enforce_findings is_listed
enforce-listed n enforce = record { every = ground arith }

version-listed : (n : Namespace) (version : String) → Emits is_listed (version_findings n version)
unfolding version_findings is_listed
version-listed n version = Emits-emit is_listed _ (version_unpinned n _) (λ _. refl)

module _ (S : Sorter) where
  namespace-listed : (n : Namespace) → Emits is_listed (evaluate_namespace_psa S n)
  unfolding evaluate_namespace_psa is_listed
  namespace-listed n = record {
    every = ground (
      arith,
      (Emits-append is_listed _ _ (enforce-listed n (get_text psa_enforce_label n.labels)) (
          Emits-append is_listed _ _
            (version-listed n (get_text psa_enforce_version_label n.labels))
            (Emits-emit_texts is_listed (modes_weaker n) (weaker_auxiliary_modes S n.labels)
              (λ xs. refl)))).every,
    );
  }

  -- Every finding about a namespace has the title, the texts and the controls of the catalog.
  evaluate_namespaces-listed :
      (namespaces : List Namespace) → all is_listed (evaluate_namespaces S namespaces) ≡ true
  unfolding evaluate_namespaces
  evaluate_namespaces-listed namespaces =
      all-perm is_listed (S.sort_perm psa_order _)
      ∙ (Emits-concat_map is_listed (evaluate_namespace_psa S) namespaces namespace-listed).every

-- A check of the analysis of roles as the catalog lists it.
abbrev Listed : RiskCheck → Type 0
Listed check =
    (b : RbacBinding) (r : RbacRole) (o : String) (s : RbacSubject)
    → is_listed (grant_finding b r check o s) ≡ true

grants-Listed :
    (b : RbacBinding) (r : RbacRole) (check : RiskCheck) (o : String) (ss : List RbacSubject)
    → Listed check
    → all is_listed (map (grant_finding b r check o) ss) ≡ true
grants-Listed b r check o [] h = refl
grants-Listed b r check o (s ∷ ss) h = ground (arith, h b r o s, grants-Listed b r check o ss h)

module _ (R : Ranging) (S : Sorter) where
  check-Listed :
      (b : RbacBinding) (r : RbacRole) (check : RiskCheck)
      → Listed check
      → Emits is_listed (check_findings R S b r check)
  unfolding check_findings
  check-Listed b r check h = elim (Option-cases (match_role R S r check)) [
    | inl e ↦ record { every = ground (arith, e) }
    | inr (observed, e) ↦ record {
      every = ground (arith, e, grants-Listed b r check observed b.subjects h);
    }
  ]

  checks-Listed :
      (b : RbacBinding) (r : RbacRole) (checks : List RiskCheck)
      → All Listed checks
      → Emits is_listed (concat_map (check_findings R S b r) checks)
  checks-Listed b r [] h = record { every = refl }
  checks-Listed b r (check ∷ checks) h =
      Emits-append is_listed _ _ (check-Listed b r check h.0) (checks-Listed b r checks h.1)

  risk_checks-Listed : All Listed (risk_checks R S)
  unfolding is_listed
  risk_checks-Listed = (
    λ b r o s. refl,
    (
      λ b r o s. refl,
      (
        λ b r o s. refl,
        (λ b r o s. refl, (λ b r o s. refl, (λ b r o s. refl, (λ b r o s. refl, tt)))),
      ),
    ),
  )

  binding-listed :
      (index : Map RbacRole) (b : RbacBinding) → Emits is_listed (binding_findings R S index b)
  unfolding binding_findings
  binding-listed index b = elim (Option-cases (resolve_role index b)) [
    | inl e ↦ record { every = ground (arith, e) }
    | inr (role, e) ↦ record {
      every = ground (arith, e, (checks-Listed b role (risk_checks R S) risk_checks-Listed).every);
    }
  ]

  -- Every finding of a successful analysis of roles has the title, the texts and the controls of the
  -- catalog.
  analyze-listed :
      (roles : List RbacRole) (bindings : List RbacBinding) (limits : Limits)
      (findings : List Finding)
      → analyze R S roles bindings limits ≡ ok findings
      → all is_listed findings ≡ true
  analyze-listed roles bindings limits findings h =
      ap (all is_listed) (analyze-eq-ok R S roles bindings limits findings h)
      ∙ all-perm is_listed (S.sort_perm rbac_order _)
      ∙ (Emits-concat_map is_listed (binding_findings R S (role_index_from [] roles)) bindings
          (binding-listed (role_index_from [] roles))).every
