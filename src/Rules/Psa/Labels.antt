-- ===== src/Rules/Psa/Labels.antt =====
-- internal/rules/psa.go: which namespaces have no finding.
use clusterproof.Prelude.{
  ℕ, String, ◌≡◌, refl, sym, subst, ◌∙◌, Bool, true, false, not, ◌&&◌, ◌||◌, Option, none, some,
  List, ◌++◌, ◌==◌, arith, eq_iff, all, all_cong, ltb, Option-cases, Bool-cases, inl, inr,
}
use clusterproof.Text.Chars.{equal_fold}
use clusterproof.Text.Order.{str_lt}
use clusterproof.Maps.{Map, get_text}
use clusterproof.Sorting.Interface.{Sorter}
use clusterproof.Sorting.Empty.{is_empty, is_empty-append, is_empty-sort, is_empty-concat_map}
use clusterproof.Manifest.{Namespace}
use clusterproof.Rules.Pod.{emit_texts}
use clusterproof.Rules.Evaluate.Silent.{is_empty-emit_texts}
use clusterproof.Rules.Psa.{
  psa_enforce_label, psa_enforce_version_label, psa_audit_label, psa_warn_label, psa_level,
  is_system_namespace, weaker_mode, enforce_findings, version_findings, modes_weaker,
  weaker_auxiliary_modes, evaluate_namespace_psa, evaluate_namespaces, psa_order,
}

-- A defined level below another.
abbrev below : Option ℕ → Option ℕ → Bool
below none e = false
below (some a) none = false
below (some a) (some b) = ltb a b

-- The namespace is one of the system's, or it enforces a level that forbids something, pins its
-- version, and neither audits nor warns at a weaker level.
pub is_admission_hardened : Namespace → Bool
is_admission_hardened namespace =
    let enforce = get_text psa_enforce_label namespace.labels in
    let version = get_text psa_enforce_version_label namespace.labels in
    is_system_namespace namespace.name
    || ((enforce == "baseline" || enforce == "restricted")
        && (not (version == "" || equal_fold version "latest")
            && (not (
                  below (psa_level (get_text psa_audit_label namespace.labels)) (psa_level enforce))
                && not (
                    below (psa_level (get_text psa_warn_label namespace.labels))
                      (psa_level enforce)))))

-- A property of a text, for one value and for all others.
by_value : (P : String → Type 0) (s v : String) → P v → ((s == v) ≡ false → P s) → P s
by_value P s v h k = elim (Bool-cases (s == v)) [
  | inl e ↦ subst P (sym ((eq_iff s v).0 e)) h
  | inr e ↦ k e
]

is_empty-enforce_findings :
    (namespace : Namespace) (enforce : String)
    → is_empty (enforce_findings namespace enforce)
      ≡ (enforce == "baseline" || enforce == "restricted")
unfolding enforce_findings psa_level is_empty
is_empty-enforce_findings namespace enforce =
    let P = λ (s : String).
      is_empty (enforce_findings namespace s) ≡ (s == "baseline" || s == "restricted") in
    by_value P enforce "" refl
      (λ absent. by_value P enforce "privileged" refl (λ other. ground (arith, absent, other)))

is_empty-weaker_mode :
    (labels : Map String) (enforce : ℕ) (label : String)
    → is_empty (weaker_mode labels enforce label)
      ≡ not (below (psa_level (get_text label labels)) (some enforce))
unfolding weaker_mode psa_level is_empty
is_empty-weaker_mode labels enforce label = ground (arith, absent_level (get_text label labels))
  where
    absent_level : (value : String) → (value == "") ≡ true → psa_level value ≡ none
    absent_level value e = subst (λ v. psa_level v ≡ none) (sym ((eq_iff value "").0 e)) refl

module _ (S : Sorter) where
  is_empty-weaker_auxiliary_modes :
      (labels : Map String)
      → is_empty (weaker_auxiliary_modes S labels) ≡ (
          not (
            below
              (psa_level (get_text psa_audit_label labels))
              (psa_level (get_text psa_enforce_label labels)))
          && not (
              below
                (psa_level (get_text psa_warn_label labels))
                (psa_level (get_text psa_enforce_label labels))))
  unfolding weaker_auxiliary_modes is_empty
  is_empty-weaker_auxiliary_modes labels =
      elim (Option-cases (psa_level (get_text psa_enforce_label labels))) [
        | inl e ↦ ground (arith, e)
        | inr (enforce, e) ↦ ground (
          arith,
          e,
          is_empty-sort S str_lt (
              weaker_mode labels enforce psa_audit_label
              ++ weaker_mode labels enforce psa_warn_label),
          is_empty-append (weaker_mode labels enforce psa_audit_label)
              (weaker_mode labels enforce psa_warn_label),
          is_empty-weaker_mode labels enforce psa_audit_label,
          is_empty-weaker_mode labels enforce psa_warn_label,
        )
      ]

  is_empty-namespace :
      (namespace : Namespace)
      → is_empty (evaluate_namespace_psa S namespace) ≡ is_admission_hardened namespace
  unfolding evaluate_namespace_psa is_admission_hardened version_findings is_empty
  is_empty-namespace namespace = ground (
    arith,
    is_empty-append (enforce_findings namespace (get_text psa_enforce_label namespace.labels)) (
        version_findings namespace (get_text psa_enforce_version_label namespace.labels)
        ++ emit_texts (modes_weaker namespace) (weaker_auxiliary_modes S namespace.labels)),
    is_empty-append
        (version_findings namespace (get_text psa_enforce_version_label namespace.labels))
        (emit_texts (modes_weaker namespace) (weaker_auxiliary_modes S namespace.labels)),
    is_empty-enforce_findings namespace (get_text psa_enforce_label namespace.labels),
    is_empty-emit_texts (modes_weaker namespace) (weaker_auxiliary_modes S namespace.labels),
    is_empty-weaker_auxiliary_modes namespace.labels,
  )

  -- `EvaluateNamespaces` reports nothing exactly if every namespace is one of the system's, or enforces
  -- the baseline or the restricted level at a pinned version and neither audits nor warns at a defined
  -- level below it.
  pub evaluate_namespaces-hardened :
      (namespaces : List Namespace)
      → is_empty (evaluate_namespaces S namespaces) ≡ all is_admission_hardened namespaces
  unfolding evaluate_namespaces
  evaluate_namespaces-hardened namespaces =
      is_empty-sort S psa_order _
      ∙ is_empty-concat_map (evaluate_namespace_psa S) namespaces
      ∙ all_cong _ _ is_empty-namespace namespaces
