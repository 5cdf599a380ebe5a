-- ===== src/Vex/Apply.antt =====
-- What `ApplyToFindings` keeps and what it suppresses.
use mathlib.Core.List.{Perm}
use clusterproof.Prelude.{
  ℕ, ◌-◌, ◌^◌, ◌<◌, String, ◌≡◌, refl, ◌||◌, Option, none, List, [], ◌∷◌, ◌==◌, is_none, find_first,
  keep_if, filter_map, map_option, arith, if◌then◌else◌, Option-cases, inl, inr,
}
use clusterproof.Maps.{get_text}
use clusterproof.Sorting.Orders.{IsWeakOrder, IsSorted, then_by-IsWeakOrder, by_text-IsWeakOrder}
use clusterproof.Sorting.Interface.{Sorter}
use clusterproof.Model.{Finding}
use clusterproof.Vex.{
  Document, Statement, suppression_of, suppress, partition, suppressed_order, apply_to_findings,
}
use clusterproof.Vex.Suppression.{speaks_for, suppression_for_first}

abbrev vulnerability_of : Finding → String
vulnerability_of f = get_text "vulnerability" f.external_refs

abbrev purl_of : Finding → String
purl_of f = get_text "purl" f.external_refs

-- The statement that clears a finding: the first that speaks for its vulnerability and product, if
-- the finding has both.
abbrev pub clearing : Document → ℕ → ℕ → Finding → Option Statement
clearing d now max_age f =
    if vulnerability_of f == "" || purl_of f == ""
    then none
    else find_first (speaks_for (vulnerability_of f) (purl_of f) now max_age) d.statements

suppression_of-clearing :
    (d : Document) (now max_age : ℕ) (f : Finding)
    → 0 < max_age
    → max_age < 2 ^ 63 - 1
    → suppression_of d now max_age f ≡ clearing d now max_age f
unfolding suppression_of
suppression_of-clearing d now max_age f h k =
    ground (arith, suppression_for_first d (vulnerability_of f) (purl_of f) now max_age)

partition_lem :
    (d : Document) (now max_age : ℕ) (fs : List Finding)
    → 0 < max_age
    → max_age < 2 ^ 63 - 1
    → partition d now max_age fs ≡ (
      keep_if (λ f. is_none (clearing d now max_age f)) fs,
      filter_map (λ f. map_option (suppress d max_age f) (clearing d now max_age f)) fs,
    )
unfolding partition
partition_lem d now max_age [] h k = refl
partition_lem d now max_age (f ∷ fs) h k = elim (Option-cases (clearing d now max_age f)) [
  | inl missing ↦ ground (
    arith,
    missing,
    suppression_of-clearing d now max_age f h k,
    partition_lem d now max_age fs h k,
  )
  | inr (s, found) ↦ ground (
    arith,
    found,
    suppression_of-clearing d now max_age f h k,
    partition_lem d now max_age fs h k,
  )
]

suppressed_order-IsWeakOrder : IsWeakOrder suppressed_order
suppressed_order-IsWeakOrder =
    then_by-IsWeakOrder (λ s. s.rule_id) (by_text-IsWeakOrder (λ s. s.target))

-- With a maximal age, `apply_to_findings` keeps, in their order, exactly the findings that lack a
-- vulnerability or a purl or for which no statement of the document speaks; it suppresses each of
-- the others once, by the first such statement, and sorts these by rule and target.
pub apply_to_findings-clearing :
    (S : Sorter) (d : Document) (fs : List Finding) (now max_age : ℕ)
    → 0 < max_age
    → max_age < 2 ^ 63 - 1
    → ((apply_to_findings S d fs now max_age).0
        ≡ keep_if (λ f. is_none (clearing d now max_age f)) fs)
      × Perm
          (apply_to_findings S d fs now max_age).1
          (filter_map (λ f. map_option (suppress d max_age f) (clearing d now max_age f)) fs)
      × IsSorted suppressed_order (apply_to_findings S d fs now max_age).1
unfolding apply_to_findings
apply_to_findings-clearing S d fs now max_age h k = rw (partition_lem d now max_age fs h k) (
  refl,
  S.sort_perm suppressed_order _,
  S.sort_sorted suppressed_order suppressed_order-IsWeakOrder _,
)
