-- ===== src/Compare/Classes.antt =====
-- How `reports` classifies the findings of two reports.
use mathlib.Core.List.{append_assoc}
use clusterproof.Prelude.{
  ◌+◌, ◌≤◌, String, ◌≡◌, refl, sym, ◌∙◌, ap, Bool, false, not, ◌&&◌, Option, none, some, List, [],
  ◌∷◌, ◌++◌, ◌==◌, eq_iff, arith, if◌then◌else◌, any, count_if, is_none, has_value, filter_map,
  any-filter_map, any_cong, All-map, Option-cases, inl, inr, ok, refuse, >>=-eq-ok,
}
use clusterproof.Sorting.Counts.{any-perm}
use clusterproof.Sorting.Interface.{Sorter}
use clusterproof.Maps.{Map, get, Ranging}
use clusterproof.Model.{Finding, Report}
use clusterproof.Compare.{
  SeverityChange, Comparison, CompareError, Found, classify, classify_all, resolve_all, finding_key,
  finding_set, finding_order, change_order, compare_sets, reports, ruleset_identity,
}
use clusterproof.Compare.Sets.{
  first, get-finding_set, entries_of, entries_of-finding_set, Keyed, finding_set-Keyed, any-get,
}

-- The change between two findings, if their severities differ.
abbrev pub change : Finding → Finding → Option SeverityChange
change previous f =
    if previous.severity == f.severity
    then none
    else some (record { finding = f; before = previous.severity; after = f.severity })

abbrev pub new_of : Map Finding → String × Finding → Option Finding
new_of before (key, f) = elim (get key before) [ none ↦ some f | some _ ↦ none ]

abbrev pub change_of : Map Finding → String × Finding → Option SeverityChange
change_of before (key, f) = elim (get key before) [ none ↦ none | some p ↦ change p f ]

abbrev pub is_same : Map Finding → String × Finding → Bool
is_same before (key, f) = elim (get key before) [ none ↦ false | some p ↦ p.severity == f.severity ]

-- The loops collect what these functions give.
abbrev collected : Map Finding → Found → Map Finding → Found
collected before found es = record {
  new = found.new ++ filter_map (new_of before) es;
  changed = found.changed ++ filter_map (change_of before) es;
  unchanged = found.unchanged + count_if (is_same before) es;
}

append_empty : {A : Type 0} (xs : List A) → xs ++ [] ≡ xs
append_empty [] = refl
append_empty (x ∷ xs) = ap (λ r. x ∷ r) (append_empty xs)

pub classify_all-collected :
    (before : Map Finding) (found : Found) (es : Map Finding)
    → classify_all before found es ≡ collected before found es
unfolding classify_all
classify_all-collected before found [] =
    ground (arith, append_empty found.new, append_empty found.changed)
classify_all-collected before found ((key, f) ∷ es) = elim (Option-cases (get key before)) [
  | inl missing ↦ ground (
    arith,
    missing,
    classify_all-collected before (classify before found (key, f)) es,
    append_assoc found.new (f ∷ []) (filter_map (new_of before) es),
  )
  | inr (p, there) ↦ ground (
    arith,
    there,
    classify_all-collected before (classify before found (key, f)) es,
    append_assoc found.changed
        (record { finding = f; before = p.severity; after = f.severity } ∷ [])
        (filter_map (change_of before) es),
  )
]

pub resolve_all-collected :
    (after : Map Finding) (resolved : List Finding) (es : Map Finding)
    → resolve_all after resolved es ≡ resolved ++ filter_map (new_of after) es
unfolding resolve_all
resolve_all-collected after resolved [] = sym (append_empty resolved)
resolve_all-collected after resolved ((key, f) ∷ es) = elim (Option-cases (get key after)) [
  | inl missing ↦ ground (
    arith,
    missing,
    resolve_all-collected after (resolved ++ f ∷ []) es,
    append_assoc resolved (f ∷ []) (filter_map (new_of after) es),
  )
  | inr (p, there) ↦ ground (arith, there, resolve_all-collected after resolved es)
]

-- The value of a partial function on a keyed entry, tested by key and by a further test.
new_test :
    (before : Map Finding) (k : String) (p : Finding → Bool) (es : Map Finding)
    → Keyed es
    → any (λ f. finding_key f == k && p f) (filter_map (new_of before) es)
      ≡ any (λ e. e.0 == k && (is_none (get k before) && p e.1)) es
new_test before k p es keyed =
    any-filter_map (new_of before) (λ f. finding_key f == k && p f) es
    ∙ any_cong _ _ es (All-map each es keyed)
  where
    each :
        (e : String × Finding)
        → e.0 ≡ finding_key e.1
        → has_value (λ f. finding_key f == k && p f) (new_of before e)
          ≡ (e.0 == k && (is_none (get k before) && p e.1))
    each (key, f) h =
        ground (arith, eq_iff key k, eq_iff (finding_key f) k, Option-cases (get key before))

change_test :
    (before : Map Finding) (k : String) (p : SeverityChange → Bool) (es : Map Finding)
    → Keyed es
    → any (λ c. finding_key c.finding == k && p c) (filter_map (change_of before) es)
      ≡ any
          (λ e.
            e.0 == k && has_value (λ previous. has_value p (change previous e.1)) (get k before))
          es
change_test before k p es keyed =
    any-filter_map (change_of before) (λ c. finding_key c.finding == k && p c) es
    ∙ any_cong _ _ es (All-map each es keyed)
  where
    each :
        (e : String × Finding)
        → e.0 ≡ finding_key e.1
        → has_value (λ c. finding_key c.finding == k && p c) (change_of before e)
          ≡ (e.0 == k && has_value (λ previous. has_value p (change previous e.1)) (get k before))
    each (key, f) h =
        ground (arith, eq_iff key k, eq_iff (finding_key f) k, Option-cases (get key before))

-- The sets behind a comparison that succeeds.
reports-sets :
    (R : Ranging) (S : Sorter) (before after : Report) (b a : String) (c : Comparison)
    → reports R S before after b a ≡ ok c
    → compare_sets R S
        (finding_set before.findings)
        (finding_set after.findings)
        b
        a
        (ruleset_identity after)
      ≡ c
unfolding reports
reports-sets R S before after b a c h =
    let (_, _, h₁) =
      >>=-eq-ok
        (refuse (not (before.schema_version == after.schema_version))
          (CompareError.schema_versions_differ before.schema_version after.schema_version))
        _ h in
    let (_, _, h₂) =
      >>=-eq-ok (refuse (not (ruleset_identity before == ruleset_identity after)) _) _ h₁ in
    cc

abbrev nothing : Found
nothing = record { new = []; changed = []; unchanged = 0 }

-- A partial function's values, over the entries in any order.
ranged :
    {B : Type 0} (R : Ranging) (f : String × Finding → Option B) (t : B → Bool) (m : Map Finding)
    → any t (filter_map f (R.range m)) ≡ any t (filter_map f m)
ranged R f t m =
    any-filter_map f t (R.range m)
    ∙ any-perm (λ e. has_value t (f e)) (R.range_perm m)
    ∙ sym (any-filter_map f t m)

module _ (R : Ranging) (S : Sorter) (k : String) (m other : Map Finding) where
  fresh_class :
      (p : Finding → Bool) (fs : List Finding)
      → fs ≡ filter_map (new_of other) (R.range m)
      → Keyed m
      → entries_of k m ≤ 1
      → any (λ f. finding_key f == k && p f) (S.sort finding_order fs)
        ≡ has_value (λ f. is_none (get k other) && p f) (get k m)
  fresh_class p fs e keyed one =
      any-perm (λ f. finding_key f == k && p f) (S.sort_perm finding_order fs)
      ∙ ap (any (λ f. finding_key f == k && p f)) e
      ∙ ranged R (new_of other) (λ f. finding_key f == k && p f) m
      ∙ new_test other k p m keyed
      ∙ any-get k (λ f. is_none (get k other) && p f) m one

  changed_class :
      (q : SeverityChange → Bool) (ds : List SeverityChange)
      → ds ≡ filter_map (change_of other) (R.range m)
      → Keyed m
      → entries_of k m ≤ 1
      → any (λ d. finding_key d.finding == k && q d) (S.sort change_order ds)
        ≡ has_value
            (λ f. has_value (λ previous. has_value q (change previous f)) (get k other))
            (get k m)
  changed_class q ds e keyed one =
      any-perm (λ d. finding_key d.finding == k && q d) (S.sort_perm change_order ds)
      ∙ ap (any (λ d. finding_key d.finding == k && q d)) e
      ∙ ranged R (change_of other) (λ d. finding_key d.finding == k && q d) m
      ∙ change_test other k q m keyed
      ∙ any-get k (λ f. has_value (λ previous. has_value q (change previous f)) (get k other)) m one

-- Of two reports that can be compared: a finding is new where its key stands in the second report
-- alone, resolved where it stands in the first alone, and a severity change where it stands in
-- both with two severities. In each case it is the first finding of that key. So any further test
-- on the findings of a key passes in a class exactly when it passes on that finding.
pub reports_classes :
    (R : Ranging) (S : Sorter) (before after : Report) (b a : String) (c : Comparison) (k : String)
    (p : Finding → Bool) (q : SeverityChange → Bool)
    → reports R S before after b a ≡ ok c
    → (any (λ f. finding_key f == k && p f) c.new
        ≡ has_value (λ f. is_none (first k before.findings) && p f) (first k after.findings))
      × (any (λ f. finding_key f == k && p f) c.resolved
          ≡ has_value (λ f. is_none (first k after.findings) && p f) (first k before.findings))
      × (any (λ d. finding_key d.finding == k && q d) c.severity_changed
          ≡ has_value
              (λ f.
                has_value (λ previous. has_value q (change previous f)) (first k before.findings))
              (first k after.findings))
unfolding compare_sets
reports_classes R S before after b a c k p q h =
    let old = finding_set before.findings in
    let new = finding_set after.findings in
    let found = classify_all-collected old nothing (R.range new) in
    rw (← reports-sets R S before after b a c h) (
      rw (← get-finding_set before.findings k, ← get-finding_set after.findings k)
          (fresh_class R S k new old p _ (ap (λ r. r.new) found) (finding_set-Keyed after.findings)
            (entries_of-finding_set after.findings k)),
      rw (← get-finding_set before.findings k, ← get-finding_set after.findings k)
          (fresh_class R S k old new p _ (resolve_all-collected new [] (R.range old))
            (finding_set-Keyed before.findings) (entries_of-finding_set before.findings k)),
      rw (← get-finding_set before.findings k, ← get-finding_set after.findings k)
          (changed_class R S k new old q _ (ap (λ r. r.changed) found)
            (finding_set-Keyed after.findings) (entries_of-finding_set after.findings k)),
    )
