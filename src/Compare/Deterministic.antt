-- ===== src/Compare/Deterministic.antt =====
-- The comparison of two reports does not depend on the order in which the maps are visited, nor on
-- how equal elements are sorted.
use mathlib.Core.List.{Perm}
use mathlib.Core.List.Perm
use clusterproof.Prelude.{
  ◌≤◌, String, ◌≡◌, ap, true, Option, List, [], ◌==◌, eq_iff, arith, count_if-filter_map,
  count_if_le, All-map, has_value, filter_map, Option-cases,
}
use clusterproof.Text.Order.{String-set}
use clusterproof.Sorting.Counts.{count_if-perm}
use clusterproof.Sorting.Orders.{by_text}
use clusterproof.Sorting.Interface.{Sorter}
use clusterproof.Sorting.Keyed.{Separate, sort_unique, filter_map-perm}
use clusterproof.Maps.{Map, get, Ranging}
use clusterproof.Model.{Finding, Report}
use clusterproof.Compare.{
  SeverityChange, classify_all, finding_key, finding_set, compare_sets, reports, Found,
}
use clusterproof.Compare.Sets.{entries_of, entries_of-finding_set, Keyed, finding_set-Keyed}
use clusterproof.Compare.Classes.{
  new_of, change_of, is_same, classify_all-collected, resolve_all-collected,
}

Finding-set : IsSet Finding
Finding-set = hlevel String-set

SeverityChange-set : IsSet SeverityChange
SeverityChange-set = hlevel String-set

reorder : (R T : Ranging) (m : Map Finding) → Perm (R.range m) (T.range m)
reorder R T m = Perm.trans (R.range_perm m) (Perm.symm (T.range_perm m))

-- The values that stand under their keys, in any order of the entries, share no key.
values-Separate :
    {B : Type 0} (key : B → String) (f : String × Finding → Option B) (R : Ranging)
    (m : Map Finding)
    → ((e : String × Finding)
        → e.0 ≡ finding_key e.1
        → (k : String) → has_value (λ v. key v == k) (f e) ≡ true
        → (e.0 == k) ≡ true)
    → Keyed m
    → ((k : String) → entries_of k m ≤ 1)
    → Separate key (filter_map f (R.range m))
values-Separate key f R m under keyed one k = omega (
  arith,
  one k,
  count_if-filter_map f (λ v. key v == k) (R.range m),
  count_if-perm (λ e. has_value (λ v. key v == k) (f e)) (R.range_perm m),
  count_if_le (λ e. has_value (λ v. key v == k) (f e)) (λ e. e.0 == k) m
      (All-map (λ e h. under e h k) m keyed),
)

new_under :
    (other : Map Finding) (e : String × Finding)
    → e.0 ≡ finding_key e.1
    → (k : String) → has_value (λ f. finding_key f == k) (new_of other e) ≡ true
    → (e.0 == k) ≡ true
new_under other (key, f) h k t =
    ground (arith, eq_iff key k, eq_iff (finding_key f) k, Option-cases (get key other))

change_under :
    (other : Map Finding) (e : String × Finding)
    → e.0 ≡ finding_key e.1
    → (k : String) → has_value (λ c. finding_key c.finding == k) (change_of other e) ≡ true
    → (e.0 == k) ≡ true
change_under other (key, f) h k t =
    ground (arith, eq_iff key k, eq_iff (finding_key f) k, Option-cases (get key other))

abbrev nothing : Found
nothing = record { new = []; changed = []; unchanged = 0 }

sorted_values :
    {B : Type 0} (B_set : IsSet B) (key : B → String) (f : String × Finding → Option B)
    (R T : Ranging) (S U : Sorter) (fs : List Finding) (xs ys : List B)
    → ((e : String × Finding)
        → e.0 ≡ finding_key e.1
        → (k : String) → has_value (λ v. key v == k) (f e) ≡ true
        → (e.0 == k) ≡ true)
    → xs ≡ filter_map f (R.range (finding_set fs))
    → ys ≡ filter_map f (T.range (finding_set fs))
    → S.sort (by_text key) xs ≡ U.sort (by_text key) ys
sorted_values B_set key f R T S U fs xs ys under e g =
    rw (e, g)
      (sort_unique key B_set S U _ _ (filter_map-perm f (reorder R T (finding_set fs))) (
        values-Separate key f R (finding_set fs) under (finding_set-Keyed fs)
          (entries_of-finding_set fs)))

-- Two runs of the comparison, with their own orders of visiting the maps and their own sorts, give
-- the same result, or the same error, for the same two reports.
pub reports_deterministic :
    (R T : Ranging) (S U : Sorter) (before after : Report) (b a : String)
    → reports R S before after b a ≡ reports T U before after b a
unfolding reports compare_sets
reports_deterministic R T S U before after b a =
    let old = finding_set before.findings in
    let new = finding_set after.findings in
    let left = classify_all-collected old nothing (R.range new) in
    let right = classify_all-collected old nothing (T.range new) in
    let same_new =
      sorted_values Finding-set finding_key (new_of old) R T S U after.findings _ _ (new_under old)
        (ap (λ r. r.new) left) (ap (λ r. r.new) right) in
    let same_resolved =
      sorted_values Finding-set finding_key (new_of new) R T S U before.findings _ _ (new_under new)
        (resolve_all-collected new [] (R.range old)) (resolve_all-collected new [] (T.range old)) in
    let same_changed =
      sorted_values SeverityChange-set (λ c. finding_key c.finding) (change_of old) R T S U
        after.findings _ _ (change_under old) (ap (λ r. r.changed) left)
        (ap (λ r. r.changed) right) in
    let same_unchanged : (classify_all old nothing (R.range new)).unchanged
        ≡ (classify_all old nothing (T.range new)).unchanged =
      omega (
        arith,
        ap (λ r. r.unchanged) left,
        ap (λ r. r.unchanged) right,
        count_if-perm (is_same old) (reorder R T new),
      ) in
    rw (same_new, same_resolved, same_changed, same_unchanged)
