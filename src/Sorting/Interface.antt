-- ===== src/Sorting/Interface.antt =====
-- The promise of the package `sort`.
use mathlib.Core.List.{Perm}
use clusterproof.Prelude.{Bool, List}
use clusterproof.Sorting.Orders.{IsWeakOrder, IsSorted}

pub record Sorter : Type 1 where
  pub sort : {A : Type 0} → (A → A → Bool) → List A → List A
  pub sort_perm : {A : Type 0} (lt : A → A → Bool) (xs : List A) → Perm (sort lt xs) xs
  pub sort_sorted :
      {A : Type 0} (lt : A → A → Bool) → IsWeakOrder lt → (xs : List A) → IsSorted lt (sort lt xs)
