-- ===== src/Sorting/Insertion.antt =====
-- Insertion sort keeps the promise of the package `sort`: it permutes, and it sorts by every strict
-- weak order. (It is what Go runs on short slices.)
use mathlib.Core.List.{Perm}
use mathlib.Core.List.Perm
use clusterproof.Prelude.{◌≡◌, Bool, false, List, [], ◌∷◌, All, if◌then◌else◌, Bool-cases, inl, inr}
use clusterproof.Sorting.Orders.{IsWeakOrder, IsSorted}
use clusterproof.Sorting.Interface.{Sorter}

module _ {A : Type 0} (lt : A → A → Bool) where
  unfoldable pub insert : A → List A → List A
  insert x [] = x ∷ []
  insert x (y ∷ ys) = let rest = insert x ys in if lt y x then y ∷ rest else x ∷ y ∷ ys

  unfoldable pub insertion_sort : List A → List A
  unfolding insert
  insertion_sort [] = []
  insertion_sort (x ∷ xs) = insert x (insertion_sort xs)

  insert_perm : (x : A) (ys : List A) → Perm (insert x ys) (x ∷ ys)
  unfolding insert
  insert_perm x [] = Perm.refl (x ∷ [])
  insert_perm x (y ∷ ys) = elim (Bool-cases (lt y x)) [
    | inl below ↦ rw below (Perm.trans (Perm.cons y (insert_perm x ys)) (Perm.swap x y ys))
    | inr above ↦ rw above (Perm.refl (x ∷ y ∷ ys))
  ]

  pub insertion_sort_perm : (xs : List A) → Perm (insertion_sort xs) xs
  unfolding insertion_sort
  insertion_sort_perm [] = Perm.refl []
  insertion_sort_perm (x ∷ xs) =
      Perm.trans (insert_perm x (insertion_sort xs)) (Perm.cons x (insertion_sort_perm xs))

  All-insert : (P : A → Type 0) (x : A) (ys : List A) → P x → All P ys → All P (insert x ys)
  unfolding insert
  All-insert P x [] h hs = (h, tt)
  All-insert P x (y ∷ ys) h hs = elim (Bool-cases (lt y x)) [
    | inl below ↦ rw below (hs.0, All-insert P x ys h hs.1)
    | inr above ↦ rw above (h, hs)
  ]

  module _ (order : IsWeakOrder lt) where
    All-weaken :
        (x y : A) (zs : List A)
        → lt y x ≡ false
        → All (λ z. lt z y ≡ false) zs
        → All (λ z. lt z x ≡ false) zs
    All-weaken x y [] h hs = tt
    All-weaken x y (z ∷ zs) h hs = (order.weak z y x hs.0 h, All-weaken x y zs h hs.1)

    insert-IsSorted : (x : A) (ys : List A) → IsSorted lt ys → IsSorted lt (insert x ys)
    unfolding insert
    insert-IsSorted x [] s = (tt, tt)
    insert-IsSorted x (y ∷ ys) s = elim (Bool-cases (lt y x)) [
      | inl below ↦ rw below (
        All-insert (λ z. lt z y ≡ false) x ys (order.asym y x below) s.0,
        insert-IsSorted x ys s.1,
      )
      | inr above ↦ rw above ((above, All-weaken x y ys above s.0), s)
    ]

    pub insertion_sort-IsSorted : (xs : List A) → IsSorted lt (insertion_sort xs)
    unfolding insertion_sort
    insertion_sort-IsSorted [] = tt
    insertion_sort-IsSorted (x ∷ xs) =
        insert-IsSorted x (insertion_sort xs) (insertion_sort-IsSorted xs)

unfoldable pub insertion : Sorter
unfolding insertion_sort
insertion = record {
  sort = insertion_sort;
  sort_perm = insertion_sort_perm;
  sort_sorted = λ lt order xs. insertion_sort-IsSorted lt order xs;
}
