-- ===== src/Sorting/Keyed.antt =====
-- Sorting by a key that no two elements share gives one list, whatever the order of the input and
-- whichever sort is used.
use mathlib.Core.List.{Perm, Permᴰ}
use mathlib.Core.List.Perm
use mathlib.Core.Logic.{∥∥₁_map}
use clusterproof.Prelude.{
  ◌≤◌, String, ◌≡◌, refl, ap, true, false, Option, none, some, List, [], ◌∷◌, All, count_if,
  filter_map, push_some, ◌==◌, eq_iff, arith,
}
use clusterproof.Text.Order.{str_lt_total}
use clusterproof.Sorting.Orders.{IsSorted, by_text, by_text-IsWeakOrder}
use clusterproof.Sorting.Interface.{Sorter}
use clusterproof.Sorting.Counts.{count_if-perm}
use clusterproof.Sorting.Unique.{IsStrict, perm-eq_of_IsStrict}

module _ {A : Type 0} (key : A → String) where
  -- No two elements of a list share a key.
  abbrev pub Separate : List A → Type 0
  Separate xs = (k : String) → count_if (λ x. key x == k) xs ≤ 1

  tail-strict :
      (x : A) (ys : List A)
      → All (λ y. by_text key y x ≡ false) ys
      → count_if (λ y. key y == key x) ys ≤ 0
      → All (λ y. by_text key x y ≡ true) ys
  tail-strict x [] h none_same = tt
  tail-strict x (y ∷ ys) h none_same = (
    ground (arith, h.0, str_lt_total (key x) (key y), eq_iff (key y) (key x)),
    tail-strict x ys h.1 (ground arith),
  )

  IsSorted-IsStrict :
      (xs : List A) → IsSorted (by_text key) xs → Separate xs → IsStrict (by_text key) xs
  IsSorted-IsStrict [] s sep = tt
  IsSorted-IsStrict (x ∷ xs) s sep = (
    tail-strict x xs s.0 (ground (arith, sep (key x), eq_iff (key x) (key x))),
    IsSorted-IsStrict xs s.1 (λ k. ground (arith, sep k)),
  )

  pub sort_unique :
      (A_set : IsSet A) (S T : Sorter) (xs ys : List A)
      → Perm xs ys
      → Separate xs
      → S.sort (by_text key) xs ≡ T.sort (by_text key) ys
  sort_unique A_set S T xs ys p sep =
      perm-eq_of_IsStrict A_set (by_text-IsWeakOrder key) (S.sort (by_text key) xs)
        (T.sort (by_text key) ys)
        (IsSorted-IsStrict _ (S.sort_sorted (by_text key) (by_text-IsWeakOrder key) xs)
          first_separate)
        (IsSorted-IsStrict _ (T.sort_sorted (by_text key) (by_text-IsWeakOrder key) ys)
          second_separate)
        (Perm.trans first_perm (Perm.trans p (Perm.symm second_perm)))
    where
      first_perm : Perm (S.sort (by_text key) xs) xs
      first_perm = S.sort_perm (by_text key) xs

      second_perm : Perm (T.sort (by_text key) ys) ys
      second_perm = T.sort_perm (by_text key) ys

      first_separate : Separate (S.sort (by_text key) xs)
      first_separate k = omega (arith, count_if-perm (λ x. key x == k) first_perm, sep k)

      second_separate : Separate (T.sort (by_text key) ys)
      second_separate k = omega (
        arith,
        count_if-perm (λ x. key x == k) second_perm,
        sep k,
        count_if-perm (λ x. key x == k) p,
      )

push_some-cons :
    {B : Type 0} (o : Option B) {xs ys : List B}
    → Permᴰ xs ys
    → Permᴰ (push_some o xs) (push_some o ys)
push_some-cons none h = h
push_some-cons (some b) h = Permᴰ.cons refl h

Permᴰ-same : {B : Type 0} (xs : List B) → Permᴰ xs xs
Permᴰ-same [] = Permᴰ.nil
Permᴰ-same (x ∷ xs) = Permᴰ.cons refl (Permᴰ-same xs)

push_some-swap :
    {B : Type 0} (o p : Option B) (xs : List B)
    → Permᴰ (push_some o (push_some p xs)) (push_some p (push_some o xs))
push_some-swap none p xs = Permᴰ-same (push_some p xs)
push_some-swap (some a) none xs = Permᴰ-same (a ∷ xs)
push_some-swap (some a) (some b) xs = Permᴰ.swap refl refl

module _ {A B : Type 0} (f : A → Option B) where
  filter_map-permᴰ : {xs ys : List A} → Permᴰ xs ys → Permᴰ (filter_map f xs) (filter_map f ys)
  filter_map-permᴰ Permᴰ.nil = Permᴰ.nil
  filter_map-permᴰ (Permᴰ.cons {a = a} {b = b} e h) =
      rw (ap f e) (push_some-cons (f b) (filter_map-permᴰ h))
  filter_map-permᴰ (Permᴰ.swap {a = a} {b = b} {a' = a'} {b' = b'} {l = l} e g) =
      rw (ap f e, ap f g) (push_some-swap (f b') (f a') (filter_map f l))
  filter_map-permᴰ (Permᴰ.trans h k) = Permᴰ.trans (filter_map-permᴰ h) (filter_map-permᴰ k)

  pub filter_map-perm : {xs ys : List A} → Perm xs ys → Perm (filter_map f xs) (filter_map f ys)
  filter_map-perm h = ∥∥₁_map h filter_map-permᴰ
