-- ===== src/Sorting/Empty.antt =====
-- The test for the empty list, and what it says of the functions on lists that the components share.
use clusterproof.Prelude.{
  ◌≡◌, refl, sym, ap, ◌∙◌, Bool, true, false, ◌&&◌, List, [], ◌∷◌, ◌++◌, arith, all, length,
  concat_map, nat_eq,
}
use clusterproof.Sorting.Interface.{Sorter}
use clusterproof.Sorting.Counts.{length-perm}

module _ {ℓ} {A : Type ℓ} where
  unfoldable pub is_empty : List A → Bool
  is_empty [] = true
  is_empty (x ∷ xs) = false

  pub is_empty-append : (xs ys : List A) → is_empty (xs ++ ys) ≡ (is_empty xs && is_empty ys)
  unfolding is_empty
  is_empty-append [] ys = refl
  is_empty-append (x ∷ xs) ys = refl

  is_empty-length : (xs : List A) → is_empty xs ≡ nat_eq (length xs) 0
  unfolding is_empty
  is_empty-length [] = refl
  is_empty-length (x ∷ xs) = ground arith

module _ (S : Sorter) where
  pub is_empty-sort :
      {A : Type 0} (lt : A → A → Bool) (xs : List A) → is_empty (S.sort lt xs) ≡ is_empty xs
  is_empty-sort lt xs =
      is_empty-length _
      ∙ ap (λ n. nat_eq n 0) (length-perm (S.sort_perm lt xs))
      ∙ sym (is_empty-length xs)

pub is_empty-concat_map {ℓ κ} :
    {A : Type ℓ} {B : Type κ} (f : A → List B) (xs : List A)
    → is_empty (concat_map f xs) ≡ all (λ x. is_empty (f x)) xs
unfolding is_empty
is_empty-concat_map f [] = refl
is_empty-concat_map f (x ∷ xs) =
    is_empty-append (f x) _ ∙ ap (λ b. is_empty (f x) && b) (is_empty-concat_map f xs)
