-- ===== src/Sorting/Counts.antt =====
-- What a permutation does not change: the length, and what a Boolean test finds.
use mathlib.Core.List.{Perm, Permᴰ}
use mathlib.Core.Logic.{∥∥₁_elim}
use native.Mathlib.Nat.{ℕ_set}
use clusterproof.Prelude.{
  ltb, ◌≡◌, refl, sym, ap, ◌∙◌, Bool, true, List, [], ◌∷◌, arith, any, count_if, length, all, not,
}

module _ {A : Type 0} where
  pub count_if-permᴰ : (p : A → Bool) {xs ys : List A} → Permᴰ xs ys → count_if p xs ≡ count_if p ys
  count_if-permᴰ p Permᴰ.nil = refl
  count_if-permᴰ p (Permᴰ.cons {a = a} {b = b} {l₁ = l₁} {l₂ = l₂} e h) =
      ground (arith, ap p e, count_if-permᴰ p h)
  count_if-permᴰ p (Permᴰ.swap e f) = ground (arith, ap p e, ap p f)
  count_if-permᴰ p (Permᴰ.trans h k) = count_if-permᴰ p h ∙ count_if-permᴰ p k

  pub count_if-perm : (p : A → Bool) {xs ys : List A} → Perm xs ys → count_if p xs ≡ count_if p ys
  count_if-perm p h = ∥∥₁_elim h (ℕ_set _ _) (count_if-permᴰ p)

  -- `any` is read off the count.
  any-count_if : (p : A → Bool) (xs : List A) → any p xs ≡ ltb 0 (count_if p xs)
  any-count_if p [] = refl
  any-count_if p (x ∷ xs) = ground (arith, any-count_if p xs)

  pub any-perm : (p : A → Bool) {xs ys : List A} → Perm xs ys → any p xs ≡ any p ys
  any-perm p {xs} {ys} h =
      any-count_if p xs ∙ ap (ltb 0) (count_if-perm p h) ∙ sym (any-count_if p ys)

  length-count_if : (xs : List A) → length xs ≡ count_if (λ _. true) xs
  length-count_if [] = refl
  length-count_if (x ∷ xs) = omega (arith, length-count_if xs)

  pub length-perm : {xs ys : List A} → Perm xs ys → length xs ≡ length ys
  length-perm {xs} {ys} h =
      length-count_if xs ∙ count_if-perm (λ _. true) h ∙ sym (length-count_if ys)

  all-any : (p : A → Bool) (xs : List A) → all p xs ≡ not (any (λ x. not (p x)) xs)
  all-any p [] = refl
  all-any p (x ∷ xs) = ground (arith, all-any p xs)

  pub all-perm : (p : A → Bool) {xs ys : List A} → Perm xs ys → all p xs ≡ all p ys
  all-perm p {xs} {ys} h = all-any p xs ∙ ap not (any-perm (λ x. not (p x)) h) ∙ sym (all-any p ys)
