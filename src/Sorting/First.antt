-- ===== src/Sorting/First.antt =====
-- The first value of a partial function that has at most one value on a list does not depend on the order of
-- the list.
use mathlib.Core.List.{Perm, Permᴰ}
use mathlib.Core.Logic.{∥∥₁_elim}
use clusterproof.Prelude.{
  ◌≤◌, ◌≡◌, refl, ap, ◌∙◌, Bool, true, Option, List, ◌∷◌, count_if, has_value, first_some, arith,
  Option-cases, inl, inr,
}
use clusterproof.Sorting.Counts.{count_if-permᴰ}

module _ {A B : Type 0} (f : A → Option B) where
  abbrev pub has : A → Bool
  has a = has_value (λ _. true) (f a)

  first_some-cons :
      (a : A) (xs ys : List A)
      → (count_if has xs ≤ 1 → first_some f xs ≡ first_some f ys)
      → count_if has (a ∷ xs) ≤ 1
      → first_some f (a ∷ xs) ≡ first_some f (a ∷ ys)
  first_some-cons a xs ys same few = elim (Option-cases (f a)) [
    | inl e ↦ ground (arith, e, same)
    | inr (b, e) ↦ ground (arith, e)
  ]

  first_some-swap :
      (a b : A) (xs : List A)
      → count_if has (a ∷ b ∷ xs) ≤ 1
      → first_some f (a ∷ b ∷ xs) ≡ first_some f (b ∷ a ∷ xs)
  first_some-swap a b xs few = elim (Option-cases (f a)) [
    | inl e ↦ elim (Option-cases (f b)) [
      | inl g ↦ ground (arith, e, g)
      | inr (c, g) ↦ ground (arith, e, g)
    ]
    | inr (c, e) ↦ elim (Option-cases (f b)) [
      | inl g ↦ ground (arith, e, g)
      | inr (d, g) ↦ absurd (ground (arith, e, g, few))
    ]
  ]

  first_some-permᴰ :
      {xs ys : List A} → Permᴰ xs ys → count_if has xs ≤ 1 → first_some f xs ≡ first_some f ys
  first_some-permᴰ Permᴰ.nil few = refl
  first_some-permᴰ (Permᴰ.cons {a = a} {b = b} {l₁ = l₁} {l₂ = l₂} e h) few =
      first_some-cons a l₁ l₂ (first_some-permᴰ h) few ∙ ap (λ x. first_some f (x ∷ l₂)) e
  first_some-permᴰ (Permᴰ.swap {a = a} {b = b} {a' = a'} {b' = b'} {l = l} e g) few =
      first_some-swap a b l few
      ∙ ap (λ x. first_some f (b ∷ x ∷ l)) e
      ∙ ap (λ x. first_some f (x ∷ b' ∷ l)) g
  first_some-permᴰ (Permᴰ.trans h k) few =
      first_some-permᴰ h few ∙ first_some-permᴰ k (omega (arith, few, count_if-permᴰ has h))

  pub first_some-perm :
      (set : IsSet (Option B)) {xs ys : List A}
      → Perm xs ys
      → count_if has xs ≤ 1
      → first_some f xs ≡ first_some f ys
  first_some-perm set h few = ∥∥₁_elim h (set _ _) (λ k. first_some-permᴰ k few)
