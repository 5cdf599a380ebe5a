-- ===== src/Sorting/Unique.antt =====
-- Two sorted arrangements of the same elements, whose keys differ, are the same list: what makes
-- the output of a sort by a unique key independent of the order of its input.
use mathlib.Core.List.{Perm, Mem, mem-cons, mem-cons_self, not-mem-nil}
use mathlib.Core.List.Perm
use mathlib.Core.Logic.Or
use mathlib.Core.Path.{ap₂}
use mathlib.Core.Bool.{Bool-set}
use clusterproof.Prelude.{◌≡◌, refl, sym, subst, Bool, true, List, [], ◌∷◌, All, arith}
use clusterproof.Sorting.Orders.{IsWeakOrder}

-- Each element is below all that stand behind it.
abbrev pub IsStrict : {A : Type 0} → (A → A → Bool) → List A → Type 0
IsStrict lt [] = Unit
IsStrict lt (x ∷ xs) = All (λ y. lt x y ≡ true) xs × IsStrict lt xs

module _ {A : Type 0} (A_set : IsSet A) {lt : A → A → Bool} (order : IsWeakOrder lt) where
  below-mem : (x z : A) (xs : List A) → All (λ y. lt x y ≡ true) xs → Mem z xs → lt x z ≡ true
  below-mem x z [] h m = absurd (not-mem-nil m)
  below-mem x z (y ∷ xs) h m =
      Or.elim (Bool-set _ _) (mem-cons.0 m) (λ e. subst (λ v. lt x v ≡ true) (sym e) h.0)
        (λ n. below-mem x z xs h.1 n)

  heads_eq :
      (x y : A) (xs ys : List A)
      → All (λ z. lt x z ≡ true) xs
      → All (λ z. lt y z ≡ true) ys
      → Mem x (y ∷ ys)
      → Mem y (x ∷ xs)
      → x ≡ y
  heads_eq x y xs ys hx hy mx my =
      Or.elim (A_set x y) (mem-cons.0 mx) (λ e. e)
        (λ inside.
          Or.elim (A_set x y) (mem-cons.0 my) (λ e. sym e)
            (λ inside'.
              absurd (both_below (below-mem x y xs hx inside') (below-mem y x ys hy inside))))
    where
      both_below : lt x y ≡ true → lt y x ≡ true → ⊥
      both_below p q = ground (arith, order.asym x y)

  pub perm-eq_of_IsStrict :
      (xs ys : List A) → IsStrict lt xs → IsStrict lt ys → Perm xs ys → xs ≡ ys
  perm-eq_of_IsStrict [] [] s t p = refl
  perm-eq_of_IsStrict [] (y ∷ ys) s t p = sym (Perm.eq-nil (Perm.symm p))
  perm-eq_of_IsStrict (x ∷ xs) [] s t p = Perm.eq-nil p
  perm-eq_of_IsStrict (x ∷ xs) (y ∷ ys) s t p =
      ap₂ (λ a rest. a ∷ rest) same
        (perm-eq_of_IsStrict xs ys s.1 t.1
          (Perm.cons_inv {a = y} (subst (λ a. Perm (a ∷ xs) (y ∷ ys)) same p)))
    where
      same : x ≡ y
      same =
          heads_eq x y xs ys s.0 t.0 ((Perm.mem_iff p).0 mem-cons_self)
            ((Perm.mem_iff p).1 mem-cons_self)
