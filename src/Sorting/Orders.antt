-- ===== src/Sorting/Orders.antt =====
-- Comparison functions for sorting: strict weak orders, and the lists that they order.
use clusterproof.Prelude.{
  String, ◌≡◌, Bool, true, false, List, [], ◌∷◌, All, if◌then◌else◌, arith, ◌==◌, eq_iff,
}
use clusterproof.Text.Order.{str_lt, str_lt_asym, str_lt_weak, str_lt_total}

-- What `sort.Slice` asks of its comparison: a strict weak order.
pub record IsWeakOrder {A : Type 0} (lt : A → A → Bool) : Type 0 where
  pub asym : (a b : A) → lt a b ≡ true → lt b a ≡ false
  pub weak : (a b c : A) → lt a b ≡ false → lt b c ≡ false → lt a c ≡ false

-- No element stands behind one that it is below.
abbrev pub IsSorted : {A : Type 0} → (A → A → Bool) → List A → Type 0
IsSorted lt [] = Unit
IsSorted lt (x ∷ xs) = All (λ y. lt y x ≡ false) xs × IsSorted lt xs

-- The comparison by one text.
abbrev pub by_text : {A : Type 0} → (A → String) → A → A → Bool
by_text key a b = str_lt (key a) (key b)

-- The comparison by a first text, and by `lt` where the first texts are equal.
abbrev pub then_by : {A : Type 0} → (A → String) → (A → A → Bool) → A → A → Bool
then_by key lt a b = if key a == key b then lt a b else str_lt (key a) (key b)

pub by_text-IsWeakOrder : {A : Type 0} (key : A → String) → IsWeakOrder (by_text key)
by_text-IsWeakOrder key = record {
  asym = λ a b. str_lt_asym (key a) (key b);
  weak = λ a b c. str_lt_weak (key a) (key b) (key c);
}

module _ {A : Type 0} (key : A → String) {lt : A → A → Bool} (order : IsWeakOrder lt) where
  then_by_asym : (a b : A) → then_by key lt a b ≡ true → then_by key lt b a ≡ false
  then_by_asym a b h = ground (
    arith,
    order.asym a b,
    str_lt_asym (key a) (key b),
    eq_iff (key a) (key b),
    eq_iff (key b) (key a),
  )

  then_by_weak :
      (a b c : A)
      → then_by key lt a b ≡ false
      → then_by key lt b c ≡ false
      → then_by key lt a c ≡ false
  then_by_weak a b c h k = ground (
    arith,
    order.weak a b c,
    eq_iff (key a) (key b),
    eq_iff (key b) (key c),
    eq_iff (key a) (key c),
    str_lt_weak (key a) (key b) (key c),
    str_lt_total (key a) (key b),
    str_lt_asym (key a) (key b),
    str_lt_asym (key b) (key a),
  )

  pub then_by-IsWeakOrder : IsWeakOrder (then_by key lt)
  then_by-IsWeakOrder = record { asym = then_by_asym; weak = then_by_weak }
