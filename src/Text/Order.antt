-- ===== src/Text/Order.antt =====
-- The order of texts, Go's `<` on strings: a strict total order.
use Prim.Native.String.{◌∷◌ as cons, [] as empty, compare}
use Prim.Native.String.compare
use text.Mathlib.Text.{is_lt}
use text.Mathlib.TextEquality.{Char-path}
use text.Mathlib.TextPositions.{compare_refl}
use mathlib.Core.HLevel.{hedberg}
use clusterproof.Prelude.{
  Bool-cases, inl, inr, eq_iff, String, ◌≡◌, refl, Bool, true, false, ◌==◌, arith, eq_iff,
}

abbrev pub str_lt : String → String → Bool
str_lt s t = is_lt (compare s t)

pub str_lt_asym : (s t : String) → str_lt s t ≡ true → str_lt t s ≡ false
str_lt_asym empty empty h = refl
str_lt_asym empty (cons d t) h = ground (arith, compare.cons-nil d t)
str_lt_asym (cons c s) empty h = ground (arith, compare.cons-nil c s)
str_lt_asym (cons c s) (cons d t) h =
    ground (arith, compare.cons-cons c d s t, compare.cons-cons d c t s, str_lt_asym s t)

-- "Not below" is transitive.
pub str_lt_weak : (s t u : String) → str_lt s t ≡ false → str_lt t u ≡ false → str_lt s u ≡ false
str_lt_weak s t empty h k = not_lt_empty s
  where
    not_lt_empty : (r : String) → str_lt r empty ≡ false
    not_lt_empty empty = refl
    not_lt_empty (cons c r) = ground (arith, compare.cons-nil c r)
str_lt_weak s empty (cons e u) h k = ground (arith, compare.nil-cons e u)
str_lt_weak empty (cons d t) (cons e u) h k = ground (arith, compare.nil-cons d t)
str_lt_weak (cons c s) (cons d t) (cons e u) h k = ground (
  arith,
  compare.cons-cons c d s t,
  compare.cons-cons d e t u,
  compare.cons-cons c e s u,
  str_lt_weak s t u,
)

pub str_lt_total : (s t : String) → str_lt s t ≡ false → str_lt t s ≡ false → s ≡ t
str_lt_total empty empty h k = refl
str_lt_total empty (cons d t) h k = ground (arith, compare.nil-cons d t)
str_lt_total (cons c s) empty h k = ground (arith, compare.nil-cons c s)
str_lt_total (cons c s) (cons d t) h k =
    ground
      (arith, compare.cons-cons c d s t, compare.cons-cons d c t s, str_lt_total s t, Char-path c d)

str_lt_irrefl : (s : String) → str_lt s s ≡ false
str_lt_irrefl s = rw compare_refl

pub String-set : IsSet String
String-set = hedberg (λ s t. elim (Bool-cases (s == t)) [
  | inl same ↦ yes ((eq_iff s t).0 same)
  | inr other ↦ no (λ e. ground (arith, eq_iff s t))
])
