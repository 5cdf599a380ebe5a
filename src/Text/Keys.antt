-- ===== src/Text/Keys.antt =====
-- Composite keys: texts joined by the character NUL.
use Prim.Native.Char.{code, nul}
use Prim.Native.String.append
use Prim.Native.String.{◌∷◌ as cons, [] as empty, ◌++◌ as append}
use text.Mathlib.TextLemmas.{cons-eq-cons}
use clusterproof.Prelude.{◌&&◌, String, ◌≡◌, refl, sym, ap, true, false, ◌==◌, arith, eq_iff, ◌∙◌}
use clusterproof.Text.Search.{has_char}

-- a + "\x00" + b
unfoldable pub nul_join : String → String → String
nul_join a b = append a (cons nul b)

-- A text without NUL in it.
abbrev pub NulFree : String → Type 0
NulFree s = has_char s 0 ≡ false

has_char-nul_join : (a b : String) → has_char (nul_join a b) 0 ≡ true
unfolding nul_join has_char
has_char-nul_join empty b = rw append.nil
has_char-nul_join (cons c a) b = ground (arith, append.cons c a (cons nul b), has_char-nul_join a b)

-- Such a key determines its parts as soon as one of the two sides is made of texts without NUL.
nul_join-injective :
    (x y a b : String) → NulFree a → NulFree b → nul_join x y ≡ nul_join a b → (x ≡ a) × (y ≡ b)
unfolding nul_join has_char
nul_join-injective empty y empty b ha hb e =
    ground (arith, append.nil (cons nul y), append.nil (cons nul b))
nul_join-injective empty y (cons c a) b ha hb e =
    let heads = cons-eq-cons.0 (sym (append.nil (cons nul y)) ∙ e ∙ append.cons c a (cons nul b)) in
    ground (arith, ap code heads.0)
nul_join-injective (cons d x) y empty b ha hb e =
    let tails = cons-eq-cons.0 (sym (append.cons d x (cons nul y)) ∙ e ∙ append.nil (cons nul b)) in
    ground (arith, tails.1, has_char-nul_join x y)
nul_join-injective (cons d x) y (cons c a) b ha hb e =
    let parts =
      cons-eq-cons.0 (sym (append.cons d x (cons nul y)) ∙ e ∙ append.cons c a (cons nul b)) in
    ground (arith, parts, nul_join-injective x y a b (ground arith) hb parts.1)

-- So the test on keys is the test on their parts.
pub nul_join-eq :
    (x y a b : String) → NulFree a → NulFree b → (nul_join a b == nul_join x y) ≡ (a == x && b == y)
nul_join-eq x y a b ha hb = ground (
  arith,
  eq_iff (nul_join a b) (nul_join x y),
  eq_iff a x,
  eq_iff b y,
  λ (e : nul_join a b ≡ nul_join x y). nul_join-injective x y a b ha hb (sym e),
)

first_parts :
    (x y a b : String) → NulFree x → NulFree a → nul_join x y ≡ nul_join a b → (x ≡ a) × (y ≡ b)
unfolding nul_join has_char
first_parts empty y empty b hx ha e =
    let tails = cons-eq-cons.0 (sym (append.nil (cons nul y)) ∙ e ∙ append.nil (cons nul b)) in
    (refl, tails.1)
first_parts empty y (cons c a) b hx ha e =
    let heads = cons-eq-cons.0 (sym (append.nil (cons nul y)) ∙ e ∙ append.cons c a (cons nul b)) in
    ground (arith, ap code heads.0)
first_parts (cons d x) y empty b hx ha e =
    let heads = cons-eq-cons.0 (sym (append.cons d x (cons nul y)) ∙ e ∙ append.nil (cons nul b)) in
    ground (arith, ap code heads.0)
first_parts (cons d x) y (cons c a) b hx ha e =
    let parts =
      cons-eq-cons.0 (sym (append.cons d x (cons nul y)) ∙ e ∙ append.cons c a (cons nul b)) in
    ground (arith, parts, first_parts x y a b (ground arith) (ground arith) parts.1)

-- Two keys whose first parts have no NUL agree in both parts.
pub nul_join-eq_parts :
    (x y a b : String) → NulFree x → NulFree a → (nul_join x y == nul_join a b) ≡ (x == a && y == b)
nul_join-eq_parts x y a b hx ha = ground (
  arith,
  eq_iff (nul_join x y) (nul_join a b),
  eq_iff x a,
  eq_iff y b,
  λ (e : nul_join x y ≡ nul_join a b). first_parts x y a b hx ha e,
)
