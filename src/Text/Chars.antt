-- ===== src/Text/Chars.antt =====
-- Characters and case: Go's `unicode.IsSpace`, `unicode.IsControl`, `strings.ToLower`,
-- `strings.ToUpper` and `strings.EqualFold`.
use Prim.Native.Nat.{compare, Ordering}
use Prim.Native.Char.{Char, char, code, nul, IsScalar}
use Prim.Native.String.{◌∷◌ as cons, [] as empty}
use native.Mathlib.Decide.{dec_lt}
use mathlib.Core.Logic.{dite}
use clusterproof.Prelude.{
  ℕ, ◌+◌, ◌-◌, ◌<◌, String, ◌≡◌, Bool, true, false, ◌&&◌, ◌||◌, ltb, leb, nat_eq, if◌then◌else◌,
  arith, refl,
}

pub IsScalar-small : (n : ℕ) → n < 55296 → IsScalar n
IsScalar-small n h = let e : compare n 55296 ≡ Ordering.lt = ground arith in rw e tt

-- The character with a code point, for code points below the surrogates.
of_code : ℕ → Char
unfolding dec_lt
of_code n = dite (dec_lt n 55296) (λ h. char n (IsScalar-small n h)) (λ _. nul)

-- unicode.IsSpace
unfoldable pub is_space : ℕ → Bool
is_space c =
    (leb 9 c && leb c 13)
    || nat_eq c 32
    || nat_eq c 0x85
    || nat_eq c 0xA0
    || nat_eq c 0x1680
    || (leb 0x2000 c && leb c 0x200a)
    || nat_eq c 0x2028
    || nat_eq c 0x2029
    || nat_eq c 0x202f
    || nat_eq c 0x205f
    || nat_eq c 0x3000

-- unicode.IsControl
unfoldable pub is_control : ℕ → Bool
is_control c = ltb c 32 || (leb 127 c && ltb c 160)

-- unicode.ToLower: the ASCII letters, and U+212A and U+0130, whose lower case is ASCII.
lower_code : ℕ → ℕ
lower_code c =
    if leb 65 c && leb c 90
    then c + 32
    else if nat_eq c 0x212A
    then 107
    else if nat_eq c 0x130
    then 105
    else c

-- unicode.ToUpper: the ASCII letters, and U+017F and U+0131, whose upper case is ASCII.
upper_code : ℕ → ℕ
upper_code c =
    if leb 97 c && leb c 122
    then c - 32
    else if nat_eq c 0x17F
    then 83
    else if nat_eq c 0x131
    then 73
    else c

-- The least code point of the case orbit, for the orbits that hold an ASCII letter.
fold_code : ℕ → ℕ
fold_code c =
    if leb 97 c && leb c 122
    then c - 32
    else if nat_eq c 0x17F
    then 83
    else if nat_eq c 0x212A
    then 75
    else c

recode : (ℕ → ℕ) → Char → Char
recode f c = let n = f (code c) in if nat_eq n (code c) then c else of_code n

unfoldable pub to_lower : String → String
unfolding recode lower_code of_code
to_lower empty = empty
to_lower (cons c s) = cons (recode lower_code c) (to_lower s)

unfoldable pub to_upper : String → String
unfolding recode upper_code of_code
to_upper empty = empty
to_upper (cons c s) = cons (recode upper_code c) (to_upper s)

-- strings.EqualFold
unfoldable pub equal_fold : String → String → Bool
unfolding fold_code
equal_fold empty empty = true
equal_fold empty (cons d t) = false
equal_fold (cons c s) empty = false
equal_fold (cons c s) (cons d t) =
    nat_eq (fold_code (code c)) (fold_code (code d)) && equal_fold s t

lowered : to_lower "RuntimeDefault" ≡ "runtimedefault"
unfolding to_lower dec_lt
lowered = refl

folded : equal_fold "LaTeSt" "latest" ≡ true
unfolding equal_fold
folded = refl
