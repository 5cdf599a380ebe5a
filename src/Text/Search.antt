-- ===== src/Text/Search.antt =====
-- Finding text in text: Go's `strings.HasPrefix`, `TrimPrefix`, `Contains`, `ContainsAny`, `Index`
-- and `LastIndex`.
use Prim.Native.Char.{Char, code}
use Prim.Native.String.{◌∷◌ as cons, [] as empty}
use clusterproof.Prelude.{
  ℕ, String, ◌≡◌, refl, Bool, true, false, ◌&&◌, ◌||◌, Option, none, some, List, [], ◌∷◌, nat_eq,
  if◌then◌else◌, has_value, arith, ◌==◌,
}

unfoldable pub has_prefix : String → String → Bool
has_prefix empty empty = true
has_prefix empty (cons d t) = false
has_prefix (cons c s) empty = true
has_prefix (cons c s) (cons d t) = nat_eq (code c) (code d) && has_prefix s t

pub has_suffix : String → String → Bool
unfolding has_prefix
has_suffix empty t = has_prefix empty t
has_suffix (cons c s) t = cons c s == t || has_suffix s t

unfoldable pub drop_prefix : String → String → String
drop_prefix s empty = s
drop_prefix empty (cons d t) = empty
drop_prefix (cons c s) (cons d t) = drop_prefix s t

unfoldable pub trim_prefix : String → String → String
unfolding has_prefix drop_prefix
trim_prefix s t = if has_prefix s t then drop_prefix s t else s

unfoldable pub contains : String → String → Bool
unfolding has_prefix
contains empty t = has_prefix empty t
contains (cons c s) t = has_prefix (cons c s) t || contains s t

unfoldable pub has_char : String → ℕ → Bool
has_char empty n = false
has_char (cons c s) n = nat_eq (code c) n || has_char s n

-- strings.ContainsAny
unfoldable pub contains_any : String → String → Bool
unfolding has_char
contains_any s empty = false
contains_any s (cons c chars) = has_char s (code c) || contains_any s chars

-- The text before and after the last occurrence of a character: `strings.LastIndex` and the two
-- slices at it.
unfoldable pub split_last : ℕ → String → Option (String × String)
split_last n empty = none
split_last n (cons c s) = elim (split_last n s) [
  | some (before, after) ↦ some (cons c before, after)
  | none ↦ if nat_eq (code c) n then some (empty, s) else none
]

-- The text before and after the first occurrence of a character.
pub split_first : ℕ → String → Option (String × String)
split_first n empty = none
split_first n (cons c s) =
    let rest = split_first n s in
    if nat_eq (code c) n
    then some (empty, s)
    else elim rest [ none ↦ none | some (before, after) ↦ some (cons c before, after) ]

-- The text before and after the first occurrence of a text: `strings.Index` and the two slices.
pub split_text : String → String → Option (String × String)
unfolding has_prefix drop_prefix
split_text sep empty = if has_prefix empty sep then some (empty, empty) else none
split_text sep (cons c s) =
    let rest = split_text sep s in
    if has_prefix (cons c s) sep
    then some (empty, drop_prefix (cons c s) sep)
    else elim rest [ none ↦ none | some (before, after) ↦ some (cons c before, after) ]

-- It finds an occurrence exactly if there is one.
pub has_value-split_text :
    (sep s : String) → has_value (λ _. true) (split_text sep s) ≡ contains s sep
unfolding split_text contains
has_value-split_text sep empty = ground arith
has_value-split_text sep (cons c s) = ground (arith, has_value-split_text sep s)

found : contains "BEGIN PUBLIC KEY" "PUBLIC" ≡ true
unfolding contains
found = refl

split : split_last b':' "host:80/app:v1" ≡ some ("host:80/app", "v1")
unfolding split_last
split = refl

abbrev put_first : Char → List String → List String
put_first c [] = cons c empty ∷ []
put_first c (t ∷ ts) = cons c t ∷ ts

-- strings.Split at a character.
pub split_all : ℕ → String → List String
split_all n empty = empty ∷ []
split_all n (cons c s) =
    let rest = split_all n s in if nat_eq (code c) n then empty ∷ rest else put_first c rest

commas : split_all b',' "a,,b" ≡ "a" ∷ "" ∷ "b" ∷ []
unfolding split_all
commas = refl
