-- ===== src/Text/Bytes.antt =====
-- The bytes of a text, `[]byte(s)`, and slices of a text at its characters.
use Prim.Native.Char.{code}
use Prim.Native.String.{String, ◌∷◌ as cons, [] as empty}
use clusterproof.Prelude.{
  Bool, true, ◌&&◌, ◌||◌, leb, nat_eq, ℕ, zero, suc, ◌+◌, ◌/◌, ◌%◌, ◌≡◌, refl, List, [], ◌∷◌, ◌++◌,
  ltb, if◌then◌else◌,
}

-- UTF-8.
encode : ℕ → List ℕ
encode c =
    if ltb c 128
    then c ∷ []
    else if ltb c 2048
    then (192 + c / 64) ∷ (128 + c % 64) ∷ []
    else if ltb c 65536
    then (224 + c / 4096) ∷ (128 + c / 64 % 64) ∷ (128 + c % 64) ∷ []
    else (240 + c / 262144) ∷ (128 + c / 4096 % 64) ∷ (128 + c / 64 % 64) ∷ (128 + c % 64) ∷ []

pub bytes_of : String → List ℕ
unfolding encode
bytes_of empty = []
bytes_of (cons c s) = encode (code c) ++ bytes_of s

-- The first characters of a text.
unfoldable pub first_chars : ℕ → String → String
first_chars zero s = empty
first_chars (suc n) empty = empty
first_chars (suc n) (cons c s) = cons c (first_chars n s)

euro : bytes_of "a€" ≡ 97 ∷ 226 ∷ 130 ∷ 172 ∷ []
unfolding bytes_of
euro = refl

-- The white space of Unicode in UTF-8: of one byte, of two, and of three.
abbrev space_1 : ℕ → Bool
space_1 a = (leb 9 a && leb a 13) || nat_eq a 32

abbrev space_2 : ℕ → ℕ → Bool
space_2 a b = nat_eq a 194 && (nat_eq b 133 || nat_eq b 160)

abbrev space_3 : ℕ → ℕ → ℕ → Bool
space_3 a b c =
    (nat_eq a 225 && (nat_eq b 154 && nat_eq c 128))
    || (nat_eq a 226
        && ((nat_eq b 128
              && ((leb 128 c && leb c 138) || (nat_eq c 168 || (nat_eq c 169 || nat_eq c 175))))
            || (nat_eq b 129 && nat_eq c 159)))
    || (nat_eq a 227 && (nat_eq b 128 && nat_eq c 128))

-- len(bytes.TrimSpace(data)) == 0
pub is_blank_bytes : List ℕ → Bool
is_blank_bytes [] = true
is_blank_bytes (a ∷ []) = space_1 a
is_blank_bytes (a ∷ b ∷ []) = (space_1 a && is_blank_bytes (b ∷ [])) || space_2 a b
is_blank_bytes (a ∷ b ∷ c ∷ rest) =
    (space_1 a && is_blank_bytes (b ∷ c ∷ rest))
    || ((space_2 a b && is_blank_bytes (c ∷ rest)) || (space_3 a b c && is_blank_bytes rest))

blank : is_blank_bytes (32 ∷ 226 ∷ 128 ∷ 168 ∷ 194 ∷ 160 ∷ 10 ∷ []) ≡ true
unfolding is_blank_bytes
blank = refl
