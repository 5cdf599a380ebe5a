-- ===== src/Text/Distinct.antt =====
-- Lists of texts without repetition, and the loop that finds a repetition by the texts seen so far.
use clusterproof.Prelude.{
  String, ◌≡◌, refl, Bool, true, not, ◌&&◌, List, [], ◌∷◌, ◌==◌, all, any, arith,
}

-- No text stands in the list twice.
unfoldable pub is_distinct : List String → Bool
is_distinct [] = true
is_distinct (x ∷ xs) = not (any (λ y. x == y) xs) && is_distinct xs

abbrev pub is_new : List String → String → Bool
is_new seen x = not (any (λ y. y == x) seen)

pub all_new :
    (x : String) (seen xs : List String)
    → all (is_new (x ∷ seen)) xs ≡ (all (is_new seen) xs && not (any (λ y. x == y) xs))
all_new x seen [] = refl
all_new x seen (y ∷ xs) = ground (arith, all_new x seen xs)

pub all_new_at_first : (xs : List String) → all (is_new []) xs ≡ true
all_new_at_first [] = refl
all_new_at_first (x ∷ xs) = all_new_at_first xs
