-- ===== src/Maps.antt =====
-- Go's `map[string]V`. A map is its association list; a read takes the first entry of a key and a
-- write replaces it. `range` over a map visits the entries in an order that the language leaves
-- open: a `Ranging` chooses it.
use mathlib.Core.List.{Perm}
use clusterproof.Prelude.{
  String, ◌≡◌, refl, Option, none, some, List, [], ◌∷◌, ◌==◌, eq_iff, if◌then◌else◌, arith,
}

abbrev pub Map {ℓ} : Type ℓ → Type ℓ
Map V = List (String × V)

module _ {ℓ} {V : Type ℓ} where
  -- v, ok := m[k]
  unfoldable pub get : String → Map V → Option V
  get k [] = none
  get k ((j, v) ∷ m) = let rest = get k m in if j == k then some v else rest

  -- m[k] = v
  unfoldable pub put : String → V → Map V → Map V
  put k v [] = (k, v) ∷ []
  put k v ((j, w) ∷ m) = let rest = put k v m in if j == k then (j, v) ∷ m else (j, w) ∷ rest

  pub get-put :
      (k j : String) (v : V) (m : Map V) → get j (put k v m) ≡ (if k == j then some v else get j m)
  unfolding get put
  get-put k j v [] = refl
  get-put k j v ((i, w) ∷ m) = ground (arith, eq_iff k j, eq_iff i k, eq_iff i j, get-put k j v m)

-- m[k] of a map of texts: the empty text where the key is missing.
unfoldable pub get_text : String → Map String → String
unfolding get
get_text k m = elim (get k m) [ none ↦ "" | some v ↦ v ]

pub record Ranging : Type 1 where
  pub range : {A : Type 0} → List A → List A
  pub range_perm : {A : Type 0} (xs : List A) → Perm (range xs) xs
