-- ===== src/Rules/Drift/Emitted.antt =====
-- internal/rules: a test that holds of every finding which a rule emits holds of all that are
-- emitted.
use clusterproof.Prelude.{
  String, ◌≡◌, refl, Bool, true, false, Option, none, some, List, [], ◌∷◌, ◌++◌, arith, all,
  concat_map, if◌then◌else◌,
}
use clusterproof.Model.{Finding}
use clusterproof.Rules.Finding.{emit}
use clusterproof.Rules.Pod.{emit_texts, emit_risk}

-- A test holds of every finding of a list.
pub record Emits (p : Finding → Bool) (fs : List Finding) : Type 0 where
  pub every : all p fs ≡ true

module _ (p : Finding → Bool) where
  pub Emits-append : (fs gs : List Finding) → Emits p fs → Emits p gs → Emits p (fs ++ gs)
  Emits-append fs gs h k = record { every = all-append fs gs (h.every) (k.every) }
    where
      all-append :
          (fs gs : List Finding) → all p fs ≡ true → all p gs ≡ true → all p (fs ++ gs) ≡ true
      all-append [] gs h k = k
      all-append (f ∷ fs) gs h k = ground (arith, all-append fs gs (ground arith) k)

  pub Emits-emit : (b : Bool) (f : Finding) → (b ≡ true → p f ≡ true) → Emits p (emit b f)
  Emits-emit b f h = record { every = ground arith }

  pub Emits-emit_texts :
      (f : List String → Finding) (xs : List String)
      → ((ys : List String) → p (f ys) ≡ true)
      → Emits p (emit_texts f xs)
  Emits-emit_texts f [] h = record { every = refl }
  Emits-emit_texts f (x ∷ xs) h = record { every = ground (arith, h (x ∷ xs)) }

  pub Emits-emit_risk :
      {A : Type 0} (b : Bool) (f : A → Finding) (o : Option A)
      → (b ≡ true → (a : A) → p (f a) ≡ true)
      → Emits p (emit_risk b f o)
  Emits-emit_risk b f none h = record { every = refl }
  Emits-emit_risk true f (some a) h = record { every = ground (arith, h refl a) }
  Emits-emit_risk false f (some a) h = record { every = refl }

  pub Emits-emit_texts_if :
      (b : Bool) (f : List String → Finding) (xs : List String)
      → (b ≡ true → (ys : List String) → p (f ys) ≡ true)
      → Emits p (emit_texts f (if b then xs else []))
  Emits-emit_texts_if true f xs h = Emits-emit_texts f xs (h refl)
  Emits-emit_texts_if false f xs h = record { every = refl }

  pub Emits-concat_map :
      {A : Type 0} (f : A → List Finding) (xs : List A)
      → ((a : A) → Emits p (f a))
      → Emits p (concat_map f xs)
  Emits-concat_map f [] h = record { every = refl }
  Emits-concat_map f (x ∷ xs) h =
      Emits-append (f x) (concat_map f xs) (h x) (Emits-concat_map f xs h)
