-- ===== src/Prelude/Results.antt =====
-- Go's pair of a value and an error, as a result.
use mathlib.Core.Logic.{◌⊎◌, inl, inr}
use mathlib.Core.Path.{◌≡◌, refl}
use mathlib.Core.Bool.{Bool, true, false, not, ◌&&◌}

pub data Result {ℓ κ} (E : Type ℓ) (A : Type κ) : Type (ℓ ⊔ κ) where
  ok : A → Result E A
  err : E → Result E A

abbrev pub is_ok {ℓ κ} : {E : Type ℓ} {A : Type κ} → Result E A → Bool
is_ok (ok a) = true
is_ok (err e) = false

-- `if test { return err }`
abbrev pub refuse {ℓ} : {E : Type ℓ} → Bool → E → Result E (Unit {0})
refuse false problem = ok tt
refuse true problem = err problem

-- A guard that passed did not find its test true.
pub refuse-eq-ok {ℓ} :
    {E : Type ℓ} (test : Bool) (problem : E) {done : Unit {0}}
    → refuse test problem ≡ ok done
    → test ≡ false
refuse-eq-ok false problem passed = refl
refuse-eq-ok true problem passed = cc

-- `v, err := f(); if err != nil { return err }`
infixl 5 ◌>>=◌
abbrev pub ◌>>=◌ {ℓ κ μ} :
    {E : Type ℓ} {A : Type κ} {B : Type μ} → Result E A → (A → Result E B) → Result E B
err problem >>= next = err problem
ok v >>= next = next v

-- The same without a value.
infixl 5 ◌>>◌
abbrev pub ◌>>◌ {ℓ μ} : {E : Type ℓ} {B : Type μ} → Result E (Unit {0}) → Result E B → Result E B
first >> second = first >>= λ done. second

-- Where two steps succeed together, the first one succeeded.
pub >>=-eq-ok {ℓ κ μ} :
    {E : Type ℓ} {A : Type κ} {B : Type μ} (first : Result E A) (next : A → Result E B) {w : B}
    → (first >>= next) ≡ ok w
    → (v : A) × (first ≡ ok v) × (next v ≡ ok w)
>>=-eq-ok (err problem) next both = cc
>>=-eq-ok (ok v) next both = (v, refl, both)

-- A sequence succeeds where all of its steps do.
pub is_ok-refuse {ℓ μ} :
    {E : Type ℓ} {B : Type μ} (test : Bool) (problem : E) (next : Result E B)
    → is_ok (refuse test problem >> next) ≡ (not test && is_ok next)
is_ok-refuse true problem next = refl
is_ok-refuse false problem next = refl

pub is_ok-then {ℓ μ} :
    {E : Type ℓ} {B : Type μ} (first : Result E (Unit {0})) (next : Result E B)
    → is_ok (first >> next) ≡ (is_ok first && is_ok next)
is_ok-then (ok u) next = refl
is_ok-then (err e) next = refl

pub refuse-then-ok {ℓ μ} :
    {E : Type ℓ} {B : Type μ} (test : Bool) (problem : E) (next : Result E B) {w : B}
    → (refuse test problem >> next) ≡ ok w
    → next ≡ ok w
refuse-then-ok false problem next passed = passed
refuse-then-ok true problem next passed = cc

pub ok-of-is_ok {ℓ} : {E : Type ℓ} (r : Result E (Unit {0})) → is_ok r ≡ true → r ≡ ok tt
ok-of-is_ok (ok u) h = refl
ok-of-is_ok (err e) h = cc

pub Result-cases {ℓ κ} :
    {E : Type ℓ} {A : Type κ} (r : Result E A) → ((a : A) × (r ≡ ok a)) ⊎ ((e : E) × (r ≡ err e))
Result-cases (ok a) = inl (a, refl)
Result-cases (err e) = inr (e, refl)
