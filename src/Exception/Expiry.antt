-- ===== src/Exception/Expiry.antt =====
-- Exceptions expire: time only brings findings back.
use clusterproof.Prelude.{
  ℕ, ◌≤◌, ◌≡◌, refl, Bool, true, ◌&&◌, List, [], ◌∷◌, ◌==◌, is_none, find_last, keep_if, count_if,
  arith, String, ◌∙◌,
}
use clusterproof.Maps.{get}
use clusterproof.Sorting.Interface.{Sorter}
use clusterproof.Model.{Finding}
use clusterproof.Exception.{Exception, entry_key, is_active, activate, finding_key, apply}
use clusterproof.Exception.Apply.{get-activate, partition_lem, or_get-none}

is_active_earlier :
    (now later : ℕ) (e : Exception)
    → now ≤ later
    → is_active later e ≡ true
    → is_active now e ≡ true
unfolding is_active
is_active_earlier now later e h active = ground arith

find_last_fewer :
    {A : Type 0} (p q : A → Bool)
    → ((x : A) → p x ≡ true → q x ≡ true)
    → (xs : List A) → is_none (find_last q xs) ≡ true
    → is_none (find_last p xs) ≡ true
find_last_fewer p q imp [] h = refl
find_last_fewer p q imp (x ∷ xs) h = ground (arith, imp x, find_last_fewer p q imp xs)

keep_if_more :
    {A : Type 0} (test p q : A → Bool)
    → ((x : A) → p x ≡ true → q x ≡ true)
    → (xs : List A) → count_if test (keep_if p xs) ≤ count_if test (keep_if q xs)
keep_if_more test p q imp [] = omega arith
keep_if_more test p q imp (x ∷ xs) = ground (arith, imp x, keep_if_more test p q imp xs)

uncovered_later :
    (now later : ℕ) (es : List Exception) (k : String)
    → now ≤ later
    → is_none (get k (activate now [] es)) ≡ true
    → is_none (get k (activate later [] es)) ≡ true
unfolding get
uncovered_later now later es k h uncovered =
    rw
      (get-activate later [] es k
        ∙ or_get-none (find_last (λ e. is_active later e && entry_key e == k) es))
      (find_last_fewer (λ e. is_active later e && entry_key e == k)
        (λ e. is_active now e && entry_key e == k)
        (λ e a. ground (arith, is_active_earlier now later e h)) es
        (rw
          (get-activate now [] es k
            ∙ or_get-none (find_last (λ e. is_active now e && entry_key e == k) es))
          at uncovered))

-- Of the findings that pass any test, at least as many are kept at a later time as are kept now: a
-- finding that is kept stays kept, whatever the exceptions and the findings are.
pub apply_later :
    (S : Sorter) (fs : List Finding) (es : List Exception) (now later : ℕ) (test : Finding → Bool)
    → now ≤ later
    → count_if test (apply S fs es now).0 ≤ count_if test (apply S fs es later).0
unfolding apply
apply_later S fs [] now later test h = omega arith
apply_later S fs (e ∷ es) now later test h =
    rw (partition_lem (activate now [] (e ∷ es)) fs, partition_lem (activate later [] (e ∷ es)) fs)
      (keep_if_more test _ _ (λ f. uncovered_later now later (e ∷ es) (finding_key f) h) fs)
