-- ===== src/Compare/Sets.antt =====
-- The map that `findingSet` builds: one entry for each key, the first finding of that key.
use clusterproof.Prelude.{
  ℕ, ◌+◌, ◌≤◌, String, ◌≡◌, refl, Bool, false, ◌&&◌, Option, none, some, List, [], ◌∷◌, ◌==◌,
  eq_iff, arith, if◌then◌else◌, any, count_if, find_first, All, has_value, Option-cases, inl, inr,
  Bool-cases,
}
use clusterproof.Maps.{Map, get, put, get-put}
use clusterproof.Model.{Finding}
use clusterproof.Compare.{finding_key, finding_set_from, finding_set}

-- The first finding with a key.
abbrev pub first : String → List Finding → Option Finding
first k = find_first (λ f. finding_key f == k)

abbrev or_else : {A : Type 0} → Option A → Option A → Option A
or_else none d = d
or_else (some a) d = some a

get-finding_set_from :
    (set : Map Finding) (fs : List Finding) (k : String)
    → get k (finding_set_from set fs) ≡ or_else (get k set) (first k fs)
unfolding finding_set_from
get-finding_set_from set [] k = ground arith
get-finding_set_from set (f ∷ fs) k = elim (Option-cases (get (finding_key f) set)) [
  | inl missing ↦ ground (
    arith,
    missing,
    get-finding_set_from (put (finding_key f) f set) fs k,
    get-put (finding_key f) k f set,
    eq_iff (finding_key f) k,
  )
  | inr (g, found) ↦ ground (arith, found, get-finding_set_from set fs k, eq_iff (finding_key f) k)
]

pub get-finding_set : (fs : List Finding) (k : String) → get k (finding_set fs) ≡ first k fs
unfolding finding_set get
get-finding_set fs k = get-finding_set_from [] fs k

-- How many entries a map has for a key.
abbrev pub entries_of : {V : Type 0} → String → Map V → ℕ
entries_of k = count_if (λ e. e.0 == k)

entries_of-missing : {V : Type 0} (k : String) (m : Map V) → get k m ≡ none → entries_of k m ≡ 0
unfolding get
entries_of-missing k [] h = refl
entries_of-missing k ((j, v) ∷ m) h = ground (arith, entries_of-missing k m)

entries_of-put :
    {V : Type 0} (k j : String) (v : V) (m : Map V)
    → get j m ≡ none
    → entries_of k (put j v m) ≡ entries_of k m + (if j == k then 1 else 0)
unfolding get put
entries_of-put k j v [] h = ground arith
entries_of-put k j v ((i, w) ∷ m) h = ground (arith, entries_of-put k j v m)

entries_of-finding_set_from :
    (set : Map Finding) (fs : List Finding) (k : String)
    → ((j : String) → entries_of j set ≤ 1)
    → entries_of k (finding_set_from set fs) ≤ 1
unfolding finding_set_from
entries_of-finding_set_from set [] k h = h k
entries_of-finding_set_from set (f ∷ fs) k h = elim (Option-cases (get (finding_key f) set)) [
  | inl missing ↦
      rw missing (entries_of-finding_set_from (put (finding_key f) f set) fs k (λ j. one j missing))
  | inr found ↦ rw found.1 (entries_of-finding_set_from set fs k h)
]
  where
    one :
        (j : String) → get (finding_key f) set ≡ none → entries_of j (put (finding_key f) f set) ≤ 1
    one j missing = ground (
      arith,
      h j,
      entries_of-put j (finding_key f) f set missing,
      entries_of-missing (finding_key f) set missing,
      eq_iff (finding_key f) j,
    )

pub entries_of-finding_set : (fs : List Finding) (k : String) → entries_of k (finding_set fs) ≤ 1
unfolding finding_set
entries_of-finding_set fs k = entries_of-finding_set_from [] fs k (λ j. omega arith)

-- Each entry stands under the key of its finding.
abbrev pub Keyed : Map Finding → Type 0
Keyed = All (λ e. e.0 ≡ finding_key e.1)

put-Keyed :
    (f : Finding) (m : Map Finding)
    → Keyed m
    → get (finding_key f) m ≡ none
    → Keyed (put (finding_key f) f m)
unfolding put get
put-Keyed f [] h missing = (refl, tt)
put-Keyed f ((j, g) ∷ m) h missing = elim (Bool-cases (j == finding_key f)) [
  | inl same ↦ absurd (ground arith)
  | inr other ↦ rw other (h.0, put-Keyed f m h.1 (ground arith))
]

finding_set_from-Keyed :
    (set : Map Finding) (fs : List Finding) → Keyed set → Keyed (finding_set_from set fs)
unfolding finding_set_from
finding_set_from-Keyed set [] h = h
finding_set_from-Keyed set (f ∷ fs) h = elim (Option-cases (get (finding_key f) set)) [
  | inl missing ↦
      rw missing (finding_set_from-Keyed (put (finding_key f) f set) fs (put-Keyed f set h missing))
  | inr found ↦ rw found.1 (finding_set_from-Keyed set fs h)
]

pub finding_set-Keyed : (fs : List Finding) → Keyed (finding_set fs)
unfolding finding_set
finding_set-Keyed fs = finding_set_from-Keyed [] fs tt

any-absent :
    {V : Type 0} (k : String) (p : V → Bool) (m : Map V)
    → entries_of k m ≡ 0
    → any (λ e. e.0 == k && p e.1) m ≡ false
any-absent k p [] h = refl
any-absent k p ((j, v) ∷ m) h = ground (arith, any-absent k p m)

-- In a map with one entry for each key, to look for an entry of a key is to read the map.
pub any-get :
    {V : Type 0} (k : String) (p : V → Bool) (m : Map V)
    → entries_of k m ≤ 1
    → any (λ e. e.0 == k && p e.1) m ≡ has_value p (get k m)
unfolding get
any-get k p [] h = refl
any-get k p ((j, v) ∷ m) h = ground (arith, any-get k p m, any-absent k p m)
