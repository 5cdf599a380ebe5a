-- ===== src/Exception/Apply.antt =====
-- `apply` against a description by rules and targets, without keys.
use mathlib.Core.List.{Perm}
use mathlib.Core.List.Perm
use clusterproof.Prelude.{
  ℕ, String, ◌≡◌, refl, sym, ap, ◌∙◌, fun_ext, Bool, true, ◌&&◌, Option, none, some, List, [], ◌∷◌,
  ◌==◌, All, All-map, is_none, find_last, keep_if, filter_map, map_option, arith, Option-cases,
  Bool-cases, inl, inr,
}
use clusterproof.Text.Keys.{NulFree, nul_join-eq}
use clusterproof.Maps.{Map, get, put, get-put}
use clusterproof.Sorting.Orders.{IsWeakOrder, IsSorted, then_by-IsWeakOrder, by_text-IsWeakOrder}
use clusterproof.Sorting.Interface.{Sorter}
use clusterproof.Model.{Finding, SuppressedFinding}
use clusterproof.Exception.{
  Exception, entry_key, is_active, activate, suppress, finding_key, partition, suppressed_order,
  apply,
}

-- The entries whose rule and target have no NUL in them, as every entry of a loaded file.
abbrev pub Clean : Exception → Type 0
Clean e = NulFree e.rule_id × NulFree e.target

-- The exception that covers a finding: the last active one for its rule and target.
abbrev covers : ℕ → Finding → Exception → Bool
covers now f e = is_active now e && (e.rule_id == f.id && e.target == f.target)

abbrev pub covering : ℕ → List Exception → Finding → Option Exception
covering now es f = find_last (covers now f) es

abbrev or_get : {A : Type 0} → Option A → Option A → Option A
or_get none d = d
or_get (some a) d = some a

-- A read of the map `active` finds the last active entry of the key.
pub get-activate :
    (now : ℕ) (m : Map Exception) (es : List Exception) (k : String)
    → get k (activate now m es)
      ≡ or_get (find_last (λ e. is_active now e && entry_key e == k) es) (get k m)
unfolding activate
get-activate now m [] k = refl
get-activate now m (e ∷ es) k = elim (Bool-cases (is_active now e)) [
  | inl active ↦
      ground (arith, get-activate now (put (entry_key e) e m) es k, get-put (entry_key e) k e m)
  | inr over ↦ ground (arith, get-activate now m es k)
]

find_last_cong :
    {A : Type 0} (p q : A → Bool) (xs : List A)
    → All (λ x. p x ≡ q x) xs
    → find_last p xs ≡ find_last q xs
find_last_cong p q [] h = refl
find_last_cong p q (x ∷ xs) h = ground (arith, find_last_cong p q xs h.1)

pub or_get-none : {A : Type 0} (o : Option A) → or_get o none ≡ o
or_get-none none = refl
or_get-none (some a) = refl

get-activate-covering :
    (now : ℕ) (es : List Exception) (f : Finding)
    → All Clean es
    → get (finding_key f) (activate now [] es) ≡ covering now es f
unfolding get
get-activate-covering now es f clean =
    get-activate now [] es (finding_key f)
    ∙ or_get-none _
    ∙ find_last_cong (λ e. is_active now e && entry_key e == finding_key f) (covers now f) es
        (All-map
          (λ e c.
            ap (λ b. is_active now e && b) (nul_join-eq f.id f.target e.rule_id e.target c.0 c.1))
          es clean)

pub partition_lem :
    (active : Map Exception) (fs : List Finding)
    → partition active fs ≡ (
      keep_if (λ f. is_none (get (finding_key f) active)) fs,
      filter_map (λ f. map_option (suppress f) (get (finding_key f) active)) fs,
    )
unfolding partition
partition_lem active [] = refl
partition_lem active (f ∷ fs) = elim (Option-cases (get (finding_key f) active)) [
  | inl missing ↦ ground (arith, partition_lem active fs)
  | inr found ↦ ground (arith, found.1, partition_lem active fs)
]

keep_if-all : {A : Type 0} (xs : List A) → keep_if (λ _. true) xs ≡ xs
keep_if-all [] = refl
keep_if-all (x ∷ xs) = ap (λ rest. x ∷ rest) (keep_if-all xs)

filter_map-none : {A B : Type 0} (xs : List A) → filter_map {B = B} (λ _. none) xs ≡ []
filter_map-none [] = refl
filter_map-none (x ∷ xs) = filter_map-none xs

-- The suppressed findings before they are sorted.
abbrev pub suppressions : ℕ → List Exception → List Finding → List SuppressedFinding
suppressions now es = filter_map (λ f. map_option (suppress f) (covering now es f))

partition-covering :
    (now : ℕ) (es : List Exception) (fs : List Finding)
    → All Clean es
    → partition (activate now [] es) fs
      ≡ (keep_if (λ f. is_none (covering now es f)) fs, suppressions now es fs)
partition-covering now es fs clean =
    partition_lem (activate now [] es) fs
    ∙ ap
        (λ (look : Finding → Option Exception). (
          keep_if (λ f. is_none (look f)) fs,
          filter_map (λ f. map_option (suppress f) (look f)) fs,
        ))
        (fun_ext (λ f. get-activate-covering now es f clean))

suppressed_order-IsWeakOrder : IsWeakOrder suppressed_order
suppressed_order-IsWeakOrder =
    then_by-IsWeakOrder (λ s. s.rule_id)
      (then_by-IsWeakOrder (λ s. s.target) (by_text-IsWeakOrder (λ s. s.location.container)))

-- `apply` keeps exactly the findings that no active exception covers, in their order; it suppresses
-- each of the others once, with the owner, the reason and the date of the last active exception
-- for exactly its rule and target, and sorts these by rule, target and container. The exceptions
-- have no NUL in their rules and targets; nothing is asked of the findings.
pub apply-covering :
    (S : Sorter) (fs : List Finding) (es : List Exception) (now : ℕ)
    → All Clean es
    → ((apply S fs es now).0 ≡ keep_if (λ f. is_none (covering now es f)) fs)
      × Perm (apply S fs es now).1 (suppressions now es fs)
      × IsSorted suppressed_order (apply S fs es now).1
unfolding apply
apply-covering S fs [] now clean =
    (sym (keep_if-all fs), rw (filter_map-none fs) (Perm.refl []), tt)
apply-covering S fs (e ∷ es) now clean = rw (partition-covering now (e ∷ es) fs clean) (
  refl,
  S.sort_perm suppressed_order _,
  S.sort_sorted suppressed_order suppressed_order-IsWeakOrder _,
)
