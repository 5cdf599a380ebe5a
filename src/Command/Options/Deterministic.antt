-- ===== src/Command/Options/Deterministic.antt =====
-- The options of a scan do not depend on the order in which the map of its flags is visited: no argument
-- matches two flags.
use Prim.Native.Char.{Char, code}
use Prim.Native.String.append
use Prim.Native.String.compare
use Prim.Native.String.{◌∷◌ as cons, [] as empty, ◌++◌ as append}
use mathlib.Core.List.Perm
use clusterproof.Prelude.{
  ◌≤◌, String, ◌≡◌, refl, sym, subst, fun_ext, Bool, true, false, not, ◌&&◌, ◌||◌, Option, none,
  some, List, [], ◌∷◌, ◌==◌, if◌then◌else◌, nat_eq, any, all, map, count_if, arith, eq_iff,
  Bool-cases, inl, inr, eq_refl,
}
use clusterproof.Text.Empty.{cons_not_empty}
use clusterproof.Text.Search.{has_prefix, has_char}
use clusterproof.Text.Distinct.{is_distinct}
use clusterproof.Text.Order.{String-set}
use clusterproof.Sorting.First.{has, first_some-perm}
use clusterproof.Maps.{Ranging}
use clusterproof.Command.Options.{
  ScanOptions, initial_options, Flag, value_flags, Action, flag_action, first_action, step,
  read_args, parse_scan_options,
}

-- The text of an argument before its first `=`.
flag_name : String → String
flag_name empty = empty
flag_name (cons c s) = let rest = flag_name s in if nat_eq (code c) b'=' then empty else cons c rest

cons-eq-cons :
    (c d : Char) (s t : String) → (cons c s == cons d t) ≡ (nat_eq (code c) (code d) && s == t)
cons-eq-cons c d s t = ground (arith, compare.cons-cons c d s t)

empty_not_cons : (d : Char) (t : String) → ("" == cons d t) ≡ false
empty_not_cons d t = ground (arith, compare.nil-cons d t)

prefix_empty : (s : String) → has_prefix s "" ≡ true
unfolding has_prefix
prefix_empty empty = refl
prefix_empty (cons c s) = refl

names :
    (current name : String)
    → has_char name b'=' ≡ false
    → (current == name || has_prefix current (append name "=")) ≡ (flag_name current == name)
unfolding flag_name has_prefix has_char
names empty empty h = refl
names (cons c s) empty h = elim (Bool-cases (nat_eq (code c) b'=')) [
  | inl e ↦ simp (e, prefix_empty s, cons_not_empty c s, eq_refl "")
  | inr e ↦ simp (e, cons_not_empty c s, cons_not_empty c (flag_name s))
]
names empty (cons d t) h = ground (arith, append.cons d t "=")
names (cons c s) (cons d t) h = ground (
  arith,
  append.cons d t "=",
  cons-eq-cons c d s t,
  cons-eq-cons c d (flag_name s) t,
  empty_not_cons d t,
  names s t,
)

absent :
    (k : String) (xs : List String) → any (λ y. k == y) xs ≡ false → count_if (λ x. k == x) xs ≤ 0
absent k [] h = omega arith
absent k (x ∷ xs) h = ground (arith, h, absent k xs)

-- A text occurs at most once in a list without repetition.
count-distinct :
    (k : String) (xs : List String) → is_distinct xs ≡ true → count_if (λ x. k == x) xs ≤ 1
unfolding is_distinct
count-distinct k [] h = omega arith
count-distinct k (x ∷ xs) h = elim (Bool-cases (k == x)) [
  | inl same ↦
      let e : k ≡ x = (eq_iff k x).0 same in
      ground (
        arith,
        same,
        absent k xs (subst (λ y. any (λ z. y == z) xs ≡ false) (sym e) (ground arith)),
      )
  | inr other ↦ ground (arith, other, count-distinct k xs)
]

OptionAction-set : IsSet (Option Action)
OptionAction-set = hlevel String-set

module _ (options : ScanOptions) (current : String) (following : Option String) where
  -- A flag matches if its name is the argument's.
  flag_action-has :
      (flag : Flag)
      → has_char (flag.0) b'=' ≡ false
      → has (flag_action options current following) flag ≡ (flag_name current == flag.0)
  unfolding flag_action
  flag_action-has (name, set) h = elim (Bool-cases (current == name)) [
    | inl e ↦ simp (e, sym (names current name h))
    | inr e ↦ elim (Bool-cases (has_prefix current (append name "="))) [
      | inl g ↦ simp (e, g, sym (names current name h))
      | inr g ↦ simp (e, g, sym (names current name h))
    ]
  ]

  abbrev plain : List Flag → Bool
  plain = all (λ flag. not (has_char (flag.0) b'='))

  flag_action-count :
      (flags : List Flag)
      → plain flags ≡ true
      → count_if (has (flag_action options current following)) flags
        ≡ count_if (λ x. flag_name current == x) (map (λ flag. flag.0) flags)
  flag_action-count [] h = refl
  flag_action-count (flag ∷ flags) h =
      let tail = flag_action-count flags (ground arith) in
      let e = flag_action-has flag (ground arith) in ground (arith, e, tail)

  few_flags : count_if (has (flag_action options current following)) value_flags ≤ 1
  unfolding is_distinct has_char
  few_flags =
      let e = flag_action-count value_flags refl in
      let few = count-distinct (flag_name current) (map (λ flag. flag.0) value_flags) refl in
      subst (λ n. n ≤ 1) (sym e) few

module _ (R : Ranging) (options : ScanOptions) (current : String) (following : Option String) where
  -- The flag that an argument matches is the same in every order of the map.
  first_action-range :
      first_action options current following (R.range value_flags)
      ≡ first_action options current following value_flags
  unfolding first_action
  first_action-range = sym (
      first_some-perm (flag_action options current following) OptionAction-set
        (Perm.symm (R.range_perm value_flags)) (few_flags options current following))

module _ (R T : Ranging) where
  step-range :
      (options : ScanOptions) (current : String) (following : Option String)
      → step R options current following ≡ step T options current following
  unfolding step
  step-range options current following =
      rw
        (
          first_action-range R options current following,
          first_action-range T options current following,
        )
        refl

  read_args-range :
      (options : ScanOptions) (args : List String)
      → read_args R options args ≡ read_args T options args
  unfolding read_args
  read_args-range options [] = refl
  read_args-range options (current ∷ []) = rw (step-range options current none, read_args) refl
  read_args-range options (current ∷ following ∷ args) =
      rw
        (
          step-range options current (some following),
          fun_ext (λ o. read_args-range o (following ∷ args)),
          fun_ext (λ o. read_args-range o args),
          read_args,
        )
        refl

  -- The options of a scan are the same in whichever two orders the map of its flags is visited.
  pub parse_scan_options-range :
      (args : List String) → parse_scan_options R args ≡ parse_scan_options T args
  unfolding parse_scan_options
  parse_scan_options-range args = rw (read_args-range initial_options args) refl
