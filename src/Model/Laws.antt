-- ===== src/Model/Laws.antt =====
-- Severities are ordered by `meets`, and a summary counts each finding of a known severity once.
use native.Mathlib.Decide.{dec_lt}
use clusterproof.Text.Chars.{to_lower}
use clusterproof.Text.Space.{trim_space}
use clusterproof.Prelude.{
  ℕ, ◌+◌, ◌≡◌, String, Bool, true, false, ◌||◌, List, [], ◌∷◌, arith, ok, count_if, ◌==◌, eq_iff,
  zero, suc, sym, ap, ◌∙◌, Bool-cases, Option-cases, leb→le, some, inl, inr, if◌then◌else◌,
}
use clusterproof.Model.{
  Severity, Finding, Summary, severity_info, severity_low, severity_medium, severity_high,
  severity_critical, severity_ranks, severity_rank, parse_severity, meets, count_severity,
  summarize_from, summarize,
}

abbrev pub has_severity : Severity → Finding → Bool
has_severity s f = f.severity == s

-- A severity is one of the five names, or none of the tests accepts it.
data View (s : Severity) : Type 0 where
  critical : s ≡ severity_critical → View s
  high : s ≡ severity_high → View s
  medium : s ≡ severity_medium → View s
  low : s ≡ severity_low → View s
  info : s ≡ severity_info → View s
  unknown :
      (s == severity_critical) ≡ false
      → (s == severity_high) ≡ false
      → (s == severity_medium) ≡ false
      → (s == severity_low) ≡ false
      → (s == severity_info) ≡ false
      → View s

view : (s : Severity) → View s
view s = elim (Bool-cases (s == severity_critical)) [
  | inl e ↦ critical ((eq_iff s _).0 e)
  | inr not_critical ↦ elim (Bool-cases (s == severity_high)) [
    | inl e ↦ high ((eq_iff s _).0 e)
    | inr not_high ↦ elim (Bool-cases (s == severity_medium)) [
      | inl e ↦ medium ((eq_iff s _).0 e)
      | inr not_medium ↦ elim (Bool-cases (s == severity_low)) [
        | inl e ↦ low ((eq_iff s _).0 e)
        | inr not_low ↦ elim (Bool-cases (s == severity_info)) [
          | inl e ↦ info ((eq_iff s _).0 e)
          | inr not_info ↦ unknown not_critical not_high not_medium not_low not_info
        ]
      ]
    ]
  ]
]

abbrev one_if : Bool → ℕ
one_if b = if b then 1 else 0

abbrev Counted : Summary → Severity → Type 0
Counted s severity =
    let t = count_severity s severity in
    (t.critical ≡ s.critical + one_if (severity == severity_critical))
    × (t.high ≡ s.high + one_if (severity == severity_high))
    × (t.medium ≡ s.medium + one_if (severity == severity_medium))
    × (t.low ≡ s.low + one_if (severity == severity_low))
    × (t.info ≡ s.info + one_if (severity == severity_info))

count_severity-counts : (s : Summary) (severity : Severity) → View severity → Counted s severity
unfolding count_severity
count_severity-counts s severity (critical e) = rw e (omega arith)
count_severity-counts s severity (high e) = rw e (omega arith)
count_severity-counts s severity (medium e) = rw e (omega arith)
count_severity-counts s severity (low e) = rw e (omega arith)
count_severity-counts s severity (info e) = rw e (omega arith)
count_severity-counts s severity (unknown a b c d e) = ground arith

-- The totals of a summary are those of the list, on top of the totals at the start.
summarize_from-counts :
    (s : Summary) (fs : List Finding)
    → let t = summarize_from s fs in
      (t.critical ≡ s.critical + count_if (has_severity severity_critical) fs)
      × (t.high ≡ s.high + count_if (has_severity severity_high) fs)
      × (t.medium ≡ s.medium + count_if (has_severity severity_medium) fs)
      × (t.low ≡ s.low + count_if (has_severity severity_low) fs)
      × (t.info ≡ s.info + count_if (has_severity severity_info) fs)
unfolding summarize_from
summarize_from-counts s [] = omega arith
summarize_from-counts s (f ∷ fs) = ground (
  arith,
  count_severity-counts s f.severity (view f.severity),
  summarize_from-counts (count_severity s f.severity) fs,
)

-- Each total of a summary is the number of the findings with that severity.
pub summarize-counts :
    (fs : List Finding)
    → let t = summarize fs in
      (t.critical ≡ count_if (has_severity severity_critical) fs)
      × (t.high ≡ count_if (has_severity severity_high) fs)
      × (t.medium ≡ count_if (has_severity severity_medium) fs)
      × (t.low ≡ count_if (has_severity severity_low) fs)
      × (t.info ≡ count_if (has_severity severity_info) fs)
unfolding summarize
summarize-counts fs = omega (arith, summarize_from-counts _ fs)

abbrev pub total : Summary → ℕ
total t = t.critical + t.high + t.medium + t.low + t.info

abbrev IsKnown : Severity → Type 0
IsKnown s = (n : ℕ) × (severity_ranks s ≡ some n)

abbrev pub is_known : Severity → Bool
is_known s =
    s == severity_critical
    || s == severity_high
    || s == severity_medium
    || s == severity_low
    || s == severity_info

split_one :
    (s : Severity)
    → View s
    → one_if (s == severity_critical)
        + one_if (s == severity_high)
        + one_if (s == severity_medium)
        + one_if (s == severity_low)
        + one_if (s == severity_info)
      ≡ one_if (is_known s)
split_one s (critical e) = rw e
split_one s (high e) = rw e
split_one s (medium e) = rw e
split_one s (low e) = rw e
split_one s (info e) = rw e
split_one s (unknown a b c d e) = ground arith

count_if-cons :
    (p : Finding → Bool) (f : Finding) (fs : List Finding)
    → count_if p (f ∷ fs) ≡ one_if (p f) + count_if p fs
count_if-cons p f fs = ground arith

count_if_split :
    (fs : List Finding)
    → count_if (has_severity severity_critical) fs
        + count_if (has_severity severity_high) fs
        + count_if (has_severity severity_medium) fs
        + count_if (has_severity severity_low) fs
        + count_if (has_severity severity_info) fs
      ≡ count_if (λ f. is_known f.severity) fs
count_if_split [] = omega arith
count_if_split (f ∷ fs) = omega (
  arith,
  count_if_split fs,
  split_one f.severity (view f.severity),
  count_if-cons (has_severity severity_critical) f fs,
  count_if-cons (has_severity severity_high) f fs,
  count_if-cons (has_severity severity_medium) f fs,
  count_if-cons (has_severity severity_low) f fs,
  count_if-cons (has_severity severity_info) f fs,
  count_if-cons (λ g. is_known g.severity) f fs,
)

-- The five totals of a summary add up to the number of the findings whose severity is one of the
-- five names.
summarize-total :
    (fs : List Finding) → total (summarize fs) ≡ count_if (λ f. is_known f.severity) fs
summarize-total fs = omega (arith, summarize-counts fs, count_if_split fs)

-- Only the five names have a rank.
known_of_rank : (s : Severity) → View s → {n : ℕ} → severity_ranks s ≡ some n → is_known s ≡ true
unfolding severity_ranks
known_of_rank s (critical e) h = rw e
known_of_rank s (high e) h = rw e
known_of_rank s (medium e) h = rw e
known_of_rank s (low e) h = rw e
known_of_rank s (info e) h = rw e
known_of_rank s (unknown a b c d e) h = ground arith

parse_severity-rank :
    (raw s : String) → parse_severity raw ≡ ok s → (n : ℕ) × (severity_ranks s ≡ some n)
unfolding parse_severity
parse_severity-rank raw s h = elim (Option-cases (severity_ranks (to_lower (trim_space raw)))) [
  | inl missing ↦ absurd (ground arith)
  | inr found ↦ (found.0, ground arith)
]

parse_name : (s : Severity) → View s → {n : ℕ} → severity_ranks s ≡ some n → parse_severity s ≡ ok s
unfolding parse_severity severity_ranks to_lower trim_space dec_lt
parse_name s (critical e) h = rw e
parse_name s (high e) h = rw e
parse_name s (medium e) h = rw e
parse_name s (low e) h = rw e
parse_name s (info e) h = rw e
parse_name s (unknown a b c d e) h = absurd (ground arith)

-- What `parse_severity` accepts, from any text, is one of the five names, and parsing that name
-- again gives it back.
parse_severity_again :
    (raw s : String) → parse_severity raw ≡ ok s → (is_known s ≡ true) × (parse_severity s ≡ ok s)
parse_severity_again raw s h =
    let (n, ranked) = parse_severity-rank raw s h in
    (known_of_rank s (view s) ranked, parse_name s (view s) ranked)

abbrev name_of_rank : ℕ → Severity
name_of_rank zero = severity_info
name_of_rank (suc zero) = severity_low
name_of_rank (suc (suc zero)) = severity_medium
name_of_rank (suc (suc (suc zero))) = severity_high
name_of_rank (suc (suc (suc (suc n)))) = severity_critical

name_of_rank-severity_rank :
    (s : Severity) → View s → is_known s ≡ true → name_of_rank (severity_rank s) ≡ s
unfolding severity_rank
name_of_rank-severity_rank s (critical e) k = rw e
name_of_rank-severity_rank s (high e) k = rw e
name_of_rank-severity_rank s (medium e) k = rw e
name_of_rank-severity_rank s (low e) k = rw e
name_of_rank-severity_rank s (info e) k = rw e
name_of_rank-severity_rank s (unknown a b c d e) k = absurd (ground arith)

rank_injective :
    (a b : Severity)
    → is_known a ≡ true
    → is_known b ≡ true
    → severity_rank a ≡ severity_rank b
    → a ≡ b
rank_injective a b ka kb h =
    sym (name_of_rank-severity_rank a (view a) ka)
    ∙ ap name_of_rank h
    ∙ name_of_rank-severity_rank b (view b) kb

-- Two parsed severities that meet each other are the same severity: `meets` ranks the five names
-- without ties.
meets_antisym :
    (x y a b : String)
    → parse_severity x ≡ ok a
    → parse_severity y ≡ ok b
    → meets a b ≡ true
    → meets b a ≡ true
    → a ≡ b
unfolding meets
meets_antisym x y a b ha hb p q =
    rank_injective a b (parse_severity_again x a ha).0 (parse_severity_again y b hb).0
      (omega (arith, leb→le _ _ p, leb→le _ _ q))
