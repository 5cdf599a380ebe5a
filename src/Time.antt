-- ===== src/Time.antt =====
-- Go's package `time`, as the source uses it. An instant is the number of nanoseconds since the
-- beginning of the year 0 (UTC); a date is its first instant.
use Prim.Native.Char.{code}
use Prim.Native.String.{◌∷◌ as cons, [] as empty, ◌++◌ as append}
use clusterproof.Prelude.{
  ℕ, zero, suc, ◌+◌, ◌-◌, ◌*◌, ◌/◌, ◌%◌, ◌^◌, String, ◌≡◌, refl, Bool, not, ◌&&◌, ◌||◌, Option,
  none, some, ltb, leb, nat_eq, if◌then◌else◌, padded, ◌==◌,
}

abbrev pub day_length : ℕ
day_length = 86400 * 10 ^ 9

is_leap : ℕ → Bool
is_leap y = nat_eq (y % 4) 0 && (not (nat_eq (y % 100) 0) || nat_eq (y % 400) 0)

-- The number of days from the beginning of the year 0 to that of the year `y`.
days_before_year : ℕ → ℕ
days_before_year y = y * 365 + (y + 3) / 4 - (y + 99) / 100 + (y + 399) / 400

days_in_month : ℕ → ℕ → ℕ
unfolding is_leap
days_in_month y m =
    if nat_eq m 2
    then (if is_leap y then 29 else 28)
    else if nat_eq m 4 || nat_eq m 6 || nat_eq m 9 || nat_eq m 11
    then 30
    else 31

days_before_month : ℕ → ℕ → ℕ
unfolding days_in_month
days_before_month y zero = 0
days_before_month y (suc zero) = 0
days_before_month y (suc (suc m)) = days_before_month y (suc m) + days_in_month y (suc m)

infixl 5 ◌>>=◌
abbrev ◌>>=◌ : {A B : Type 0} → Option A → (A → Option B) → Option B
none >>= f = none
some a >>= f = f a

-- Exactly `n` decimal digits, and what follows them.
read_digits : ℕ → ℕ → String → Option (ℕ × String)
read_digits zero acc s = some (acc, s)
read_digits (suc n) acc empty = none
read_digits (suc n) acc (cons c s) =
    let rest = read_digits n (acc * 10 + (code c - 48)) s in
    if leb 48 (code c) && leb (code c) 57 then rest else none

read_dash : String → Option String
read_dash empty = none
read_dash (cons c s) = if nat_eq (code c) 45 then some s else none

-- time.Parse("2006-01-02", s), which refuses a month or a day that the calendar does not have.
unfoldable pub parse_date : String → Option ℕ
unfolding read_digits read_dash days_before_year days_before_month days_in_month
parse_date s = do
  (y, s₁) ← read_digits 4 0 s
  s₂ ← read_dash s₁
  (m, s₃) ← read_digits 2 0 s₂
  s₄ ← read_dash s₃
  (d, s₅) ← read_digits 2 0 s₄
  if s₅ == "" && leb 1 m && leb m 12 && leb 1 d && leb d (days_in_month y m)
      then some ((days_before_year y + days_before_month y m + (d - 1)) * day_length)
      else none

-- The Gregorian date of a day, by the 400-year cycle that begins on the first of March.
date_text : ℕ → String
date_text day =
    let z = day + 146097 - 60 in
    let doe = z % 146097 in
    let yoe = (doe - doe / 1460 + doe / 36524 - doe / 146096) / 365 in
    let doy = doe - (365 * yoe + yoe / 4 - yoe / 100) in
    let mp = (5 * doy + 2) / 153 in
    let d = doy - (153 * mp + 2) / 5 + 1 in
    let m = if ltb mp 10 then mp + 3 else mp - 9 in
    let y = yoe + z / 146097 * 400 - 400 + (if leb m 2 then 1 else 0) in
    append (padded 4 y) (append "-" (append (padded 2 m) (append "-" (padded 2 d))))

-- t.Format("2006-01-02")
pub format_date : ℕ → String
unfolding date_text padded
format_date t = date_text (t / day_length)

-- The zero time, January 1 of the year 1.
abbrev pub zero_time : ℕ
zero_time = 366 * day_length

-- t.Sub(u) for u not after t, saturated at the greatest duration. (For u after t it is negative.)
unfoldable pub sub : ℕ → ℕ → ℕ
sub t u = let d = t - u in if ltb (2 ^ 63 - 1) d then 2 ^ 63 - 1 else d

millennium : parse_date "2000-03-01" ≡ some (730545 * day_length)
unfolding parse_date
millennium = refl

there_and_back : format_date (730545 * day_length) ≡ "2000-03-01"
unfolding format_date
there_and_back = refl

leap_day : parse_date "2023-02-29" ≡ none
unfolding parse_date
leap_day = refl

-- t.Format("2006-01-02T15:04:05Z")
pub format_instant : ℕ → String
unfolding format_date
format_instant t =
    let seconds = t / 10 ^ 9 % 86400 in
    append (format_date t) (
      append "T" (
        append (padded 2 (seconds / 3600)) (
          append ":" (
            append (padded 2 (seconds / 60 % 60))
              (append ":" (append (padded 2 (seconds % 60)) "Z"))))))
