-- ===== src/Prelude/Numbers.antt =====
-- Go's signed integers, and `%d`.
use Prim.Native.Nat.{ℕ, zero, suc, ◌/◌, ◌%◌}
use Prim.Native.String.{String, [] as empty, ◌++◌ as append}
use mathlib.Core.Path.{◌≡◌, refl}
use mathlib.Core.Bool.{Bool, false}
use clusterproof.Prelude.Tests.{ltb, nat_eq, if◌then◌else◌}

-- `negsuc n` is -(n + 1).
pub data ℤ : Type 0 where
  pos : ℕ → ℤ
  negsuc : ℕ → ℤ

unfoldable pub is_zero : ℤ → Bool
is_zero (pos n) = nat_eq n 0
is_zero (negsuc n) = false

digit_text : ℕ → String
digit_text n =
    if nat_eq n 0
    then "0"
    else if nat_eq n 1
    then "1"
    else if nat_eq n 2
    then "2"
    else if nat_eq n 3
    then "3"
    else if nat_eq n 4
    then "4"
    else if nat_eq n 5
    then "5"
    else if nat_eq n 6
    then "6"
    else if nat_eq n 7
    then "7"
    else if nat_eq n 8
    then "8"
    else "9"

-- The last `f` decimal digits of a number, without leading zeros.
decimal_from : ℕ → ℕ → String
unfolding digit_text
decimal_from zero n = empty
decimal_from (suc f) n =
    let more = append (decimal_from f (n / 10)) (digit_text (n % 10)) in
    if ltb n 10 then digit_text n else more

-- A number below 10 ^ (n + 1) has at most n + 1 digits.
decimal : ℕ → String
unfolding decimal_from
decimal n = decimal_from (suc n) n

unfoldable pub int_text : ℤ → String
unfolding decimal
int_text (pos n) = decimal n
int_text (negsuc n) = append "-" (decimal (suc n))

-- A number in at least `w` digits, with leading zeros.
unfoldable pub padded : ℕ → ℕ → String
unfolding digit_text decimal
padded zero n = ""
padded (suc zero) n = decimal n
padded (suc (suc w)) n = append (padded (suc w) (n / 10)) (digit_text (n % 10))

port : decimal 8080 ≡ "8080"
unfolding decimal
port = refl

day : padded 2 7 ≡ "07"
unfolding padded
day = refl
