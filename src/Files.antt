-- ===== src/Files.antt =====
-- What the program sees of a file: `os.Lstat`, `os.Open` and a bounded `io.ReadAll`. A file is what
-- the operating system answers; `none` stands for an error.
use clusterproof.Prelude.{
  ℕ, zero, suc, ◌≡◌, refl, ap, Bool, not, ◌||◌, Option, none, some, List, [], ◌∷◌, length, ltb,
  arith, ◌≤◌, Result, ok, err, ◌>>◌, refuse, if◌then◌else◌,
}

pub record Stat : Type 0 where
  pub symlink : Bool
  pub regular : Bool
  pub directory : Bool

pub record File : Type 0 where
  pub stat : Option Stat
  pub opened : Bool
  pub content : Option (List ℕ)

pub data FileError : Type 0 where
  cannot_inspect not_regular cannot_open cannot_read : FileError
  too_large : ℕ → FileError

abbrev pub take : {A : Type 0} → ℕ → List A → List A
take zero xs = []
take (suc n) [] = []
take (suc n) (x ∷ xs) = x ∷ take n xs

-- io.ReadAll(io.LimitReader(f, max + 1)) and the length check behind it.
unfoldable pub read_bounded : Option (List ℕ) → ℕ → Result FileError (List ℕ)
read_bounded none max = err cannot_read
read_bounded (some bytes) max =
    let read = take (suc max) bytes in
    if ltb max (length read) then err (too_large max) else ok read

-- The checks that a regular file passes before it is read.
unfoldable pub read_regular : File → ℕ → Result FileError (List ℕ)
unfolding read_bounded
read_regular file max = elim file.stat [
  | none ↦ err cannot_inspect
  | some s ↦ do
    refuse (s.symlink || not s.regular) not_regular
    refuse (not file.opened) cannot_open
    read_bounded file.content max
]

take_all : {A : Type 0} (n : ℕ) (xs : List A) → length (take (suc n) xs) ≤ n → take (suc n) xs ≡ xs
take_all n [] h = refl
take_all zero (x ∷ xs) h = absurd (omega arith)
take_all (suc n) (x ∷ xs) h = ap (λ rest. x ∷ rest) (take_all n xs (omega arith))

-- What a bounded read returns is the whole content, within the bound.
pub read_bounded-ok :
    (content : Option (List ℕ)) (max : ℕ) {bytes : List ℕ}
    → read_bounded content max ≡ ok bytes
    → (content ≡ some bytes) × (length bytes ≤ max)
unfolding read_bounded
read_bounded-ok none max h = absurd (ground arith)
read_bounded-ok (some all) max h = ground (arith, take_all max all)

take_short : {A : Type 0} (n : ℕ) (xs : List A) → length xs ≤ n → take n xs ≡ xs
take_short zero [] h = refl
take_short zero (x ∷ xs) h = absurd (omega arith)
take_short (suc n) [] h = refl
take_short (suc n) (x ∷ xs) h = ap (λ rest. x ∷ rest) (take_short n xs (omega arith))

-- A content within the bound is read.
pub read_bounded_all :
    (bytes : List ℕ) (max : ℕ) → length bytes ≤ max → read_bounded (some bytes) max ≡ ok bytes
unfolding read_bounded
read_bounded_all bytes max h = ground (arith, take_short (suc max) bytes (omega arith))
