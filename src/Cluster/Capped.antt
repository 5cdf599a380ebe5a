-- ===== src/Cluster/Capped.antt =====
-- internal/cluster/collector.go: what a capped buffer keeps of what is written to it.
use mathlib.Core.List.{append_assoc}
use clusterproof.Prelude.{
  ℕ, zero, suc, ◌-◌, ◌≡◌, refl, ap, ◌∙◌, Bool, false, List, [], ◌∷◌, ◌++◌, arith, length,
  length-append, ltb, concat_map,
}
use clusterproof.Files.{take}
use clusterproof.Cluster.{CappedBuffer, new_capped_buffer, write}

-- A sequence of writes.
pub write_all : ℕ → CappedBuffer → List (List ℕ) → CappedBuffer
write_all limit b [] = b
write_all limit b (bytes ∷ rest) = write_all limit (write limit b bytes) rest

abbrev joined : List (List ℕ) → List ℕ
joined = concat_map (λ bytes. bytes)

-- The buffer that holds the beginning of a text.
abbrev capped : ℕ → List ℕ → CappedBuffer
capped limit text = record { buffer = take limit text; exceeded = ltb limit (length text) }

zero_minus : (n : ℕ) → 0 ≡ 0 - n
zero_minus n = omega arith

minus_zero : (n : ℕ) → n ≡ n - 0
minus_zero n = omega arith

minus_both : (n k : ℕ) → n - k ≡ suc n - suc k
minus_both n k = omega arith

none_exceeds : (n : ℕ) → false ≡ ltb n 0
none_exceeds n = ground arith

take-append : (n : ℕ) (xs ys : List ℕ) → take n (xs ++ ys) ≡ take n xs ++ take (n - length xs) ys
take-append zero xs ys = ap (λ n. take n ys) (zero_minus (length xs))
take-append (suc n) [] ys = ap (λ m. take m ys) (minus_zero (suc n))
take-append (suc n) (x ∷ xs) ys =
    ap (λ r. x ∷ r)
      (take-append n xs ys ∙ ap (λ m. take n xs ++ take m ys) (minus_both n (length xs)))

length-take : (n : ℕ) (xs : List ℕ) → n - length (take n xs) ≡ n - length xs
length-take zero xs = omega arith
length-take (suc n) [] = refl
length-take (suc n) (x ∷ xs) = omega (arith, length-take n xs)

take_none : (n : ℕ) (xs : List ℕ) → ltb 0 n ≡ false → take n xs ≡ []
take_none zero xs h = refl
take_none (suc n) xs h = absurd (ground (arith, h))

write-capped :
    (limit : ℕ) (text bytes : List ℕ)
    → write limit (capped limit text) bytes ≡ capped limit (text ++ bytes)
unfolding write
write-capped limit text bytes = ground (
  arith,
  length-take limit text,
  take-append limit text bytes,
  length-append text bytes,
  take_none (limit - length text) bytes,
  append_empty (take limit text),
)
  where
    append_empty : (xs : List ℕ) → xs ++ [] ≡ xs
    append_empty [] = refl
    append_empty (x ∷ xs) = ap (λ r. x ∷ r) (append_empty xs)

write_all-capped :
    (limit : ℕ) (text : List ℕ) (writes : List (List ℕ))
    → write_all limit (capped limit text) writes ≡ capped limit (text ++ joined writes)
unfolding write_all
write_all-capped limit text [] = ap (capped limit) (append_nil text)
  where
    append_nil : (xs : List ℕ) → xs ≡ xs ++ []
    append_nil [] = refl
    append_nil (x ∷ xs) = ap (λ r. x ∷ r) (append_nil xs)
write_all-capped limit text (bytes ∷ writes) =
    ap (λ b. write_all limit b writes) (write-capped limit text bytes)
    ∙ write_all-capped limit (text ++ bytes) writes
    ∙ ap (capped limit) (append_assoc text bytes (joined writes))

-- However its input is cut into writes, a capped buffer holds the beginning of the input up to the
-- limit, and tells that it was exceeded exactly if the input is longer.
pub write_all-joined :
    (limit : ℕ) (writes : List (List ℕ))
    → write_all limit new_capped_buffer writes ≡ record {
      buffer = take limit (joined writes);
      exceeded = ltb limit (length (joined writes));
    }
write_all-joined limit writes =
    ap (λ b. write_all limit b writes) (start limit) ∙ write_all-capped limit [] writes
  where
    start : (limit : ℕ) → new_capped_buffer ≡ capped limit []
    start zero = refl
    start (suc n) = ap (λ (e : Bool). record { buffer = []; exceeded = e }) (none_exceeds (suc n))
