-- ===== src/Text/Empty.antt =====
-- When a text is empty.
use Prim.Native.Char.{Char}
use Prim.Native.String.append
use Prim.Native.String.{◌∷◌ as cons, [] as empty, ◌++◌ as append}
use text.Mathlib.TextLemmas.{cons≢nil}
use clusterproof.Prelude.{String, ◌≡◌, false, ◌&&◌, ◌==◌, arith, eq_iff, Bool-cases, inl, inr}

pub cons_not_empty : (c : Char) (s : String) → (cons c s == "") ≡ false
cons_not_empty c s = elim (Bool-cases (cons c s == "")) [
  | inl e ↦ absurd (cons≢nil ((eq_iff (cons c s) "").0 e))
  | inr e ↦ e
]

pub append-eq_empty : (s t : String) → (append s t == "") ≡ (s == "" && t == "")
append-eq_empty empty t = ground (arith, append.nil t)
append-eq_empty (cons c s) t =
    ground (arith, append.cons c s t, cons_not_empty c s, cons_not_empty c (append s t))
