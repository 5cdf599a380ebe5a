-- ===== src/Vex/Suppression.antt =====
-- When a VEX document clears a vulnerability of a product.
use clusterproof.Prelude.{
  ℕ, ◌+◌, ◌-◌, ◌^◌, ◌<◌, String, ◌≡◌, refl, Bool, ◌&&◌, ◌||◌, List, [], ◌∷◌, ◌==◌, leb, find_first,
  arith,
}
use clusterproof.Time.{sub}
use clusterproof.Vex.{
  Statement, Document, status_not_affected, status_fixed, clears, suppression_in, suppression_for,
}

-- A statement for exactly this vulnerability and product that says not affected or fixed, at most
-- `max_age` old.
abbrev pub speaks_for : String → String → ℕ → ℕ → Statement → Bool
speaks_for vulnerability purl now max_age s =
    s.vulnerability == vulnerability
    && s.product_purl == purl
    && (s.status == status_not_affected || s.status == status_fixed)
    && leb now (s.timestamp + max_age)

clears-speaks_for :
    (vulnerability purl : String) (now max_age : ℕ) (s : Statement)
    → 0 < max_age
    → max_age < 2 ^ 63 - 1
    → clears vulnerability purl now max_age s ≡ speaks_for vulnerability purl now max_age s
unfolding clears sub
clears-speaks_for vulnerability purl now max_age s h k = ground arith

-- With a maximal age, `suppression_for` returns the first statement of the document for exactly the
-- vulnerability and the product that says not affected or fixed and is not older than that age,
-- and nothing where there is none.
pub suppression_for_first :
    (d : Document) (vulnerability purl : String) (now max_age : ℕ)
    → 0 < max_age
    → max_age < 2 ^ 63 - 1
    → suppression_for d vulnerability purl now max_age
      ≡ find_first (speaks_for vulnerability purl now max_age) d.statements
unfolding suppression_for
suppression_for_first d vulnerability purl now max_age h k = first d.statements
  where
    first :
        (ss : List Statement)
        → suppression_in vulnerability purl now max_age ss
          ≡ find_first (speaks_for vulnerability purl now max_age) ss
    first [] = refl
    first (s ∷ ss) = ground (arith, first ss, clears-speaks_for vulnerability purl now max_age s)
