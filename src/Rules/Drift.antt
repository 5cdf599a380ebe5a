-- ===== src/Rules/Drift.antt =====
-- internal/rules: what the rules emit, beside what the catalog says of them.
pub mod Emitted
pub mod Workloads
pub mod Graphs
use clusterproof.Prelude.{
  String, ◌≡◌, Bool, true, false, not, ◌&&◌, ◌||◌, Option, none, some, List, [], ◌∷◌, ◌==◌, any,
}
use clusterproof.Model.{Finding}
use clusterproof.Rules.Catalog.{RuleDefinition, find_rule, os_windows}
use clusterproof.Rules.Catalog.Default.{default_catalog}

abbrev same_texts : List String → List String → Bool
same_texts [] [] = true
same_texts [] (y ∷ ys) = false
same_texts (x ∷ xs) [] = false
same_texts (x ∷ xs) (y ∷ ys) = x == y && same_texts xs ys

abbrev describes : Option RuleDefinition → Finding → Bool
describes none f = false
describes (some rule) f =
    f.title == rule.title
    && (f.description == rule.description
        && (f.remediation == rule.remediation && same_texts f.control_refs rule.control_refs))

-- The catalog has a rule of the finding's id, with the texts and controls of the finding.
pub is_listed : Finding → Bool
unfolding find_rule default_catalog
is_listed f = describes (find_rule default_catalog f.id) f

abbrev is_for : String → Option RuleDefinition → Bool
is_for os none = false
is_for os (some rule) = any (λ o. o == os) rule.os

-- The rule of the finding is declared for Windows, too.
pub is_for_windows : Finding → Bool
unfolding find_rule default_catalog
is_for_windows f = is_for os_windows (find_rule default_catalog f.id)
