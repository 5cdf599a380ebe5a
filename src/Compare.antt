-- ===== src/Compare.antt =====
-- internal/compare/compare.go: the difference of two reports. (`Files` and `loadReport` read and
-- decode the two reports; they are not modelled.)
pub mod Sets
pub mod Classes
pub mod Deterministic
pub mod Duplicates
use Prim.Native.String.{◌++◌ as append}
use clusterproof.Prelude.{
  ℕ, suc, ◌+◌, String, Bool, true, false, not, Option, none, some, List, [], ◌∷◌, ◌++◌, ◌==◌,
  if◌then◌else◌, Result, ok, err, ◌>>=◌, ◌>>◌, refuse,
}
use clusterproof.Text.Keys.{nul_join}
use clusterproof.Maps.{Map, get, put, Ranging}
use clusterproof.Sorting.Orders.{by_text}
use clusterproof.Sorting.Interface.{Sorter}
use clusterproof.Model.{Finding, Report, Severity}

pub record SeverityChange : Type 0 where
  pub finding : Finding
  pub before : Severity
  pub after : Severity

pub record Comparison : Type 0 where
  pub schema_version : String
  pub before_sha256 : String
  pub after_sha256 : String
  pub rules : String
  pub new : List Finding
  pub resolved : List Finding
  pub severity_changed : List SeverityChange
  pub unchanged : ℕ

pub data CompareError : Type 0 where
  schema_versions_differ ruleset_versions_differ : String → String → CompareError

unfoldable pub ruleset_identity : Report → String
ruleset_identity report = elim report.rules [
  | none ↦ "unversioned"
  | some r ↦ append r.id (append "@" r.version)
]

abbrev pub finding_key : Finding → String
finding_key f = nul_join f.id (nul_join f.source (nul_join f.target f.location.container))

-- The loop of `findingSet`: the first finding of a key stays.
finding_set_from : Map Finding → List Finding → Map Finding
finding_set_from set [] = set
finding_set_from set (f ∷ fs) =
    finding_set_from
      (elim (get (finding_key f) set) [ none ↦ put (finding_key f) f set | some _ ↦ set ]) fs

pub finding_set : List Finding → Map Finding
unfolding finding_set_from
finding_set findings = finding_set_from [] findings

-- What the loops append to.
pub record Found : Type 0 where
  pub new : List Finding
  pub changed : List SeverityChange
  pub unchanged : ℕ

-- The `switch` of the loop over `afterSet`.
classify : Map Finding → Found → String × Finding → Found
classify before found (key, finding) = elim (get key before) [
  | none ↦ record found { new = found.new ++ finding ∷ [] }
  | some previous ↦
      if not (previous.severity == finding.severity)
      then record found {
        changed =
            found.changed
            ++ record { finding = finding; before = previous.severity; after = finding.severity }
              ∷ [];
      }
      else record found { unchanged = found.unchanged + 1 }
]

pub classify_all : Map Finding → Found → Map Finding → Found
unfolding classify
classify_all before found [] = found
classify_all before found (entry ∷ entries) =
    classify_all before (classify before found entry) entries

-- The loop over `beforeSet`.
pub resolve_all : Map Finding → List Finding → Map Finding → List Finding
resolve_all after resolved [] = resolved
resolve_all after resolved ((key, finding) ∷ entries) =
    resolve_all after (elim (get key after) [ none ↦ resolved ++ finding ∷ [] | some _ ↦ resolved ])
      entries

abbrev pub finding_order : Finding → Finding → Bool
finding_order = by_text finding_key

abbrev pub change_order : SeverityChange → SeverityChange → Bool
change_order = by_text (λ c. finding_key c.finding)

module _ (R : Ranging) (S : Sorter) where
  -- The classes of two sets of findings.
  pub compare_sets : Map Finding → Map Finding → String → String → String → Comparison
  unfolding classify_all resolve_all
  compare_sets before after before_hash after_hash rules =
      let found =
        classify_all before (record { new = []; changed = []; unchanged = 0 }) (R.range after) in
      record {
        schema_version = "1";
        before_sha256 = before_hash;
        after_sha256 = after_hash;
        rules = rules;
        new = S.sort finding_order found.new;
        resolved = S.sort finding_order (resolve_all after [] (R.range before));
        severity_changed = S.sort change_order found.changed;
        unchanged = found.unchanged;
      }

  unfoldable pub reports : Report → Report → String → String → Result CompareError Comparison
  unfolding compare_sets finding_set ruleset_identity
  reports before after before_hash after_hash = do
    refuse (not (before.schema_version == after.schema_version))
        (schema_versions_differ before.schema_version after.schema_version)
    let before_rules = ruleset_identity before
    let after_rules = ruleset_identity after
    refuse (not (before_rules == after_rules)) (ruleset_versions_differ before_rules after_rules)
    ok (
        compare_sets (finding_set before.findings) (finding_set after.findings) before_hash
          after_hash after_rules)
