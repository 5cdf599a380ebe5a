-- ===== src/Rules/Catalog.antt =====
-- internal/rules/catalog.go: the types of the rule catalog and its look-ups. `Relationship`,
-- `WorkloadOS` and `CoverageStatus` are Go's string types. Copying a catalog leaves its value as it
-- is, so `DefaultCatalog` is the catalog itself.
pub mod Sources
pub mod Pods
pub mod Others
pub mod Default
use clusterproof.Prelude.{
  ℕ, String, Bool, true, false, Option, none, some, List, [], ◌∷◌, ◌==◌, ◌||◌, length, any,
  if◌then◌else◌, Result, ok, err, ◌>>=◌, ◌>>◌, refuse, not,
}
use clusterproof.Text.Chars.{equal_fold}
use clusterproof.Text.Space.{trim_space}
use clusterproof.Text.Search.{trim_prefix}
use clusterproof.Model.{RulesetReference}

abbrev pub aligned : String
aligned = "aligned"

abbrev pub supplemental : String
supplemental = "supplemental"

pub record SourceReference : Type 0 where
  pub name : String
  pub version : String
  pub url : String
  pub relationship : String

abbrev pub os_linux : String
os_linux = "linux"

abbrev pub os_windows : String
os_windows = "windows"

pub record VersionContract : Type 0 where
  pub kubernetes_minor : String
  pub supported_minors : List String

pub record RuleDefinition : Type 0 where
  pub id : String
  pub title : String
  pub category : String
  pub description : String
  pub remediation : String
  pub os : List String
  pub control_refs : List String
  pub sources : List SourceReference

pub record ControlCoverage : Type 0 where
  pub profile : String
  pub control : String
  pub status : String
  pub rule_ids : List String
  pub note : String

pub record Catalog : Type 0 where
  pub schema_version : String
  pub id : String
  pub version : String
  pub kubernetes : VersionContract
  pub coverage : List ControlCoverage
  pub rules : List RuleDefinition

find_rule_in : String → List RuleDefinition → Option RuleDefinition
find_rule_in id [] = none
find_rule_in id (rule ∷ rules) =
    let rest = find_rule_in id rules in if rule.id == id then some rule else rest

unfoldable pub find_rule : Catalog → String → Option RuleDefinition
unfolding find_rule_in
find_rule c id = find_rule_in id c.rules

supports : VersionContract → String → Bool
supports v minor = any (λ supported. supported == minor) v.supported_minors

pub data VersionError : Type 0 where
  version_required : VersionError
  version_ambiguous version_not_supported : String → VersionError

validate_version : VersionContract → String → Result VersionError String
unfolding supports
validate_version v raw = do
  let minor = trim_space (trim_prefix (trim_space raw) "v")
  refuse (minor == "") version_required
  refuse (equal_fold minor "latest") (version_ambiguous raw)
  refuse (not (supports v minor)) (version_not_supported raw)
  ok minor

pub reference : Catalog → RulesetReference
reference c = record { id = c.id; version = c.version; rules_evaluated = length c.rules }
