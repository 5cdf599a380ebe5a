-- ===== src/Evidence/Controls.antt =====
-- internal/evidence/evidence.go: the control assessments of a bundle, `buildControls`. A set of names is a
-- list without repetition.
pub mod Counts
use clusterproof.Prelude.{
  ℕ, suc, ◌+◌, String, Bool, Option, none, some, List, [], ◌∷◌, ◌==◌, if◌then◌else◌, any, map, ltb,
}
use clusterproof.Maps.{Map, Ranging, get, put}
use clusterproof.Text.Order.{str_lt}
use clusterproof.Sorting.Interface.{Sorter}
use clusterproof.Model.{Severity, Finding, RulesetReference}
use clusterproof.Rules.Catalog.{Catalog, RuleDefinition, reference}

pub record ControlAssessment : Type 0 where
  pub reference : String
  pub status : String
  pub assessed_rules : List String
  pub finding_rules : List String
  pub findings : ℕ
  pub highest_severity : Severity

pub record ControlCoverage : Type 0 where
  pub schema_version : String
  pub framework_notice : String
  pub rules : RulesetReference
  pub controls : List ControlAssessment

-- The local type `state`.
pub record State : Type 0 where
  pub assessed_rules : List String
  pub finding_rules : List String
  pub findings : ℕ
  pub highest : Severity

abbrev new_state : State
new_state = record { assessed_rules = []; finding_rules = []; findings = 0; highest = "" }

pub severity_rank : Severity → ℕ
severity_rank severity =
    if severity == "critical"
    then 5
    else if severity == "high"
    then 4
    else if severity == "medium"
    then 3
    else if severity == "low"
    then 2
    else if severity == "info"
    then 1
    else 0

add_name : String → List String → List String
add_name name names = if any (λ n. n == name) names then names else name ∷ names

abbrev or_new : Option State → State
or_new none = new_state
or_new (some s) = s

-- The state of a reference, which is created where it is missing.
abbrev pub state_of : Map State → String → State
state_of states ref = or_new (get ref states)

assess : String → State → State
unfolding add_name
assess rule s = record s { assessed_rules = add_name rule s.assessed_rules }

observe : Finding → State → State
unfolding add_name severity_rank
observe f s = record s {
  finding_rules = add_name f.id s.finding_rules;
  findings = suc s.findings;
  highest =
      if ltb (severity_rank s.highest) (severity_rank f.severity) then f.severity else s.highest;
}

-- A loop over references that updates the state of each.
pub update_all : (State → State) → Map State → List String → Map State
update_all f states [] = states
update_all f states (ref ∷ refs) = update_all f (put ref (f (state_of states ref)) states) refs

pub assess_rules : Map State → List RuleDefinition → Map State
unfolding update_all assess
assess_rules states [] = states
assess_rules states (rule ∷ rules) =
    assess_rules (update_all (assess rule.id) states rule.control_refs) rules

pub observe_findings : Map State → List Finding → Map State
unfolding update_all observe
observe_findings states [] = states
observe_findings states (f ∷ fs) =
    observe_findings (update_all (observe f) states f.control_refs) fs

pub control_states : List Finding → Catalog → Map State
unfolding assess_rules observe_findings
control_states findings catalog = observe_findings (assess_rules [] catalog.rules) findings

abbrev framework_notice : String
framework_notice =
    "Partial technical readiness observations only; assessed_rules lists the native catalog while finding_rules may include external observations. References do not reproduce licensed criteria or constitute an audit opinion."

module _ (S : Sorter) (R : Ranging) where
  pub assessment : Map State → String → ControlAssessment
  assessment states ref =
      let current = state_of states ref in
      record {
        reference = ref;
        status = if ltb 0 current.findings then "attention_required" else "no_findings_observed";
        assessed_rules = S.sort str_lt (R.range current.assessed_rules);
        finding_rules = S.sort str_lt (R.range current.finding_rules);
        findings = current.findings;
        highest_severity = current.highest;
      }

  pub build_controls : List Finding → Catalog → ControlCoverage
  unfolding control_states assessment
  build_controls findings catalog =
      let states = control_states findings catalog in
      record {
        schema_version = "2";
        framework_notice = framework_notice;
        rules = reference catalog;
        controls = map (assessment states) (S.sort str_lt (map (λ (ref, s). ref) (R.range states)));
      }
