-- ===== src/Evidence/Controls/Counts.antt =====
-- What `buildControls` counts.
use clusterproof.Prelude.{
  ℕ, ◌+◌, String, ◌≡◌, refl, ap, ◌∙◌, Bool, true, false, not, ◌&&◌, ◌||◌, List, [], ◌∷◌, ◌==◌,
  eq_iff, if◌then◌else◌, any, count_if, map, ltb, arith, is_none, any-map, All,
}
use clusterproof.Maps.{Map, Ranging, get, put, get-put}
use clusterproof.Text.Order.{str_lt}
use clusterproof.Sorting.Interface.{Sorter}
use clusterproof.Sorting.Counts.{any-perm}
use clusterproof.Model.{Finding}
use clusterproof.Rules.Catalog.{Catalog, RuleDefinition}
use clusterproof.Evidence.Controls.{
  ControlAssessment, State, state_of, update_all, assess, observe, assess_rules, observe_findings,
  assessment, control_states, build_controls,
}

-- How often findings refer to a control.
abbrev occurrences : String → List Finding → ℕ
occurrences ref [] = 0
occurrences ref (f ∷ fs) = count_if (λ r. r == ref) f.control_refs + occurrences ref fs

abbrev refers : String → List String → Bool
refers ref refs = any (λ r. r == ref) refs

known-update_all :
    (f : State → State) (ref : String) (states : Map State) (refs : List String)
    → is_none (get ref (update_all f states refs))
      ≡ (is_none (get ref states) && not (refers ref refs))
unfolding update_all
known-update_all f ref states [] = ground arith
known-update_all f ref states (r ∷ refs) = ground (
  arith,
  known-update_all f ref (put r (f (state_of states r)) states) refs,
  get-put r ref (f (state_of states r)) states,
)

known-assess_rules :
    (ref : String) (states : Map State) (rules : List RuleDefinition)
    → is_none (get ref (assess_rules states rules))
      ≡ (is_none (get ref states) && not (any (λ rule. refers ref rule.control_refs) rules))
unfolding assess_rules
known-assess_rules ref states [] = ground arith
known-assess_rules ref states (rule ∷ rules) = ground (
  arith,
  known-assess_rules ref (update_all (assess rule.id) states rule.control_refs) rules,
  known-update_all (assess rule.id) ref states rule.control_refs,
)

known-observe_findings :
    (ref : String) (states : Map State) (fs : List Finding)
    → is_none (get ref (observe_findings states fs))
      ≡ (is_none (get ref states) && not (any (λ f. refers ref f.control_refs) fs))
unfolding observe_findings
known-observe_findings ref states [] = ground arith
known-observe_findings ref states (f ∷ fs) = ground (
  arith,
  known-observe_findings ref (update_all (observe f) states f.control_refs) fs,
  known-update_all (observe f) ref states f.control_refs,
)

findings-assess :
    (rule ref : String) (states : Map State) (refs : List String)
    → (state_of (update_all (assess rule) states refs) ref).findings
      ≡ (state_of states ref).findings
unfolding update_all assess
findings-assess rule ref states [] = refl
findings-assess rule ref states (r ∷ refs) = ground (
  arith,
  findings-assess rule ref (put r (assess rule (state_of states r)) states) refs,
  get-put r ref (assess rule (state_of states r)) states,
  eq_iff r ref,
)

findings-observe :
    (f : Finding) (ref : String) (states : Map State) (refs : List String)
    → (state_of (update_all (observe f) states refs) ref).findings
      ≡ (state_of states ref).findings + count_if (λ r. r == ref) refs
unfolding update_all observe
findings-observe f ref states [] = omega arith
findings-observe f ref states (r ∷ refs) = ground (
  arith,
  findings-observe f ref (put r (observe f (state_of states r)) states) refs,
  get-put r ref (observe f (state_of states r)) states,
  eq_iff r ref,
)

findings-assess_rules :
    (ref : String) (states : Map State) (rules : List RuleDefinition)
    → (state_of (assess_rules states rules) ref).findings ≡ (state_of states ref).findings
unfolding assess_rules
findings-assess_rules ref states [] = refl
findings-assess_rules ref states (rule ∷ rules) =
    findings-assess_rules ref (update_all (assess rule.id) states rule.control_refs) rules
    ∙ findings-assess rule.id ref states rule.control_refs

findings-observe_findings :
    (ref : String) (states : Map State) (fs : List Finding)
    → (state_of (observe_findings states fs) ref).findings
      ≡ (state_of states ref).findings + occurrences ref fs
unfolding observe_findings
findings-observe_findings ref states [] = omega arith
findings-observe_findings ref states (f ∷ fs) = omega (
  arith,
  findings-observe_findings ref (update_all (observe f) states f.control_refs) fs,
  findings-observe f ref states f.control_refs,
)

is_none-get :
    (ref : String) (states : Map State)
    → is_none (get ref states) ≡ not (any (λ (r, s). r == ref) states)
unfolding get
is_none-get ref [] = refl
is_none-get ref ((r, s) ∷ states) = ground (arith, is_none-get ref states)

-- Whether a control occurs in the catalog or in a finding.
abbrev pub is_referred : List Finding → Catalog → String → Bool
is_referred findings catalog ref =
    any (λ rule. refers ref rule.control_refs) catalog.rules
    || any (λ f. refers ref f.control_refs) findings

-- What an assessment says of the findings.
abbrev pub Counts : List Finding → ControlAssessment → Type 0
Counts findings c =
    (c.findings ≡ occurrences c.reference findings)
    × ((c.status == "attention_required") ≡ ltb 0 (occurrences c.reference findings))

asks_attention :
    (b : Bool)
    → ((if b then "attention_required" else "no_findings_observed") == "attention_required") ≡ b
asks_attention true = refl
asks_attention false = refl

module _ (S : Sorter) (R : Ranging) where
  findings-control_states :
      (findings : List Finding) (catalog : Catalog) (ref : String)
      → (state_of (control_states findings catalog) ref).findings ≡ occurrences ref findings
  unfolding control_states get
  findings-control_states findings catalog ref = omega (
    arith,
    findings-observe_findings ref (assess_rules [] catalog.rules) findings,
    findings-assess_rules ref [] catalog.rules,
  )

  assessment-Counts :
      (findings : List Finding) (catalog : Catalog) (ref : String)
      → Counts findings (assessment S R (control_states findings catalog) ref)
  unfolding assessment
  assessment-Counts findings catalog ref = (
    findings-control_states findings catalog ref,
    asks_attention (ltb 0 (state_of (control_states findings catalog) ref).findings)
        ∙ ap (ltb 0) (findings-control_states findings catalog ref),
  )

  All-assessment :
      (findings : List Finding) (catalog : Catalog) (refs : List String)
      → All (Counts findings) (map (assessment S R (control_states findings catalog)) refs)
  All-assessment findings catalog [] = tt
  All-assessment findings catalog (ref ∷ refs) =
      (assessment-Counts findings catalog ref, All-assessment findings catalog refs)

  listed :
      (findings : List Finding) (catalog : Catalog) (ref : String)
      → any (λ (r, s). r == ref) (control_states findings catalog)
        ≡ is_referred findings catalog ref
  unfolding control_states get
  listed findings catalog ref = ground (
    arith,
    is_none-get ref (control_states findings catalog),
    known-observe_findings ref (assess_rules [] catalog.rules) findings,
    known-assess_rules ref [] catalog.rules,
  )

  -- A bundle assesses exactly the controls that a rule of the catalog or a finding refers to. Each assessment
  -- counts how often findings refer to its control, and asks for attention exactly if one does.
  pub build_controls-Counts :
      (findings : List Finding) (catalog : Catalog) (ref : String)
      → All (Counts findings) (build_controls S R findings catalog).controls
        × (any (λ c. c.reference == ref) (build_controls S R findings catalog).controls
            ≡ is_referred findings catalog ref)
  unfolding build_controls assessment
  build_controls-Counts findings catalog ref = (
    All-assessment findings catalog _,
    any-map (λ c. c.reference == ref) (assessment S R (control_states findings catalog)) _
        ∙ any-perm (λ r. r == ref) (S.sort_perm str_lt _)
        ∙ any-map (λ r. r == ref) (λ (r, s). r) (R.range (control_states findings catalog))
        ∙ any-perm (λ (entry : String × State). entry.0 == ref)
            (R.range_perm (control_states findings catalog))
        ∙ listed findings catalog ref,
  )
