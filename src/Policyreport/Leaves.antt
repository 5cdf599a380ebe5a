-- ===== src/Policyreport/Leaves.antt =====
-- What an import of PolicyReport objects yields, whatever the nesting of its lists.
use clusterproof.Prelude.{
  some-inj, subst, ℕ, suc, ◌+◌, ◌≤◌, String, ◌≡◌, ◌≢◌, refl, sym, ap, ◌∙◌, Bool, not, ◌&&◌, ◌||◌,
  Option, none, some, List, [], ◌∷◌, ◌++◌, ◌==◌, arith, ltb, length, count_if, count_if-append,
  filter_map, Result, ok, err, refuse, refuse-then-ok, refuse-eq-ok, >>=-eq-ok, Result-cases,
  Option-cases, inl, inr,
}
use clusterproof.Sorting.Interface.{Sorter}
use clusterproof.Sorting.Counts.{count_if-perm}
use clusterproof.Files.{FileError, read_bounded, read_bounded-ok}
use clusterproof.Text.Space.{is_blank}
use clusterproof.Model.{Finding}
use clusterproof.Queue.{
  Tree, Ending, done, failed, out_of_fuel, size, leaves, sum_of, sum_of-leaves_root, walk_ends,
  walk_adds, walk_keeps,
}
use clusterproof.Policyreport.{
  Limits, Imported, ImportError, ObjectError, RawScope, RawResult, RawReport, Progress, is_list,
  check_list, handle, collect, normalize_result, normalize_results, finding_order, parse, ended,
  or_file, or_err, too_many_rounds, not_json, too_many_reports, too_many_results, included,
}

module _ (digest : List ℕ → String) (source : String) where
  -- The finding of a result, if it has one.
  abbrev finding_of : RawScope → RawResult → Option Finding
  finding_of scope r = elim (normalize_result digest source scope r) [
    | ok found ↦ found
    | err e ↦ none
  ]

  -- The findings of an object.
  abbrev pub findings_of : RawReport → List Finding
  findings_of report = filter_map (finding_of report.scope) report.results

  normalize_results-findings :
      (scope : RawScope) (rs : List RawResult) {fs : List Finding}
      → normalize_results digest source scope rs ≡ ok fs
      → fs ≡ filter_map (finding_of scope) rs
  unfolding normalize_results
  normalize_results-findings scope [] h = ground (arith, h)
  normalize_results-findings scope (r ∷ rs) {fs} h =
      let (found, normal, h₁) = >>=-eq-ok (normalize_result digest source scope r) _ h in
      let (rest, others, h₂) = >>=-eq-ok (normalize_results digest source scope rs) _ h₁ in
      both found normal (normalize_results-findings scope rs others) h₂
    where
      both :
          (found : Option Finding) {rest : List Finding}
          → normalize_result digest source scope r ≡ ok found
          → rest ≡ filter_map (finding_of scope) rs
          → ◌≡◌ {A = Result ObjectError (List Finding)} (ok (included digest found ++ rest)) (ok fs)
          → fs ≡ filter_map (finding_of scope) (r ∷ rs)
      both none normal same e = ground (arith, normal, same, e)
      both (some f) normal same e = ground (arith, normal, same, e)

  module _ (limits : Limits) where
    abbrev nothing : Progress
    nothing = record { reports = 0; results = 0; findings = [] }

    -- What a handled object adds.
    record Handled (before : Progress) (report : RawReport) (after : Progress) : Type 0 where
      reports : after.reports ≡ suc before.reports
      results : after.results ≡ before.results + length report.results
      findings : after.findings ≡ before.findings ++ findings_of report
      few_reports : after.reports ≤ limits.max_reports
      few_results : after.results ≤ limits.max_results

    handle-Handled :
        (p : Progress) (report : RawReport) (p' : Progress)
        → handle digest source limits p report ≡ ok p'
        → Handled p report p'
    unfolding handle
    handle-Handled p report p' h =
        let h₁ =
          refuse-then-ok
            (not (report.api_version == "wgpolicyk8s.io/v1alpha2")
              || (not (report.kind == "PolicyReport")
                  && not (report.kind == "ClusterPolicyReport")))
            _ _ h in
        let (_, r₁, h₂) =
          >>=-eq-ok
            (refuse (ltb limits.max_reports (suc p.reports)) (too_many_reports limits.max_reports))
            _ h₁ in
        let (_, r₂, h₃) =
          >>=-eq-ok
            (refuse (ltb limits.max_results (p.results + length report.results))
              (too_many_results limits.max_results))
            _ h₂ in
        let (fs, normal, h₄) =
          >>=-eq-ok (normalize_results digest source report.scope report.results) _ h₃ in
        let few = refuse-eq-ok _ _ r₁ in
        let small = refuse-eq-ok _ _ r₂ in
        let same = normalize_results-findings report.scope report.results normal in
        record {
          reports = ground (arith, h₄);
          results = ground (arith, h₄);
          findings = ground (arith, h₄, same);
          few_reports = ground (arith, h₄, few);
          few_results = ground (arith, h₄, small);
        }

    findings_add :
        (p : Finding → Bool) (s : Progress) (report : RawReport) (s' : Progress)
        → handle digest source limits s report ≡ ok s'
        → count_if p s'.findings ≡ count_if p s.findings + count_if p (findings_of report)
    findings_add p s report s' h =
        ap (count_if p) (handle-Handled s report s' h).findings
        ∙ count_if-append p s.findings (findings_of report)

    reports_add :
        (s : Progress) (report : RawReport) (s' : Progress)
        → handle digest source limits s report ≡ ok s'
        → s'.reports ≡ s.reports + 1
    reports_add s report s' h = omega (arith, (handle-Handled s report s' h).reports)

    results_add :
        (s : Progress) (report : RawReport) (s' : Progress)
        → handle digest source limits s report ≡ ok s'
        → s'.results ≡ s.results + length report.results
    results_add s report s' h = (handle-Handled s report s' h).results

    abbrev Within : Progress → Type 0
    Within s = (s.reports ≤ limits.max_reports) × (s.results ≤ limits.max_results)

    stays-Within :
        (s : Progress) (report : RawReport) (s' : Progress)
        → handle digest source limits s report ≡ ok s'
        → Within s
        → Within s'
    stays-Within s report s' h w =
        ((handle-Handled s report s' h).few_reports, (handle-Handled s report s' h).few_results)

    -- What the loop over the queue collects.
    pub record Collected (root : Tree RawReport) (end : Progress) : Type 0 where
      findings :
          (p : Finding → Bool)
          → count_if p end.findings
            ≡ sum_of (λ report. count_if p (findings_of report)) (leaves is_list root)
      few_reports : sum_of (λ report. 1) (leaves is_list root) ≤ limits.max_reports
      few_results :
          sum_of (λ (report : RawReport). length report.results) (leaves is_list root)
          ≤ limits.max_results

    collect-Collected :
        (root : Tree RawReport) {end : Progress}
        → collect digest source limits root ≡ done end
        → Collected root end
    unfolding collect
    collect-Collected root {end} h =
        let within =
          walk_keeps is_list check_list (handle digest source limits) Within stays-Within
            (size root) nothing (root ∷ []) {end = end} h (omega arith, omega arith) in
        record {
          findings = λ p. omega (
            arith,
            walk_adds is_list check_list (handle digest source limits) (λ s. count_if p s.findings)
                (λ report. count_if p (findings_of report)) (findings_add p) (size root) nothing
                (root ∷ []) {end = end} h,
            sum_of-leaves_root is_list (λ report. count_if p (findings_of report)) root,
          );
          few_reports = omega (
            arith,
            walk_adds is_list check_list (handle digest source limits) (λ s. s.reports)
                (λ report. 1) reports_add (size root) nothing (root ∷ []) {end = end} h,
            sum_of-leaves_root is_list (λ report. 1) root,
            within.0,
          );
          few_results = omega (
            arith,
            walk_adds is_list check_list (handle digest source limits) (λ s. s.results)
                (λ report. length report.results) results_add (size root) nothing (root ∷ [])
                {end = end} h,
            sum_of-leaves_root is_list (λ (report : RawReport). length report.results) root,
            within.1,
          );
        }

    collect_ends : (root : Tree RawReport) → collect digest source limits root ≢ out_of_fuel
    unfolding collect
    collect_ends root =
        walk_ends is_list check_list (handle digest source limits) (size root) nothing (root ∷ [])
          (omega arith)

or_file-ok : {A : Type 0} (r : Result FileError A) {a : A} → or_file r ≡ ok a → r ≡ ok a
or_file-ok (ok a) h = ground (arith, h)
or_file-ok (err e) h = cc

or_err-ok : {A : Type 0} (e : ImportError) (o : Option A) {a : A} → or_err e o ≡ ok a → o ≡ some a
or_err-ok e none h = cc
or_err-ok e (some b) h = ground (arith, h)

module _ (S : Sorter) (digest : List ℕ → String) (json : List ℕ → Option (Tree RawReport)) where
  ended-done :
      (bytes : List ℕ) (source : String) (ending : Ending ObjectError Progress)
      {imported : Imported}
      → ended S digest json bytes source ending ≡ ok imported
      → (end : Progress) × (ending ≡ done end)
        × (record {
          findings = S.sort finding_order end.findings;
          input = record { path = source; sha256 = digest bytes; bytes = length bytes };
        }
            ≡ imported)
  ended-done bytes source out_of_fuel h = cc
  ended-done bytes source (failed e) h = cc
  ended-done bytes source (done end) h = (end, refl, ground (arith, h))

  ended-ne :
      (bytes : List ℕ) (source : String) (ending : Ending ObjectError Progress)
      → ending ≢ out_of_fuel
      → ended S digest json bytes source ending ≢ err too_many_rounds
  ended-ne bytes source out_of_fuel ends h = ends refl
  ended-ne bytes source (failed e) ends h = ground (arith, h)
  ended-ne bytes source (done end) ends h = ground (arith, h)

-- The loop over the queue ends within the rounds that it has, as many as the decoded object holds objects,
-- however deep its lists nest.
pub parse_ends :
    (S : Sorter) (digest : List ℕ → String) (json : List ℕ → Option (Tree RawReport))
    (reader : Option (List ℕ)) (source : String) (limits : Limits)
    → parse S digest json reader source limits ≢ err too_many_rounds
unfolding parse
parse_ends S digest json reader source limits h =
    elim (Result-cases (read_bounded reader limits.max_bytes)) [
      | inr (e, unread) ↦ ground (arith, unread, h)
      | inl (bytes, read) ↦ elim (Option-cases (json bytes)) [
        | inl undecoded ↦ ground (arith, read, undecoded, h)
        | inr (root, decoded) ↦ ground (
          arith,
          read,
          decoded,
          h,
          ended-ne S digest json bytes source (collect digest source limits root)
              (collect_ends digest source limits root),
        )
      ]
    ]

-- A successful import of a document reports, up to order, the findings of the results of all objects, however
-- deep the lists nest that hold them, and no others; there are no more objects and results than the limits
-- allow.
pub parse-leaves :
    (S : Sorter) (digest : List ℕ → String) (json : List ℕ → Option (Tree RawReport))
    (document : List ℕ) (root : Tree RawReport) (source : String) (limits : Limits)
    (imported : Imported)
    → json document ≡ some root
    → parse S digest json (some document) source limits ≡ ok imported
    → ((p : Finding → Bool)
        → count_if p imported.findings
          ≡ sum_of (λ report. count_if p (findings_of digest source report)) (leaves is_list root))
      × (sum_of (λ report. 1) (leaves is_list root) ≤ limits.max_reports)
      × (sum_of (λ (report : RawReport). length report.results) (leaves is_list root)
          ≤ limits.max_results)
unfolding parse
parse-leaves S digest json document root source limits imported known h =
    let h₁ = refuse-then-ok (is_blank source) _ _ h in
    let h₂ =
      refuse-then-ok
        (not (ltb 0 limits.max_bytes)
          || not (ltb 0 limits.max_reports)
          || not (ltb 0 limits.max_results))
        _ _ h₁ in
    let (bytes, read, h₃) =
      >>=-eq-ok (or_file (read_bounded (some document) limits.max_bytes)) _ h₂ in
    let whole : document ≡ bytes =
      some-inj ((read_bounded-ok (some document) limits.max_bytes (or_file-ok _ read)).0) in
    let (found, decoded, h₄) = >>=-eq-ok (or_err not_json (json bytes)) _ h₃ in
    let same_root : found ≡ root =
      some-inj (sym (or_err-ok _ _ decoded) ∙ ap json (sym whole) ∙ known) in
    let (end, collected, same) =
      ended-done S digest json bytes source (collect digest source limits found) h₄ in
    let all =
      subst (λ (r : Tree RawReport). Collected digest source limits r end) same_root
        (collect-Collected digest source limits found collected) in
    (
      λ p.
          ap (λ (i : Imported). count_if p i.findings) (sym same)
          ∙ count_if-perm p (S.sort_perm finding_order end.findings)
          ∙ all.findings p,
      all.few_reports,
      all.few_results,
    )
