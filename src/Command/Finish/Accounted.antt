-- ===== src/Command/Finish/Accounted.antt =====
-- What becomes of the findings of a scan: each of them is reported or suppressed.
use clusterproof.Prelude.{
  ℕ, ◌+◌, String, ◌≡◌, refl, Bool, List, [], ◌∷◌, ◌==◌, count_if, count_if-append, arith, ok,
  >>=-eq-ok, Option-cases, Bool-cases, inl, inr,
}
use clusterproof.Maps.{Map, Ranging, get}
use clusterproof.Sorting.Interface.{Sorter}
use clusterproof.Sorting.Counts.{count_if-perm}
use clusterproof.Model.{Severity, Finding, SuppressedFinding, Input, Report}
use clusterproof.Exception
use clusterproof.Vex
use clusterproof.Command.Options.{ScanOptions}
use clusterproof.Command.Scan.{Target, read_target, produce}
use clusterproof.Command.Machine.{Machine, on_error, vex_error, exceptions_error}
use clusterproof.Command.Finish.{
  Cleared, clear_by_vex, clear_by_exceptions, clear, report_of, make_report,
}

-- What a suppressed finding keeps of a finding: the rule, the severity, the target, the file and the container.
abbrev pub Trace : Type 0
Trace = String × Severity × String × String × String

abbrev trace : Finding → Trace
trace f = (f.id, f.severity, f.target, f.location.path, f.location.container)

abbrev suppressed_trace : SuppressedFinding → Trace
suppressed_trace s = (s.rule_id, s.severity, s.target, s.location.path, s.location.container)

module _ (test : Trace → Bool) where
  abbrev pub found : List Finding → ℕ
  found = count_if (λ f. test (trace f))

  abbrev pub suppressed : List SuppressedFinding → ℕ
  suppressed = count_if (λ s. test (suppressed_trace s))

  partition-found :
      (active : Map Exception.Exception) (fs : List Finding)
      → found (Exception.partition active fs).0 + suppressed (Exception.partition active fs).1
        ≡ found fs
  unfolding Exception.partition Exception.suppress
  partition-found active [] = refl
  partition-found active (f ∷ fs) = elim (Option-cases (get (Exception.finding_key f) active)) [
    | inl missing ↦ ground (arith, missing, partition-found active fs)
    | inr (e, there) ↦ ground (arith, there, partition-found active fs)
  ]

  vex_partition-found :
      (d : Vex.Document) (now max_age : ℕ) (fs : List Finding)
      → found (Vex.partition d now max_age fs).0 + suppressed (Vex.partition d now max_age fs).1
        ≡ found fs
  unfolding Vex.partition Vex.suppress
  vex_partition-found d now max_age [] = refl
  vex_partition-found d now max_age (f ∷ fs) =
      elim (Option-cases (Vex.suppression_of d now max_age f)) [
        | inl missing ↦ ground (arith, missing, vex_partition-found d now max_age fs)
        | inr (s, there) ↦ ground (arith, there, vex_partition-found d now max_age fs)
      ]

  module _ (M : Machine) (S : Sorter) where
    apply-found :
        (fs : List Finding) (es : List Exception.Exception) (now : ℕ)
        → found (Exception.apply S fs es now).0 + suppressed (Exception.apply S fs es now).1
          ≡ found fs
    unfolding Exception.apply
    apply-found fs [] now = ground arith
    apply-found fs (e ∷ es) now =
        let active = Exception.activate now [] (e ∷ es) in
        ground (
          arith,
          partition-found active fs,
          count_if-perm (λ s. test (suppressed_trace s))
              (S.sort_perm Exception.suppressed_order (Exception.partition active fs).1),
        )

    apply_to_findings-found :
        (d : Vex.Document) (fs : List Finding) (now max_age : ℕ)
        → found (Vex.apply_to_findings S d fs now max_age).0
            + suppressed (Vex.apply_to_findings S d fs now max_age).1
          ≡ found fs
    unfolding Vex.apply_to_findings
    apply_to_findings-found d fs now max_age = ground (
      arith,
      vex_partition-found d now max_age fs,
      count_if-perm (λ s. test (suppressed_trace s))
          (S.sort_perm Vex.suppressed_order (Vex.partition d now max_age fs).1),
    )

    clear_by_vex-found :
        (o : ScanOptions) (fs : List Finding) {c : Cleared}
        → clear_by_vex M S o fs ≡ ok c
        → found c.0 + suppressed c.1 ≡ found fs
    unfolding clear_by_vex
    clear_by_vex-found o fs {c} h = elim (Bool-cases (o.vex_json == "")) [
      | inl off ↦ ground (arith, rw off at h)
      | inr on ↦
          let (d, _, same) =
            >>=-eq-ok
              (on_error vex_error (Vex.load S M.vex_json (M.file o.vex_json) Vex.default_limits)) _
              (rw on at h) in
          ground (arith, same, apply_to_findings-found d fs M.vex_time Vex.default_max_age)
    ]

    module _ (R : Ranging) where
      clear_by_exceptions-found :
          (o : ScanOptions) (fs : List Finding) {c : Cleared}
          → clear_by_exceptions M S R o fs ≡ ok c
          → found c.0 + suppressed c.1 ≡ found fs
      unfolding clear_by_exceptions
      clear_by_exceptions-found o fs {c} h = elim (Bool-cases (o.exceptions == "")) [
        | inl off ↦ ground (arith, rw off at h)
        | inr on ↦
            let (es, _, same) =
              >>=-eq-ok
                (on_error exceptions_error (
                  Exception.load R M.exceptions_yaml (M.file o.exceptions)
                    Exception.default_limits))
                _ (rw on at h) in
            ground (arith, same, apply-found fs es M.exceptions_time)
      ]

      -- Whatever a test asks of what both keep of a finding, a report counts with it as many reported and
      -- suppressed findings together as were produced.
      pub make_report-found :
          (o : ScanOptions) (t : Target) (fs : List Finding) (inputs : List Input) (report : Report)
          → read_target M o ≡ ok t
          → produce M R S o t ≡ ok (fs, inputs)
          → make_report M S R o ≡ ok report
          → found report.findings + suppressed report.suppressed ≡ found fs
      unfolding make_report clear report_of
      make_report-found o t fs inputs report read produced h =
          let h₁ = rw read at h in
          let h₂ = rw produced at h₁ in
          let (c, h₃, same) = >>=-eq-ok (clear M S R o fs) _ h₂ in
          let ((left, by_vex), v, h₄) = >>=-eq-ok (clear_by_vex M S o fs) _ h₃ in
          let ((kept, by_exceptions), e, h₅) = >>=-eq-ok (clear_by_exceptions M S R o left) _ h₄ in
          ground (
            arith,
            same,
            h₅,
            clear_by_vex-found o fs v,
            clear_by_exceptions-found o left e,
            count_if-append (λ s. test (suppressed_trace s)) by_vex by_exceptions,
          )
