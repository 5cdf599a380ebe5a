-- ===== src/Command/Finish/Exit.antt =====
-- The exit code of a scan.
use clusterproof.Prelude.{
  ℕ, String, ◌≡◌, refl, Bool, true, false, not, ◌&&◌, ◌||◌, Option, List, ◌==◌, if◌then◌else◌,
  nat_eq, arith, subst, Result, ok, err, ◌>>◌, is_ok, >>=-eq-ok, Bool-cases, Result-cases, inl, inr,
}
use clusterproof.Maps.{Ranging}
use clusterproof.Sorting.Interface.{Sorter}
use clusterproof.Model.{Finding, Report, parse_severity}
use clusterproof.Evidence.Write.{Tree}
use clusterproof.Command.Options.{
  ScanOptions, check_options, check_target, check_verification, check_output, is_format,
  parse_scan_options, initial_options, read_args,
}
use clusterproof.Command.Machine.{Machine, ScanError}
use clusterproof.Command.Finish.{
  some_meets, make_report, write_evidence, print_report, decide, scan, exit_code, run_scan,
}

-- A threshold is set and a finding meets it.
abbrev pub meets_threshold : ScanOptions → List Finding → Bool
meets_threshold o findings = not (o.fail_on == "") && elim (parse_severity o.fail_on) [
  | ok threshold ↦ some_meets threshold findings
  | err e ↦ false
]

abbrev has_threshold : ScanOptions → Bool
has_threshold o = o.fail_on == "" || is_ok (parse_severity o.fail_on)

check_output-threshold :
    (o : ScanOptions)
    → check_output o ≡ ok tt
    → (has_threshold o ≡ true) × (is_format o.format ≡ true)
unfolding check_output
check_output-threshold o h = (ground (arith, h), ground (arith, h))

parse_scan_options-threshold :
    (R : Ranging) (args : List String) {o : ScanOptions}
    → parse_scan_options R args ≡ ok (o, false)
    → (has_threshold o ≡ true) × (is_format o.format ≡ true)
unfolding parse_scan_options check_options
parse_scan_options-threshold R args {o} h =
    let ((read, asks_help), _, h₁) = >>=-eq-ok (read_args R initial_options args) _ h in
    elim (Bool-cases asks_help) [
      | inl asks ↦ absurd (ground (arith, rw asks at h₁))
      | inr asks_not ↦
          let (_, checked, h₂) = >>=-eq-ok (check_options read) _ (rw asks_not at h₁) in
          let (_, target, h₃) = >>=-eq-ok (check_target read) _ checked in
          let (_, verification, h₄) = >>=-eq-ok (check_verification read) _ h₃ in
          let same : read ≡ o = ground (arith, h₂) in
          subst (λ p. (has_threshold p ≡ true) × (is_format p.format ≡ true)) same
            (check_output-threshold read h₄)
    ]

module _ (M : Machine) (S : Sorter) (R : Ranging) where
  -- The report is made, and the evidence and the report are written.
  abbrev pub delivers : ScanOptions → Option Tree → Report → Bool
  delivers o disk report =
      is_ok (write_evidence M S R o report disk).0 && is_ok (print_report M S R o report)

  -- A test of a scan that is made.
  abbrev pub made : ScanOptions → (Report → Bool) → Bool
  made o test = elim (make_report M S R o) [ ok report ↦ test report | err e ↦ false ]

  decide-threshold :
      (o : ScanOptions) (report : Report)
      → has_threshold o ≡ true
      → decide M S R o report ≡ ok (if meets_threshold o report.findings then 2 else 0)
  unfolding decide
  decide-threshold o report valid = elim (Bool-cases (o.fail_on == "")) [
    | inl off ↦ ground (arith, off)
    | inr on ↦ elim (Result-cases (parse_severity o.fail_on)) [
      | inl (threshold, parsed) ↦ ground (arith, on, parsed)
      | inr (e, bad) ↦ absurd (ground (arith, on, bad, valid))
    ]
  ]

  -- Two steps and a decision.
  steps-exit :
      (written printed : Result ScanError (Unit {0})) (decided : Result ScanError ℕ)
      (meeting : Bool)
      → decided ≡ ok (if meeting then 2 else 0)
      → (nat_eq (exit_code (written >> printed >> decided)) 2
          ≡ ((is_ok written && is_ok printed) && meeting))
        × (nat_eq (exit_code (written >> printed >> decided)) 1
            ≡ not (is_ok written && is_ok printed))
  steps-exit (err e) printed decided meeting h = (refl, refl)
  steps-exit (ok u) (err e) decided meeting h = (refl, refl)
  steps-exit (ok u) (ok v) decided true h = rw h (refl, refl)
  steps-exit (ok u) (ok v) decided false h = rw h (refl, refl)

  scan-exit :
      (o : ScanOptions) (disk : Option Tree)
      → has_threshold o ≡ true
      → (nat_eq (exit_code (scan M S R o disk).0) 2
          ≡ made o (λ report. delivers o disk report && meets_threshold o report.findings))
        × (nat_eq (exit_code (scan M S R o disk).0) 1 ≡ not (made o (delivers o disk)))
  unfolding scan
  scan-exit o disk valid = elim (Result-cases (make_report M S R o)) [
    | inl (report, known) ↦
        rw (known, exit_code, scan, made)
          (steps-exit (write_evidence M S R o report disk).0 (print_report M S R o report)
            (decide M S R o report) _ (decide-threshold o report valid))
    | inr (e, unknown) ↦ rw (unknown, exit_code, scan, made) (refl, refl)
  ]

  -- The arguments ask for a scan that a test of its options accepts.
  abbrev pub asks : List String → (ScanOptions → Bool) → Bool
  asks args test = elim (parse_scan_options R args) [
    | ok (o, asks_help) ↦ asks_help || test o
    | err e ↦ false
  ]

  abbrev pub asks_scan : List String → (ScanOptions → Bool) → Bool
  asks_scan args test = elim (parse_scan_options R args) [
    | ok (o, asks_help) ↦ not asks_help && test o
    | err e ↦ false
  ]

  -- `run_scan` exits with 2 exactly if the arguments ask for a scan with a threshold whose report is made and
  -- delivered and lists a finding that meets the threshold. It exits with 1 exactly if the arguments are
  -- refused, or ask for a scan whose report is not made, or not delivered: once a report is out, nothing fails.
  pub run_scan-exit :
      (args : List String) (disk : Option Tree)
      → (nat_eq (run_scan M S R args disk).0 2
          ≡ asks_scan args
              (λ o. made o (λ report. delivers o disk report && meets_threshold o report.findings)))
        × (nat_eq (run_scan M S R args disk).0 1 ≡ not (asks args (λ o. made o (delivers o disk))))
  unfolding run_scan
  run_scan-exit args disk = elim (Result-cases (parse_scan_options R args)) [
    | inr (e, refused) ↦ rw (refused, run_scan, asks, asks_scan) (refl, refl)
    | inl ((o, true), read) ↦ rw (read, run_scan, asks, asks_scan) (refl, refl)
    | inl ((o, false), read) ↦
        rw (read, run_scan, asks, asks_scan)
          (scan-exit o disk (parse_scan_options-threshold R args read).0)
  ]
