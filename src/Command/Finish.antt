-- ===== src/Command/Finish.antt =====
-- cmd/clusterproof/main.go: the end of `runScan`: what is cleared, the report, and the exit code.
pub mod Exit
pub mod Accounted
use clusterproof.Prelude.{
  ℕ, String, Bool, true, false, not, ◌&&◌, ◌||◌, Option, none, some, List, [], ◌∷◌, ◌++◌, ◌==◌,
  if◌then◌else◌, length, any, Result, ok, err, ◌>>=◌, ◌>>◌, refuse,
}
use clusterproof.Maps.{Ranging}
use clusterproof.Sorting.Interface.{Sorter}
use clusterproof.Model.{
  Severity, Finding, SuppressedFinding, Input, Report, Assessment, parse_severity, meets, summarize,
}
use clusterproof.Rules.Catalog.{reference}
use clusterproof.Rules.Catalog.Default.{default_catalog}
use clusterproof.Vex
use clusterproof.Exception
use clusterproof.Evidence.Write.{Tree, write_bundle}
use clusterproof.Command.Options.{ScanOptions, is_format, parse_scan_options}
use clusterproof.Command.Scan.{Target, read_target, produce}
use clusterproof.Command.Machine.{
  Machine, ScanError, vex_error, exceptions_error, evidence_error, bad_options, bad_severity,
  not_rendered, not_written, on_error, or_err,
}

abbrev pub Cleared : Type 0
Cleared = List Finding × List SuppressedFinding

abbrev status_of : Target → String
status_of t = elim t.loaded.workloads [ [] ↦ "no-workloads" | w ∷ ws ↦ "assessed" ]

abbrev pub some_meets : Severity → List Finding → Bool
some_meets threshold = any (λ f. meets f.severity threshold)

module _ (M : Machine) (S : Sorter) where
  pub clear_by_vex : ScanOptions → List Finding → Result ScanError Cleared
  clear_by_vex o findings = if o.vex_json == "" then ok (findings, []) else do
    document ← on_error vex_error (Vex.load S M.vex_json (M.file o.vex_json) Vex.default_limits)
    ok (Vex.apply_to_findings S document findings M.vex_time Vex.default_max_age)

  module _ (R : Ranging) where
    pub clear_by_exceptions : ScanOptions → List Finding → Result ScanError Cleared
    clear_by_exceptions o findings = if o.exceptions == "" then ok (findings, []) else do
      entries ←
          on_error exceptions_error
            (Exception.load R M.exceptions_yaml (M.file o.exceptions) Exception.default_limits)
      ok (Exception.apply S findings entries M.exceptions_time)

    -- VEX statements are applied first, and the exceptions to what is left.
    pub clear : ScanOptions → List Finding → Result ScanError Cleared
    unfolding clear_by_vex clear_by_exceptions
    clear o findings = do
      (left, by_vex) ← clear_by_vex o findings
      (kept, by_exceptions) ← clear_by_exceptions o left
      ok (kept, by_vex ++ by_exceptions)

    pub report_of : Target → List Input → Cleared → Report
    report_of t inputs (findings, suppressed) = record {
      schema_version = "1";
      generated_at = M.report_time;
      target = t.name;
      tool_version = M.version;
      rules = some (reference default_catalog);
      assessment = some (record {
        status = status_of t;
        inputs_scanned = length inputs;
        workloads_assessed = length t.loaded.workloads;
      });
      scopes = t.scopes;
      inputs = inputs;
      findings = findings;
      suppressed = suppressed;
      summary = summarize findings;
    }

    -- The report of a scan, before anything is written.
    unfoldable pub make_report : ScanOptions → Result ScanError Report
    unfolding clear report_of
    make_report o = do
      t ← read_target M o
      (findings, inputs) ← produce M R S o t
      cleared ← clear o findings
      ok (report_of t inputs cleared)

    -- The evidence bundle, if one is asked for; `disk` is what stands at its path.
    pub write_evidence :
        ScanOptions → Report → Option Tree → Result ScanError (Unit {0}) × Option Tree
    write_evidence o scan disk =
        if o.evidence_dir == ""
        then (ok tt, disk)
        else let (result, after) =
            write_bundle S R M.digest M.encoder M.os o.evidence_dir scan disk in
          (on_error evidence_error result, after)

    -- The report on the standard output or in a new file.
    pub print_report : ScanOptions → Report → Result ScanError (Unit {0})
    print_report o scan = do
      rendered ← or_err not_rendered (if is_format o.format then M.render o.format scan else none)
      refuse (if o.output == "" then not M.can_print else not (M.write_new o.output rendered))
          not_written

    -- The exit code of a report that was written.
    pub decide : ScanOptions → Report → Result ScanError ℕ
    decide o scan = if o.fail_on == "" then ok 0 else do
      threshold ← on_error bad_severity (parse_severity o.fail_on)
      ok (if some_meets threshold scan.findings then 2 else 0)

    -- A scan with its options: the exit code or what went wrong, and the disk behind it.
    pub scan : ScanOptions → Option Tree → Result ScanError ℕ × Option Tree
    scan o disk = elim (make_report o) [
      | err e ↦ (err e, disk)
      | ok report ↦
          let (written, after) = write_evidence o report disk in
          (written >> print_report o report >> decide o report, after)
    ]

abbrev pub exit_code : Result ScanError ℕ → ℕ
exit_code (ok code) = code
exit_code (err e) = 1

pub run_scan : Machine → Sorter → Ranging → List String → Option Tree → ℕ × Option Tree
run_scan M S R args disk = elim (parse_scan_options R args) [
  | err e ↦ (1, disk)
  | ok (o, asks_help) ↦
      if asks_help
      then (0, disk)
      else let (code, after) = scan M S R o disk in (exit_code code, after)
]
