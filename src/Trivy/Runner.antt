-- ===== src/Trivy/Runner.antt =====
-- internal/trivy/runner.go: a run of Trivy on a directory. What the process comes to is a parameter.
use clusterproof.Prelude.{
  ℕ, String, not, ◌||◌, ◌==◌, List, [], ◌∷◌, some, Option, length, ltb, Result, ok, err, ◌>>◌,
  refuse,
}
use clusterproof.Files.{take}
use clusterproof.Sorting.Interface.{Sorter}
use clusterproof.Model.{Finding}
use clusterproof.Trivy.{TrivyResult, TrivyError, parse}

-- The timeout is in nanoseconds.
pub record RunOptions : Type 0 where
  pub executable : String
  pub timeout : ℕ
  pub max_output_bytes : ℕ
  pub max_error_bytes : ℕ

abbrev pub default_run_options : RunOptions
default_run_options = record {
  executable = "trivy";
  timeout = 300000000000;
  max_output_bytes = 104857600;
  max_error_bytes = 65536;
}

-- What a run comes to: it is not found, runs out of time, fails, or ends well with what it printed.
pub data Run : Type 0 where
  not_found timed_out failed : Run
  finished : List ℕ → Run

pub data RunError : Type 0 where
  invalid_options cannot_find exceeded_timeout scan_failed exceeded_output : RunError
  not_parsed : TrivyError → RunError

filesystem_args : String → List String
filesystem_args path =
    "fs" ∷ "--no-progress" ∷ "--quiet" ∷ "--format" ∷ "json" ∷ "--scanners"
    ∷ "vuln,misconfig,secret" ∷ "--" ∷ path ∷ []

abbrev or_not_parsed : {A : Type 0} → Result TrivyError A → Result RunError A
or_not_parsed (ok a) = ok a
or_not_parsed (err e) = err (not_parsed e)

-- The buffer keeps the first bytes of the output and knows whether there were more.
pub run_filesystem :
    Sorter
    → (List ℕ → Option (List TrivyResult))
    → (List String → Run)
    → String
    → RunOptions
    → Result RunError (List Finding)
unfolding filesystem_args
run_filesystem S json trivy path options = do
  refuse
      (options.executable == ""
        || not (ltb 0 options.timeout)
        || not (ltb 0 options.max_output_bytes)
        || not (ltb 0 options.max_error_bytes))
      invalid_options
  elim (trivy (filesystem_args path)) [
    | not_found ↦ err cannot_find
    | timed_out ↦ err exceeded_timeout
    | failed ↦ err scan_failed
    | finished output ↦ do
      refuse (ltb options.max_output_bytes (length output)) exceeded_output
      or_not_parsed
          (parse S json (some (take options.max_output_bytes output)) options.max_output_bytes)
  ]
