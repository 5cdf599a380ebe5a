-- ===== src/Command/Machine.antt =====
-- cmd/clusterproof/main.go: what `runScan` meets outside of itself, and how it fails.
use clusterproof.Prelude.{ℕ, String, Bool, Option, none, some, List, Result, ok, err}
use clusterproof.Files.{File, FileError}
use clusterproof.Queue.{Tree}
use clusterproof.Model.{SeverityError, Report}
use clusterproof.Rbac
use clusterproof.Network
use clusterproof.Cluster.{Snapshot, CollectError}
use clusterproof.Policyreport
use clusterproof.Openreports
use clusterproof.Trivy.{TrivyResult, TrivyError}
use clusterproof.Trivy.Runner.{Run, RunError}
use clusterproof.Trust.{Policy, PolicyError}
use clusterproof.Trust
use clusterproof.Sigstore.{Outcome, SigstoreError}
use clusterproof.Vex
use clusterproof.Exception
use clusterproof.Evidence.Write.{Encoder, Os, WriteError}
use clusterproof.Command.Options.{OptionError}

-- What the scan meets: the files by their paths, the standard input, the loaders of manifests, the processes,
-- the decoders, the times that it reads, and what rendering and writing come to.
pub record Machine : Type 0 where
  pub file : String → File
  pub closes : String → Bool
  pub stdin : Option (List ℕ)
  pub load : String → Option Snapshot
  pub load_bytes : List ℕ → Option Snapshot
  pub kubectl : List String → Result String Snapshot
  pub trivy : List String → Run
  pub cosign : List String → Outcome
  pub digest : List ℕ → String
  pub policy_json : List ℕ → Option (Tree Policyreport.RawReport)
  pub open_json : List ℕ → Option (Tree Openreports.RawReport)
  pub trivy_json : List ℕ → Option (List TrivyResult)
  pub vex_json : List ℕ → Option Vex.RawDocument
  pub exceptions_yaml : Exception.Yaml
  pub trust_yaml : Trust.Yaml
  pub encoder : Encoder
  pub os : Os
  pub vex_time : ℕ
  pub exceptions_time : ℕ
  pub report_time : ℕ
  pub version : String
  pub render : String → Report → Option (List ℕ)
  pub can_print : Bool
  pub write_new : String → List ℕ → Bool

pub data ScanError : Type 0 where
  stdin_empty stdin_not_loaded manifests_not_loaded nothing_collected trivy_not_opened
        trivy_not_closed not_rendered not_written :
      ScanError
  bad_options : OptionError → ScanError
  bad_stdin : FileError → ScanError
  collect_error : CollectError → ScanError
  rbac_error : Rbac.RbacError → ScanError
  network_error : Network.NetworkError → ScanError
  policyreport_error : Policyreport.ImportError → ScanError
  openreports_error : Openreports.ImportError → ScanError
  trivy_error : TrivyError → ScanError
  run_error : RunError → ScanError
  trust_error : PolicyError → ScanError
  sigstore_error : SigstoreError → ScanError
  vex_error : Vex.VexError → ScanError
  exceptions_error : Exception.LoadError → ScanError
  evidence_error : WriteError → ScanError
  bad_severity : SeverityError → ScanError

abbrev pub on_error : {E A : Type 0} → (E → ScanError) → Result E A → Result ScanError A
on_error f (ok a) = ok a
on_error f (err e) = err (f e)

abbrev pub or_err : {A : Type 0} → ScanError → Option A → Result ScanError A
or_err e none = err e
or_err e (some a) = ok a
