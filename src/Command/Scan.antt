-- ===== src/Command/Scan.antt =====
-- cmd/clusterproof/main.go: what a scan reads and finds, `runScan` up to the sorted findings, and
-- `verifyImageSignatures`. The machine answers for files, processes and decoders.
use clusterproof.Prelude.{
  ℕ, String, Bool, true, false, not, ◌&&◌, ◌||◌, List, [], ◌∷◌, ◌++◌, ◌==◌, if◌then◌else◌, ltb, any,
  map, concat_map, Result, ok, err, ◌>>=◌, ◌>>◌, refuse,
}
use clusterproof.Text.Search.{split_all}
use clusterproof.Text.Space.{trim_space, join}
use clusterproof.Text.Bytes.{is_blank_bytes}
use clusterproof.Files.{read_bounded}
use clusterproof.Maps.{Ranging}
use clusterproof.Sorting.Interface.{Sorter}
use clusterproof.Sorting.Orders.{then_by, by_text}
use clusterproof.Model.{Severity, Finding, Input, ScopeAssessment}
use clusterproof.Manifest.{Workload}
use clusterproof.Rules.Evaluate.{evaluate}
use clusterproof.Rules.Psa.{evaluate_namespaces}
use clusterproof.Rules.Verification.{unpinned_image_finding, signature_failed_finding}
use clusterproof.Rbac
use clusterproof.Network
use clusterproof.Cluster.{Snapshot, ScopeStatus, collect_scopes}
use clusterproof.Image.{Reference, pinned, inventory}
use clusterproof.Policyreport
use clusterproof.Openreports
use clusterproof.Trivy.{TrivyResult, TrivyError}
use clusterproof.Trivy
use clusterproof.Trivy.Runner.{run_filesystem, default_run_options}
use clusterproof.Trust.{Policy, PolicyError}
use clusterproof.Trust
use clusterproof.Sigstore.{Outcome, SigstoreError}
use clusterproof.Sigstore
use clusterproof.Command.Options.{ScanOptions}
use clusterproof.Command.Machine.{
  Machine, ScanError, on_error, or_err, stdin_empty, stdin_not_loaded, manifests_not_loaded,
  nothing_collected, trivy_not_opened, trivy_not_closed, bad_stdin, collect_error, rbac_error,
  network_error, policyreport_error, openreports_error, trivy_error, run_error, trust_error,
  sigstore_error,
}

-- What is scanned: the objects, the assessment of the scopes, and the name in the report.
pub record Target : Type 0 where
  pub loaded : Snapshot
  pub scopes : List ScopeAssessment
  pub name : String

abbrev assessment_of : ScopeStatus → ScopeAssessment
assessment_of s = record {
  scope = s.scope;
  resources = s.resources;
  status = s.status;
  detail = s.detail;
}

abbrev is_empty : {A : Type 0} → List A → Bool
is_empty [] = true
is_empty (x ∷ xs) = false

abbrev in_cluster : Snapshot → List ScopeAssessment → Result ScanError Target
in_cluster loaded scopes = elim loaded.inputs [
  | [] ↦ err nothing_collected
  | i ∷ is ↦ ok (record { loaded = loaded; scopes = scopes; name = i.path })
]

abbrev rank : Severity → ℕ
rank severity =
    if severity == "critical"
    then 4
    else if severity == "high"
    then 3
    else if severity == "medium"
    then 2
    else if severity == "low"
    then 1
    else 0

-- The order of `sortFindings`.
abbrev pub finding_order : Finding → Finding → Bool
finding_order f g =
    if not (f.severity == g.severity)
    then ltb (rank g.severity) (rank f.severity)
    else then_by (λ (h : Finding). h.id)
        (then_by (λ (h : Finding). h.target) (by_text (λ (h : Finding). h.location.container))) f g

module _ (M : Machine) where
  read_stdin : Result ScanError Target
  read_stdin = do
    data_bytes ← on_error bad_stdin (read_bounded M.stdin 5242880)
    refuse (is_blank_bytes data_bytes) stdin_empty
    loaded ← or_err stdin_not_loaded (M.load_bytes data_bytes)
    ok (record { loaded = loaded; scopes = []; name = "stdin" })

  abbrev requested : ScanOptions → List String
  requested o =
      if not (o.scopes == "") then map trim_space (split_all b',' o.scopes) else "workloads" ∷ []

  read_cluster : ScanOptions → Result ScanError Target
  read_cluster o = do
    scoped ← on_error collect_error (
        collect_scopes M.kubectl
          (record {
            kubeconfig = o.kubeconfig;
            context = o.context;
            namespace = o.namespace;
            timeout = "30s";
          })
          (requested o))
    in_cluster scoped.result (map assessment_of scoped.scopes)

  -- The `switch` over the kinds of target.
  unfoldable pub read_target : ScanOptions → Result ScanError Target
  unfolding read_stdin read_cluster
  read_target o =
      if o.stdin then read_stdin else if not (o.kubeconfig == "") then read_cluster o else do
        loaded ← or_err manifests_not_loaded (M.load o.target)
        ok (record { loaded = loaded; scopes = []; name = o.target })

  module _ (R : Ranging) (S : Sorter) where
    rbac_findings : Snapshot → Result ScanError (List Finding)
    rbac_findings s =
        if is_empty s.rbac_roles && is_empty s.rbac_bindings
        then ok []
        else on_error rbac_error (Rbac.analyze R S s.rbac_roles s.rbac_bindings Rbac.default_limits)

    abbrev network_collected : Target → Bool
    network_collected t =
        not (is_empty t.loaded.network_policies)
        || not (is_empty t.loaded.services)
        || any (λ s. s.scope == "network" && s.status == "collected") t.scopes

    network_findings : Target → Result ScanError (List Finding)
    network_findings t =
        if network_collected t
        then on_error network_error (
            Network.analyze R S t.loaded.workloads t.loaded.network_policies t.loaded.services
              Network.default_limits)
        else ok []

    -- The findings of the program's own rules.
    native_findings : Target → Result ScanError (List Finding)
    unfolding rbac_findings network_findings
    native_findings t = do
      privileges ← rbac_findings t.loaded
      exposures ← network_findings t
      ok (
          concat_map (evaluate S) t.loaded.workloads
          ++ (evaluate_namespaces S t.loaded.namespaces ++ (privileges ++ exposures)))

    policy_findings : ScanOptions → Result ScanError (List Finding × List Input)
    policy_findings o = if o.policy_json == "" then ok ([], []) else do
      imported ← on_error policyreport_error (
          Policyreport.load S M.digest M.policy_json (M.file o.policy_json) o.policy_json
            Policyreport.default_limits)
      ok (imported.findings, imported.input ∷ [])

    open_findings : ScanOptions → Result ScanError (List Finding × List Input)
    open_findings o = if o.open_reports == "" then ok ([], []) else do
      imported ← on_error openreports_error (
          Openreports.load S M.digest M.open_json (M.file o.open_reports) o.open_reports
            Openreports.default_limits)
      ok (imported.findings, imported.input ∷ [])

    trivy_findings : ScanOptions → Result ScanError (List Finding)
    trivy_findings o = if o.trivy_json == "" then ok [] else do
      refuse (not (M.file o.trivy_json).opened) trivy_not_opened
      findings ←
          on_error trivy_error (Trivy.parse S M.trivy_json (M.file o.trivy_json).content 104857600)
      refuse (not (M.closes o.trivy_json)) trivy_not_closed
      ok findings

    run_findings : ScanOptions → Result ScanError (List Finding)
    run_findings o =
        if o.with_trivy
        then on_error run_error (run_filesystem S M.trivy_json M.trivy o.target default_run_options)
        else ok []

    -- One round over the images.
    check_image : ScanOptions → Policy → Reference → Result ScanError (List Finding)
    check_image o policy r =
        if not (pinned r)
        then ok (unpinned_image_finding (join ", " r.workloads) r.raw ∷ [])
        else do
          verification ← on_error sigstore_error (
              Sigstore.verify M.cosign r
                (record Sigstore.default_options {
                  allow_network = o.sig_network;
                  bundle_path = o.sig_bundle;
                })
                policy (M.file o.sig_bundle).stat)
          ok (
              if verification.verified
              then []
              else signature_failed_finding (join ", " r.workloads) verification.failure_cause ∷ [])

    check_images : ScanOptions → Policy → List Reference → Result ScanError (List Finding)
    unfolding check_image
    check_images o policy [] = ok []
    check_images o policy (r ∷ rs) = do
      findings ← check_image o policy r
      more ← check_images o policy rs
      ok (findings ++ more)

    verify_image_signatures : ScanOptions → List Workload → Result ScanError (List Finding)
    unfolding check_images
    verify_image_signatures o workloads = do
      policy ←
          on_error trust_error
            (Trust.load S M.trust_yaml (M.file o.trust_policy) Trust.default_limits)
      check_images o policy (inventory R S workloads)

    -- The findings, sorted, and the inputs.
    unfoldable pub produce : ScanOptions → Target → Result ScanError (List Finding × List Input)
    unfolding native_findings policy_findings open_findings trivy_findings run_findings
        verify_image_signatures
    produce o t = do
      native ← native_findings t
      (policy, policy_inputs) ← policy_findings o
      (external, external_inputs) ← open_findings o
      enriched ← trivy_findings o
      run ← run_findings o
      signatures ← if o.verify_sigs then verify_image_signatures o t.loaded.workloads else ok []
      ok (
        S.sort finding_order
            (native ++ (policy ++ (external ++ (enriched ++ (run ++ signatures))))),
        t.loaded.inputs ++ (policy_inputs ++ external_inputs),
      )
