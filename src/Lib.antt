-- ===== src/Lib.antt =====
-- ClusterProof: what its assessment of Kubernetes manifests decides, and the theorems that make it
-- right.
--
-- ClusterProof reads manifests or a snapshot of a cluster, runs rules on the workloads, the namespaces,
-- the role bindings and the network policies, takes away the findings that exceptions and OpenVEX
-- documents cover, checks images against a trust policy and SLSA provenance, and compares reports.
--
-- The parts, each named after the package that it models (paths from the repository's root):
--   Model       internal/model/model.go: severities, findings, reports, the totals of `Summarize`.
--   Manifest    internal/manifest/types.go: the normalised objects that the analyses read.
--   Rules       internal/rules: Catalog is catalog.go; Finding, Risks, Pod, Container and Evaluate are
--               rules.go (`evaluatePod`, `evaluateContainer`, `Evaluate` and their helpers); Psa is
--               psa.go; Verification is verification.go. Drift compares findings and catalog.
--   Rbac        internal/rbac/rbac.go: `riskChecks` in Checks, `Analyze` and its helpers.
--   Network     internal/network/network.go: `Analyze`, default denial and exposure.
--   Exception   internal/exception/exception.go: `Load`, `validate` and `Apply`.
--   Vex         internal/vex/vex.go: `Parse`, `SuppressionFor` and `ApplyToFindings`.
--   Trust       internal/trust/trust.go: `Load`, `Parse`, `AllowsPredicate`, `MatchesIdentity`.
--   Image       internal/image/inventory.go: `Inventory`, `parseReference`, `ValidateDigest`.
--   Slsa        internal/slsa/slsa.go: `Verify`, which asks Image and Trust.
--   Compare     internal/compare/compare.go: `Reports`.
--   Cluster     internal/cluster: `ScopeArgs` and `CollectScopes` of scopes.go, and the capped buffers and
--               `topLevelWorkloads` of collector.go.
--   Policyreport, Openreports  internal/policyreport/policyreport.go and internal/openreports/openreports.go:
--               `Load` and `Parse`. Queue is the loop over nested lists that both have.
--   Trivy       internal/trivy: `Parse` of parse.go; Runner is `RunFilesystem` of runner.go.
--   Sigstore    internal/sigstore/sigstore.go: `VerifyArgs`, `runCosign` and `Verify`.
--   Evidence    internal/evidence/evidence.go: `verifyBundleExtra`; Controls is `buildControls`, Write is
--               `WriteBundle`, and Signature is signature.go (`SignBundle`, `VerifySignedBundle`).
--   Command     cmd/clusterproof/main.go: Options is `parseScanOptions`, Machine what a scan meets
--               outside of itself, Scan is `runScan` up to the sorted findings with
--               `verifyImageSignatures`, and Finish the rest of it. It calls most other parts.
--   Examples    the inputs on which the theorems are tried out.
-- Prelude, Text, Sorting, Maps, Time and Files are what the parts share: the language and its
-- standard library as far as the source uses them.
--
-- A Go function keeps its name in snake case. A loop that appends is structural recursion over the
-- list that it ranges over, and its accumulator is an argument. Only the loop over a queue of nested lists
-- runs on fuel: it has as many rounds as there are objects in the document, each of which is taken off the
-- queue once. A method takes its receiver first. A pointer that may be nil is an option; a pair of a
-- value and an error is a result, whose errors are constructors that carry what the messages print.
--
-- What the definitions take as parameters:
--   Sorting.Interface.Sorter: `sort.Slice` and `sort.Strings`. They are not stable, so a sorter only
--     promises a permutation that is sorted where the comparison is a strict weak order.
--     Sorting.Insertion keeps the promise.
--   Maps.Ranging: the order in which `range` visits a map. A map is an association list.
--   The YAML and JSON decoders, and a file: what the operating system answers for it.
--   SHA-256 as a function from bytes to hexadecimal text, the JSON encoder of a bundle, Ed25519 with PEM and
--     the encodings of keys (Evidence.Signature.Crypto), and which steps of writing a file fail.
--   Running kubectl, cosign and Trivy: functions from arguments to what the process comes to.
--   Command.Machine gathers them for a scan, with the times that it reads, the loaders of manifests and
--     what rendering and writing the report come to.
--
-- Conventions: texts are valid UTF-8 and their characters code points; case mapping covers ASCII and
-- the code points that fold into it; an instant is a number of nanoseconds since the year 0; integers
-- that only count are natural numbers, so a limit that is not positive is 0; a negative maximal age is
-- not modelled.
--
-- Not modelled: the loader of manifests and the registry resolver, the conversion of SBOMs, the start of
-- processes with their limits, the rendering of reports, and the commands beside `scan`; `Files` and
-- `loadReport` of the comparison; the texts of a provenance verification and `VerifyFile`.
pub mod Prelude
pub mod Text
pub mod Sorting
pub mod Maps
pub mod Time
pub mod Files
pub mod Model
pub mod Manifest
pub mod Exception
pub mod Vex
pub mod Compare
pub mod Rules
pub mod Rbac
pub mod Network
pub mod Trust
pub mod Image
pub mod Slsa
pub mod Cluster
pub mod Sigstore
pub mod Queue
pub mod Policyreport
pub mod Openreports
pub mod Trivy
pub mod Evidence
pub mod Command
pub mod Examples
