-- ===== src/Command/Options.antt =====
-- cmd/clusterproof/main.go: the arguments of a scan, `parseScanOptions`. The map `valueFlags` pairs the name of
-- each flag with the field that it sets; it is visited in the order of a `Ranging`.
pub mod Deterministic
use Prim.Native.String.{◌++◌ as append}
use clusterproof.Prelude.{
  ℕ, ◌+◌, String, Bool, true, false, not, ◌&&◌, ◌||◌, Option, none, some, List, [], ◌∷◌, ◌==◌,
  if◌then◌else◌, ltb, nat_eq, Result, ok, err, ◌>>=◌, ◌>>◌, refuse, is_ok, first_some,
}
use clusterproof.Text.Search.{has_prefix, trim_prefix}
use clusterproof.Maps.{Ranging}
use clusterproof.Model.{parse_severity}

pub record ScanOptions : Type 0 where
  pub target : String
  pub stdin : Bool
  pub kubeconfig : String
  pub context : String
  pub namespace : String
  pub scopes : String
  pub format : String
  pub output : String
  pub evidence_dir : String
  pub fail_on : String
  pub trivy_json : String
  pub policy_json : String
  pub open_reports : String
  pub exceptions : String
  pub vex_json : String
  pub trust_policy : String
  pub sig_bundle : String
  pub with_trivy : Bool
  pub verify_sigs : Bool
  pub sig_network : Bool

abbrev pub initial_options : ScanOptions
initial_options = record {
  target = "";
  stdin = false;
  kubeconfig = "";
  context = "";
  namespace = "";
  scopes = "";
  format = "table";
  output = "";
  evidence_dir = "";
  fail_on = "";
  trivy_json = "";
  policy_json = "";
  open_reports = "";
  exceptions = "";
  vex_json = "";
  trust_policy = "";
  sig_bundle = "";
  with_trivy = false;
  verify_sigs = false;
  sig_network = false;
}

abbrev pub Flag : Type 0
Flag = String × (String → ScanOptions → ScanOptions)

-- The map `valueFlags`.
abbrev pub value_flags : List Flag
value_flags =
    ("--format", λ v o. record o { format = v })
    ∷ ("--output", λ v o. record o { output = v })
    ∷ ("--evidence-dir", λ v o. record o { evidence_dir = v })
    ∷ ("--fail-on", λ v o. record o { fail_on = v })
    ∷ ("--trivy-json", λ v o. record o { trivy_json = v })
    ∷ ("--policy-report-json", λ v o. record o { policy_json = v })
    ∷ ("--openreports-json", λ v o. record o { open_reports = v })
    ∷ ("--exceptions", λ v o. record o { exceptions = v })
    ∷ ("--vex", λ v o. record o { vex_json = v })
    ∷ ("--trust-policy", λ v o. record o { trust_policy = v })
    ∷ ("--signature-bundle", λ v o. record o { sig_bundle = v })
    ∷ ("--kubeconfig", λ v o. record o { kubeconfig = v })
    ∷ ("--context", λ v o. record o { context = v })
    ∷ ("--namespace", λ v o. record o { namespace = v })
    ∷ ("--cluster-scopes", λ v o. record o { scopes = v })
    ∷ []

pub data OptionError : Type 0 where
  one_path_after_dashes stdin_twice several_paths : OptionError
  requires_value unknown_flag : String → OptionError
  no_target several_targets cluster_only scopes_need_cluster trivy_needs_repository
        with_trivy_needs_path two_trivy_sources :
      OptionError
  policy_required network_needs_verify bundle_needs_verify offline_needs_bundle vex_needs_trivy
        unknown_format :
      OptionError
  bad_severity : String → OptionError

-- What an argument does: it asks for help, is refused, or sets options, with or without the argument behind it.
pub data Action : Type 0 where
  help : Action
  stop : OptionError → Action
  next : ScanOptions → Action
  next_but_one : ScanOptions → Action

-- The body of the loop over `valueFlags`, if the flag matches.
pub flag_action : ScanOptions → String → Option String → Flag → Option Action
flag_action options current following (name, set) =
    if current == name
    then some (elim following [
      | none ↦ stop (requires_value name)
      | some v ↦ next_but_one (set v options)
    ])
    else if has_prefix current (append name "=")
    then some (next (set (trim_prefix current (append name "=")) options))
    else none

-- The loop, which breaks at the first match.
pub first_action : ScanOptions → String → Option String → List Flag → Option Action
unfolding flag_action
first_action options current following = first_some (flag_action options current following)

abbrev dashes_action : ScanOptions → Option String → Action
dashes_action options none = stop one_path_after_dashes
dashes_action options (some v) =
    if not (options.target == "")
    then stop one_path_after_dashes
    else next_but_one (record options { target = v })

-- An argument that is no flag.
abbrev plain_action : ScanOptions → String → Action
plain_action options current =
    if has_prefix current "-"
    then stop (unknown_flag current)
    else if not (options.target == "")
    then stop several_paths
    else next (record options { target = current })

abbrev or_action : Option Action → Action → Action
or_action none action = action
or_action (some action) other = action

-- What follows an action: the end of the loop, its next round, or the round behind that.
pub take_action :
    ScanOptions
    → Action
    → (ScanOptions → Result OptionError (ScanOptions × Bool))
    → (ScanOptions → Result OptionError (ScanOptions × Bool))
    → Result OptionError (ScanOptions × Bool)
take_action options help one two = ok (options, true)
take_action options (stop e) one two = err e
take_action options (next o) one two = one o
take_action options (next_but_one o) one two = two o

module _ (R : Ranging) where
  -- The body of the loop over the arguments; `following` is the argument behind the current one.
  pub step : ScanOptions → String → Option String → Action
  unfolding first_action
  step options current following =
      if current == "-h" || current == "--help"
      then help
      else if current == "--with-trivy"
      then next (record options { with_trivy = true })
      else if current == "--verify-signatures"
      then next (record options { verify_sigs = true })
      else if current == "--allow-signature-network"
      then next (record options { sig_network = true })
      else if current == "--"
      then dashes_action options following
      else if current == "-"
      then (if options.stdin then stop stdin_twice else next (record options { stdin = true }))
      else or_action (first_action options current following (R.range value_flags))
          (plain_action options current)

  -- The loop over the arguments; `true` tells that help is asked for.
  pub read_args : ScanOptions → List String → Result OptionError (ScanOptions × Bool)
  unfolding step
  read_args options [] = ok (options, false)
  read_args options (current ∷ []) =
      take_action options (step options current none) (λ o. ok (o, false)) (λ o. ok (o, false))
  read_args options (current ∷ following ∷ args) =
      take_action options (step options current (some following))
        (λ o. read_args o (following ∷ args)) (λ o. read_args o args)

abbrev pub one_if : Bool → ℕ
one_if true = 1
one_if false = 0

abbrev targets : ScanOptions → ℕ
targets o = one_if (not (o.target == "")) + one_if (not (o.kubeconfig == "")) + one_if o.stdin

-- The checks behind the loop: of the target,
pub check_target : ScanOptions → Result OptionError (Unit {0})
check_target o = do
  refuse (nat_eq (targets o) 0) no_target
  refuse (ltb 1 (targets o)) several_targets
  refuse (o.kubeconfig == "" && (not (o.context == "") || not (o.namespace == ""))) cluster_only
  refuse (not (o.scopes == "") && o.kubeconfig == "") scopes_need_cluster
  refuse (not (o.kubeconfig == "") && (o.with_trivy || not (o.trivy_json == "")))
      trivy_needs_repository
  refuse (o.stdin && o.with_trivy) with_trivy_needs_path
  refuse (not (o.trivy_json == "") && o.with_trivy) two_trivy_sources

-- of the signatures and the VEX document,
pub check_verification : ScanOptions → Result OptionError (Unit {0})
check_verification o = do
  refuse (o.verify_sigs && o.trust_policy == "") policy_required
  refuse (o.sig_network && not o.verify_sigs) network_needs_verify
  refuse (not (o.sig_bundle == "") && not o.verify_sigs) bundle_needs_verify
  refuse (o.verify_sigs && not o.sig_network && o.sig_bundle == "") offline_needs_bundle
  refuse (not (o.vex_json == "") && o.trivy_json == "" && not o.with_trivy) vex_needs_trivy

abbrev pub is_format : String → Bool
is_format format = format == "table" || format == "json" || format == "sarif"

-- and of the format and the threshold.
unfoldable pub check_output : ScanOptions → Result OptionError (Unit {0})
check_output o = do
  refuse (not (is_format o.format)) unknown_format
  refuse (not (o.fail_on == "") && not (is_ok (parse_severity o.fail_on))) (bad_severity o.fail_on)

unfoldable pub check_options : ScanOptions → Result OptionError (Unit {0})
unfolding check_target check_verification check_output
check_options o = do check_target o; check_verification o; check_output o

unfoldable pub parse_scan_options : Ranging → List String → Result OptionError (ScanOptions × Bool)
unfolding read_args check_options
parse_scan_options R args = do
  (options, asks_help) ← read_args R initial_options args
  elim asks_help [
    | true ↦ ok (options, true)
    | false ↦ check_options options >> ok (options, false)
  ]
