-- ===== src/Rules/Verification.antt =====
-- internal/rules/verification.go: the findings about signatures, whose texts come from the catalog.
use Prim.Native.String.{◌++◌ as append}
use clusterproof.Prelude.{String, Option, none, some, [], ◌∷◌}
use clusterproof.Model.{Severity, severity_medium, severity_high, Location, Evidence, Finding}
use clusterproof.Rules.Catalog.{RuleDefinition, find_rule}
use clusterproof.Rules.Catalog.Default.{default_catalog}

-- `FindRule` returns an empty definition beside `false`.
abbrev or_empty_rule : Option RuleDefinition → RuleDefinition
or_empty_rule none = record {
  id = "";
  title = "";
  category = "";
  description = "";
  remediation = "";
  os = [];
  control_refs = [];
  sources = [];
}
or_empty_rule (some rule) = rule

abbrev no_location : Location
no_location = record { path = ""; document = 0; line = 0; resource = ""; container = "" }

verification_finding : String → Severity → String → Evidence → Finding
unfolding find_rule default_catalog
verification_finding id severity target evidence =
    let definition = or_empty_rule (find_rule default_catalog id) in
    record {
      id = id;
      severity = severity;
      title = definition.title;
      description = definition.description;
      remediation = definition.remediation;
      source = "clusterproof";
      target = target;
      location = no_location;
      evidence = evidence;
      control_refs = definition.control_refs;
      external_refs = ("guidance", "https://docs.sigstore.dev/cosign/verifying/verify/") ∷ [];
    }

pub unpinned_image_finding : String → String → Finding
unfolding verification_finding
unpinned_image_finding target raw_reference =
    verification_finding "CP-SUPPLY-003" severity_medium target (record {
      observed = append "unpinned reference " raw_reference;
      expected = "digest-pinned reference";
    })

pub signature_failed_finding : String → String → Finding
unfolding verification_finding
signature_failed_finding target failure_cause =
    verification_finding "CP-SUPPLY-004" severity_high target
      (record { observed = failure_cause; expected = "signature matching the pinned trust policy" })
