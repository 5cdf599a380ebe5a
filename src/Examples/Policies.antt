-- ===== src/Examples/Policies.antt =====
-- The trust policy, the exceptions and the OpenVEX document on small inputs.
use Prim.Native.Char.{nul}
use Prim.Native.String.{◌∷◌ as cons, [] as empty}
use clusterproof.Prelude.{
  ℕ, ◌*◌, ◌≤◌, ◌≡◌, refl, true, false, Option, none, some, List, [], ◌∷◌, ◌==◌, arith, is_none,
  keep_if, filter_map, find_first, map, map_option, count_if, ok, Bool,
}
use mathlib.Core.List.{Perm}
use clusterproof.Sorting.Insertion.{insertion, insertion_sort, insert}
use clusterproof.Sorting.Orders.{IsSorted}
use clusterproof.Text.Chars.{is_control, is_space, to_lower}
use clusterproof.Text.Space.{is_blank, trim_space, trim_left, trim_right, fields, join}
use clusterproof.Text.Search.{has_prefix, contains_any, has_char}
use clusterproof.Time.{day_length}
use clusterproof.Files.{File}
use clusterproof.Trust
use clusterproof.Trust.Valid.{Parsed, parse-Parsed}
use clusterproof.Exception
use clusterproof.Exception.Apply.{covering, suppressions, apply-covering}
use clusterproof.Exception.Expiry.{apply_later}
use clusterproof.Vex
use clusterproof.Vex.Suppression.{speaks_for, suppression_for_first}
use clusterproof.Vex.Apply.{clearing, apply_to_findings-clearing}
use clusterproof.Vex.Justification.{justification_lost, without_justification}
use clusterproof.Model.{Finding}
use clusterproof.Examples.{host_network_finding}

abbrev keyless : Trust.Policy
keyless = record {
  schema_version = "1";
  identities = record { subject = "ci@example.com"; issuer = "https://issuer.example.com" } ∷ [];
  keys = [];
  provenance = none;
  allowed_predicate_types = "https://slsa.dev/provenance/v1" ∷ [];
}

abbrev pub trust_yaml : Trust.Yaml
trust_yaml = record { decode = λ bytes. some keyless; at_end = λ bytes. true }

keyless_parsed : Trust.parse insertion trust_yaml (49 ∷ []) Trust.default_limits ≡ ok keyless
unfolding Trust.parse Trust.validate Trust.check_entries Trust.check_identity Trust.check_key
    Trust.check_predicate Trust.require_text Trust.normalize is_blank trim_space trim_left
    trim_right contains_any has_char has_prefix insertion insertion_sort insert
keyless_parsed = refl

parse-Parsed_example :
    (raw : Trust.Policy) × (some keyless ≡ some raw)
    × Parsed insertion raw keyless Trust.default_limits
parse-Parsed_example =
    parse-Parsed insertion trust_yaml (49 ∷ []) Trust.default_limits keyless keyless_parsed

abbrev waiver : Exception.Exception
waiver = record {
  rule_id = "CP-K8S-002";
  target = "default/Deployment/shop";
  owner = "platform";
  reason = "node agent";
  expires = "2000-03-01";
}

abbrev waiver_yaml : Exception.Yaml
waiver_yaml = record {
  decode = λ bytes. some (record { schema_version = "1"; exceptions = waiver ∷ [] });
  at_end = λ bytes. true;
}

abbrev pub waiver_file : File
waiver_file = record {
  stat = some (record { symlink = false; regular = true; directory = false });
  opened = true;
  content = some (49 ∷ []);
}

abbrev small : Exception.Limits
small = record { max_file_bytes = 10; max_entries = 2; max_text_bytes = 100 }

apply-covering_example :
    ((Exception.apply insertion (host_network_finding ∷ []) (waiver ∷ []) 5).0
      ≡ keep_if (λ f. is_none (covering 5 (waiver ∷ []) f)) (host_network_finding ∷ []))
    × Perm
        (Exception.apply insertion (host_network_finding ∷ []) (waiver ∷ []) 5).1
        (suppressions 5 (waiver ∷ []) (host_network_finding ∷ []))
    × IsSorted Exception.suppressed_order
        (Exception.apply insertion (host_network_finding ∷ []) (waiver ∷ []) 5).1
unfolding has_char
apply-covering_example =
    apply-covering insertion (host_network_finding ∷ []) (waiver ∷ []) 5 ((refl, refl), tt)

abbrev is_high : Finding → Bool
is_high f = f.severity == "high"

apply_later_example :
    count_if is_high (Exception.apply insertion (host_network_finding ∷ []) (waiver ∷ []) 5).0
    ≤ count_if is_high
        (Exception.apply insertion
          (host_network_finding ∷ [])
          (waiver ∷ [])
          (730546 * day_length)).0
apply_later_example =
    apply_later insertion (host_network_finding ∷ []) (waiver ∷ []) 5 (730546 * day_length) is_high
      (omega arith)

abbrev cleared : Vex.Statement
cleared = record {
  vulnerability = "CVE-2024-0001";
  product_purl = "pkg:oci/shop";
  status = "fixed";
  justification = "";
  timestamp = 7;
}

abbrev statements : Vex.Document
statements = record { author = "security"; timestamp = 7; statements = cleared ∷ [] }

abbrev raw_cleared : Vex.RawStatement
raw_cleared = record {
  vulnerability = "CVE-2024-0001";
  products = "pkg:oci/shop" ∷ [];
  status = "Fixed";
  justification = "";
  timestamp = 7;
}

abbrev raw_document : Vex.RawDocument
raw_document = record {
  context = "https://openvex.dev/ns/v0.2.0";
  author = "security";
  timestamp = 7;
  statements = raw_cleared ∷ [];
}

abbrev json : List ℕ → Option Vex.RawDocument
json bytes = some raw_document

suppression_for_first_example :
    Vex.suppression_for statements "CVE-2024-0001" "pkg:oci/shop" 9 5
    ≡ find_first (speaks_for "CVE-2024-0001" "pkg:oci/shop" 9 5) (cleared ∷ [])
suppression_for_first_example =
    suppression_for_first statements "CVE-2024-0001" "pkg:oci/shop" 9 5 (omega arith) (omega arith)

apply_to_findings-clearing_example :
    ((Vex.apply_to_findings insertion statements (host_network_finding ∷ []) 9 5).0
      ≡ keep_if (λ f. is_none (clearing statements 9 5 f)) (host_network_finding ∷ []))
    × Perm (Vex.apply_to_findings insertion statements (host_network_finding ∷ []) 9 5).1 (
        filter_map
          (λ f. map_option (Vex.suppress statements 5 f) (clearing statements 9 5 f))
          (host_network_finding ∷ []))
    × IsSorted Vex.suppressed_order
        (Vex.apply_to_findings insertion statements (host_network_finding ∷ []) 9 5).1
apply_to_findings-clearing_example =
    apply_to_findings-clearing insertion statements (host_network_finding ∷ []) 9 5 (omega arith)
      (omega arith)

abbrev justified : Vex.RawStatement
justified = record raw_cleared { status = "not_affected"; justification = "component_not_present" }

abbrev read_back : Vex.Statement
read_back = record cleared { status = "not_affected"; justification = "component_not_present" }

justified_read : Vex.read_statement 1000 7 1 justified ≡ ok (read_back ∷ [])
unfolding Vex.read_statement Vex.bind_products Vex.clean Vex.clean_from is_blank trim_space
    trim_left trim_right has_prefix to_lower is_control fields join
justified_read = refl

justification_lost_example :
    Vex.read_statement 1000 7 1 (record justified { justification = cons nul empty })
    ≡ ok (map without_justification (read_back ∷ []))
unfolding is_control is_space is_blank trim_space trim_left trim_right
justification_lost_example =
    justification_lost 1000 7 1 justified nul (read_back ∷ []) refl refl (omega arith) refl
      justified_read
