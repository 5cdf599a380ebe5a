-- ===== src/Examples/Images.antt =====
-- The inventory of images and a provenance statement.
use clusterproof.Prelude.{
  ℕ, ◌≡◌, refl, Option, none, some, List, [], ◌∷◌, ◌==◌, ◌&&◌, arith, any, ok,
}
use clusterproof.Sorting.Insertion.{insertion}
use clusterproof.Manifest.{workload_target}
use clusterproof.Text.Search.{has_prefix, drop_prefix, trim_prefix}
use clusterproof.Rules.Risks.{elem}
use clusterproof.Rules.Container.{is_pinned}
use clusterproof.Trust.{Policy}
use clusterproof.Image.{Reference, pinned, parse_reference, inventory, validate_digest, all_hex}
use clusterproof.Image.Pinned.{pinned-is_pinned}
use clusterproof.Image.Uses.{uses_image, inventory-uses}
use clusterproof.Slsa.{Statement, verify, default_limits}
use clusterproof.Slsa.Verified.{vouches, is_verified, vouches-verify}
use clusterproof.Examples.{in_order, shop}

inventory-uses_example :
    any
      (λ r. r.raw == "nginx:latest" && elem "default/Deployment/shop" r.workloads)
      (inventory in_order insertion (shop ∷ []))
    ≡ any
        (λ w. uses_image "nginx:latest" w && workload_target w == "default/Deployment/shop")
        (shop ∷ [])
inventory-uses_example =
    inventory-uses in_order insertion "nginx:latest" "default/Deployment/shop" (shop ∷ [])

pinned-is_pinned_example : pinned (parse_reference "nginx:latest") ≡ is_pinned "nginx:latest"
pinned-is_pinned_example = pinned-is_pinned "nginx:latest" refl

abbrev shop_image : Reference
shop_image = record {
  raw = "shop@sha256:0123456789abcdef0123456789abcdef0123456789abcdef0123456789abcdef";
  registry = "docker.io";
  repository = "library/shop";
  tag = "";
  digest = "sha256:0123456789abcdef0123456789abcdef0123456789abcdef0123456789abcdef";
  workloads = [];
}

abbrev built : Statement
built = record {
  type = "https://in-toto.io/Statement/v1";
  subject =
      record {
        name = "shop";
        digest =
            ("sha256", "0123456789abcdef0123456789abcdef0123456789abcdef0123456789abcdef") ∷ [];
      }
      ∷ [];
  predicate_type = "https://slsa.dev/provenance/v1";
  resolved_dependencies =
      record { uri = "git+https://example.com/shop@refs/heads/main"; digest = [] } ∷ [];
  builder_id = "https://example.com/builder";
}

abbrev pins : Policy
pins = record {
  schema_version = "1";
  identities = [];
  keys = [];
  provenance = some (record {
    builder_id = "https://example.com/builder";
    source_repository = "git+https://example.com/shop";
  });
  allowed_predicate_types = "https://slsa.dev/provenance/v1" ∷ [];
}

-- A decoder that knows one document.
abbrev decode : List ℕ → Option Statement
decode [] = none
decode (b ∷ bytes) = some built

well_formed : validate_digest shop_image.digest ≡ ok tt
unfolding validate_digest all_hex has_prefix drop_prefix trim_prefix
well_formed = refl

vouches-verify_example :
    is_verified (verify decode (some (123 ∷ [])) shop_image pins default_limits)
    ≡ vouches shop_image pins default_limits built
unfolding pinned
vouches-verify_example =
    vouches-verify decode (123 ∷ []) shop_image pins default_limits built refl refl (omega arith)
      refl refl well_formed
