-- ===== src/Image/Pinned.antt =====
-- internal/image/inventory.go and internal/rules/rules.go: both agree on which images are pinned.
use Prim.Native.String.{◌++◌ as append}
use clusterproof.Prelude.{
  String, ◌≡◌, refl, ap, ◌∙◌, true, false, not, Option, none, some, ◌==◌, arith, has_value,
}
use clusterproof.Text.Search.{contains, split_text, has_value-split_text}
use clusterproof.Image.{pinned, parse_reference, cut_digest, digest_of}
use clusterproof.Text.Empty.{append-eq_empty}
use clusterproof.Rules.Container.{is_pinned}

digest-eq_empty : (s : String) → (append "sha256:" s == "") ≡ false
digest-eq_empty s = ground (arith, append-eq_empty "sha256:" s)

digest-parse_reference : (raw : String) → (parse_reference raw).digest ≡ (cut_digest raw).1
unfolding parse_reference
digest-parse_reference raw = refl

digest_of-has_value :
    (raw : String) (o : Option (String × String))
    → not ((digest_of raw o).1 == "") ≡ has_value (λ _. true) o
digest_of-has_value raw none = refl
digest_of-has_value raw (some (before, after)) = ground (arith, digest-eq_empty after)

cut_digest-contains : (raw : String) → not ((cut_digest raw).1 == "") ≡ contains raw "@sha256:"
unfolding cut_digest
cut_digest-contains raw =
    digest_of-has_value raw (split_text "@sha256:" raw) ∙ has_value-split_text "@sha256:" raw

pinned-contains : (raw : String) → pinned (parse_reference raw) ≡ contains raw "@sha256:"
unfolding pinned
pinned-contains raw = ap (λ d. not (d == "")) (digest-parse_reference raw) ∙ cut_digest-contains raw

-- The inventory takes an image for pinned exactly if the rule on unpinned images accepts it, where
-- there is an image at all.
pub pinned-is_pinned :
    (raw : String) → (raw == "") ≡ false → pinned (parse_reference raw) ≡ is_pinned raw
unfolding is_pinned
pinned-is_pinned raw h = ground (arith, pinned-contains raw)
