-- ===== src/Image.antt =====
-- internal/image/inventory.go: the inventory of images. (internal/image/resolve.go asks registries; it
-- is not modelled.)
pub mod Pinned
pub mod Uses
use Prim.Native.Char.{Char, code}
use Prim.Native.String.{◌∷◌ as cons, [] as empty, ◌++◌ as append, len}
use clusterproof.Prelude.{
  ℕ, String, Bool, true, false, not, ◌&&◌, ◌||◌, Option, none, some, List, [], ◌∷◌, ◌++◌, ◌==◌,
  if◌then◌else◌, leb, nat_eq, map, map_option, Result, ok, err, ◌>>=◌, ◌>>◌, refuse,
}
use clusterproof.Text.Space.{trim_space}
use clusterproof.Text.Search.{
  has_prefix, trim_prefix, contains, contains_any, split_first, split_last, split_text,
}
use clusterproof.Text.Order.{str_lt}
use clusterproof.Maps.{Map, get, put, Ranging}
use clusterproof.Sorting.Interface.{Sorter}
use clusterproof.Sorting.Orders.{by_text}
use clusterproof.Manifest.{Workload, Container, workload_target, all_containers}

pub record Reference : Type 0 where
  pub raw : String
  pub registry : String
  pub repository : String
  pub tag : String
  pub digest : String
  pub workloads : List String

unfoldable pub pinned : Reference → Bool
pinned r = not (r.digest == "")

abbrev pub digest_of : String → Option (String × String) → String × String
digest_of raw none = (raw, "")
digest_of raw (some (before, after)) = (before, append "sha256:" after)

-- The text before the digest, and the digest.
pub cut_digest : String → String × String
cut_digest raw = digest_of raw (split_text "@sha256:" raw)

-- The text before the tag, and the tag: a colon before the last slash belongs to a port.
cut_tag : String → String → String × String
cut_tag rest digest =
    let implicit : String × String = (rest, if digest == "" then "latest" else "") in
    elim (split_last b':' rest) [
      | none ↦ implicit
      | some (before, tag) ↦ if contains tag "/" then implicit else (before, tag)
    ]

abbrev is_host : String → Bool
is_host host = contains_any host ".:" || host == "localhost"

-- The registry and the repository.
cut_registry : String → String × String
cut_registry rest = elim (split_first b'/' rest) [
  | none ↦ ("docker.io", append "library/" rest)
  | some (host, repository) ↦
      if not (host == "") && is_host host then (host, repository) else ("docker.io", rest)
]

pub parse_reference : String → Reference
unfolding cut_digest cut_tag cut_registry
parse_reference raw =
    let (named, digest) = cut_digest raw in
    let (rest, tag) = cut_tag named digest in
    let (registry, repository) = cut_registry rest in
    record {
      raw = raw;
      registry = registry;
      repository = repository;
      tag = tag;
      digest = digest;
      workloads = [];
    }

unfoldable pub dedupe_after : String → List String → List String
dedupe_after previous [] = []
dedupe_after previous (value ∷ values) =
    let rest = dedupe_after value values in if value == previous then rest else value ∷ rest

pub dedupe_sorted : List String → List String
unfolding dedupe_after
dedupe_sorted [] = []
dedupe_sorted (value ∷ values) = value ∷ dedupe_after value values

abbrev or_parsed : String → Option Reference → Reference
or_parsed raw none = parse_reference raw
or_parsed raw (some entry) = entry

-- The body of the inner loop: an entry of the map is shared by reference, so that appending to its
-- workloads changes the map.
pub add_image : Map Reference → String → Container → Map Reference
unfolding parse_reference
add_image by_raw target container =
    let raw = trim_space container.image in
    if raw == ""
    then by_raw
    else let entry = or_parsed raw (get raw by_raw) in
      put raw (record entry { workloads = entry.workloads ++ target ∷ [] }) by_raw

pub add_images : Map Reference → String → List Container → Map Reference
unfolding add_image
add_images by_raw target [] = by_raw
add_images by_raw target (container ∷ containers) =
    add_images (add_image by_raw target container) target containers

pub add_workloads : Map Reference → List Workload → Map Reference
unfolding add_images
add_workloads by_raw [] = by_raw
add_workloads by_raw (workload ∷ workloads) =
    add_workloads (add_images by_raw (workload_target workload) (all_containers workload.pod_spec))
      workloads

module _ (S : Sorter) where
  -- The body of the loop over the map.
  pub finish : String × Reference → Reference
  unfolding dedupe_sorted
  finish (raw, entry) = record entry { workloads = dedupe_sorted (S.sort str_lt entry.workloads) }

module _ (R : Ranging) (S : Sorter) where
  pub inventory : List Workload → List Reference
  unfolding add_workloads finish
  inventory workloads =
      S.sort (by_text (λ r. r.raw)) (map (finish S) (R.range (add_workloads [] workloads)))

pub data DigestError : Type 0 where
  not_sha256 wrong_length not_hex : String → DigestError

abbrev is_hex : Char → Bool
is_hex c = leb 48 (code c) && leb (code c) 57 || leb 97 (code c) && leb (code c) 102

unfoldable pub all_hex : String → Bool
all_hex empty = true
all_hex (cons c s) = is_hex c && all_hex s

unfoldable pub validate_digest : String → Result DigestError (Unit {0})
unfolding all_hex
validate_digest digest = do
  refuse (not (has_prefix digest "sha256:")) (not_sha256 digest)
  refuse (not (nat_eq (len (trim_prefix digest "sha256:")) 64)) (wrong_length digest)
  refuse (not (all_hex (trim_prefix digest "sha256:"))) (not_hex digest)
