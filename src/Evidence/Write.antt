-- ===== src/Evidence/Write.antt =====
-- internal/evidence/evidence.go: the creation of a bundle, `WriteBundle`. The disk holds the files of the
-- directory, or nothing where there is none; `os.RemoveAll` is taken to succeed, as the source does.
pub mod Filled
pub mod Roundtrip
use clusterproof.Prelude.{
  ℕ, suc, String, Bool, true, false, map_option, not, ◌&&◌, ◌||◌, Option, none, some, List, [], ◌∷◌,
  ◌==◌, if◌then◌else◌, nat_eq, is_none, has_value, length, pos, map, Result, ok, err, ◌>>=◌, ◌>>◌,
  refuse,
}
use clusterproof.Text.Space.{is_blank}
use clusterproof.Maps.{Map, Ranging, get, put}
use clusterproof.Time.{format_instant}
use clusterproof.Sorting.Interface.{Sorter}
use clusterproof.Model.{Report, Input, RulesetReference}
use clusterproof.Rules.Catalog.{Catalog, reference}
use clusterproof.Rules.Catalog.Default.{default_catalog}
use clusterproof.Files.{Stat, File}
use clusterproof.Evidence.{BundleFile, BundleManifest, Directory, Entry, manifest_name}
use clusterproof.Evidence.Controls.{ControlCoverage, build_controls}

pub record Metadata : Type 0 where
  pub schema_version : String
  pub generated_at : String
  pub tool_version : String
  pub target : String
  pub rules : RulesetReference
  pub inputs : List Input
  pub notice : String

-- What the files of a bundle hold.
pub data Content : Type 0 where
  scan_content : Report → Content
  controls_content : ControlCoverage → Content
  metadata_content : Metadata → Content
  catalog_content : Catalog → Content

-- `marshal`, on the contents and on the manifest.
pub record Encoder : Type 0 where
  pub content : Content → Option (List ℕ)
  pub manifest : BundleManifest → Option (List ℕ)

pub data Step : Type 0 where
  create write sync close : Step

-- What the operating system does: whether a directory can be made, and which step of writing a file fails.
pub record Os : Type 0 where
  pub can_make : Bool
  pub failure : String → Option Step

pub data WriteError : Type 0 where
  directory_required cannot_make manifest_not_encoded : WriteError
  other_catalog : RulesetReference → WriteError
  not_encoded : String → WriteError
  not_written : Step → String → WriteError

abbrev pub Tree : Type 0
Tree = Map (List ℕ)

-- `writePrivate`: the file must not exist.
pub write_private : Os → String → List ℕ → Tree → Result WriteError Tree
write_private os name bytes files =
    if not (is_none (get name files))
    then err (not_written create name)
    else elim (os.failure name) [
      | none ↦ ok (put name bytes files)
      | some step ↦ err (not_written step name)
    ]

pub same_ruleset : RulesetReference → RulesetReference → Bool
same_ruleset a b =
    a.id == b.id && a.version == b.version && nat_eq a.rules_evaluated b.rules_evaluated

abbrev or_not_encoded : {A : Type 0} → WriteError → Option A → Result WriteError A
or_not_encoded e none = err e
or_not_encoded e (some a) = ok a

abbrev metadata_of : Report → Metadata
metadata_of scan = record {
  schema_version = scan.schema_version;
  generated_at = format_instant scan.generated_at;
  tool_version = scan.tool_version;
  target = scan.target;
  rules = reference default_catalog;
  inputs = scan.inputs;
  notice = "Technical readiness evidence only; not a SOC 2 audit opinion or certification.";
}

module _ (digest : List ℕ → String) (encoder : Encoder) (os : Os) where
  -- The loop over the names: the files on the disk and their records.
  pub write_files : List (String × Content) → Tree → Result WriteError (List BundleFile × Tree)
  unfolding write_private
  write_files [] files = ok ([], files)
  write_files ((name, content) ∷ contents) files = do
    bytes ← or_not_encoded (not_encoded name) (encoder.content content)
    written ← write_private os name bytes files
    (records, all) ← write_files contents written
    ok (record { path = name; sha256 = digest bytes; bytes = pos (length bytes) } ∷ records, all)

module _ (S : Sorter) (R : Ranging) where
  -- The map `files` at the names in their order.
  pub contents_of : Report → List (String × Content)
  contents_of scan =
      ("controls.json", controls_content (build_controls S R scan.findings default_catalog))
      ∷ ("metadata.json", metadata_content (metadata_of scan))
      ∷ ("ruleset.json", catalog_content default_catalog)
      ∷ ("scan.json", scan_content (record scan { rules = some (reference default_catalog) }))
      ∷ []

  module _ (digest : List ℕ → String) (encoder : Encoder) (os : Os) where
    -- What is done once the directory is there.
    pub fill : Report → Result WriteError Tree
    unfolding write_files same_ruleset contents_of
    fill scan = do
      refuse (has_value (λ rules. not (same_ruleset rules (reference default_catalog))) scan.rules)
          (other_catalog (reference default_catalog))
      (records, files) ← write_files digest encoder os (contents_of scan) []
      bytes ←
          or_not_encoded manifest_not_encoded
            (encoder.manifest (record { algorithm = "SHA-256"; files = records }))
      write_private os manifest_name bytes files

    unfoldable pub write_bundle :
        String → Report → Option Tree → Result WriteError (Unit {0}) × Option Tree
    unfolding fill
    write_bundle directory scan disk =
        if is_blank directory
        then (err directory_required, disk)
        else if not (is_none disk) || not os.can_make
        then (err cannot_make, disk)
        else elim (fill scan) [ ok files ↦ (ok tt, some files) | err e ↦ (err e, none) ]

-- What the operating system answers for a directory of regular files.
abbrev pub size_in : Tree → String → ℕ
size_in files name = elim (get name files) [ none ↦ 0 | some bytes ↦ length bytes ]

abbrev regular_file : Stat
regular_file = record { symlink = false; regular = true; directory = false }

unfoldable pub directory_of : Ranging → Tree → Directory
directory_of R files = record {
  stat = some (record { symlink = false; regular = false; directory = true });
  entries = some (
      R.range
        (map (λ (name, bytes). record { name = name; symlink = false; regular = true }) files));
  file = λ name. record {
    stat = map_option (λ bytes. regular_file) (get name files);
    opened = true;
    content = get name files;
  };
  size = size_in files;
}
