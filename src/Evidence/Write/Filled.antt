-- ===== src/Evidence/Write/Filled.antt =====
-- What a successful `fill` leaves in the new directory.
use clusterproof.Prelude.{
  refuse-then-ok, ℕ, String, ◌≡◌, sym, ap, ◌∙◌, subst, not, Option, none, some, List, [], ◌∷◌,
  has_value, length, pos, arith, ok, >>=-eq-ok,
}
use clusterproof.Maps.{Ranging, put}
use clusterproof.Sorting.Interface.{Sorter}
use clusterproof.Model.{Report}
use clusterproof.Rules.Catalog.{reference}
use clusterproof.Rules.Catalog.Default.{default_catalog}
use clusterproof.Evidence.{BundleFile, BundleManifest, manifest_name}
use clusterproof.Evidence.Write.{
  Content, Encoder, Os, Tree, WriteError, write_private, contents_of, write_files, fill,
  or_not_encoded, same_ruleset, manifest_not_encoded,
}

write_private-ok :
    (os : Os) (name : String) (bytes : List ℕ) (files : Tree) {all : Tree}
    → write_private os name bytes files ≡ ok all
    → put name bytes files ≡ all
unfolding write_private
write_private-ok os name bytes files h = ground (arith, h)

or_not_encoded-ok :
    {A : Type 0} (e : WriteError) (o : Option A) {a : A} → or_not_encoded e o ≡ ok a → o ≡ some a
or_not_encoded-ok e none h = cc
or_not_encoded-ok e (some b) h = cc

-- The five files in the order in which they are written.
abbrev pub tree : List ℕ → List ℕ → List ℕ → List ℕ → List ℕ → Tree
tree a b c d m =
    ("controls.json", a)
    ∷ ("metadata.json", b)
    ∷ ("ruleset.json", c)
    ∷ ("scan.json", d)
    ∷ (manifest_name, m)
    ∷ []

module _ (digest : List ℕ → String) where
  abbrev pub recording : String → List ℕ → BundleFile
  recording name bytes = record { path = name; sha256 = digest bytes; bytes = pos (length bytes) }

  abbrev pub manifest_of : List ℕ → List ℕ → List ℕ → List ℕ → BundleManifest
  manifest_of a b c d = record {
    algorithm = "SHA-256";
    files =
        recording "controls.json" a
        ∷ recording "metadata.json" b
        ∷ recording "ruleset.json" c
        ∷ recording "scan.json" d
        ∷ [];
  }

  module _ (encoder : Encoder) (os : Os) where
    write_files-cons :
        (name : String) (content : Content) (contents : List (String × Content)) (files : Tree)
        {records : List BundleFile} {all : Tree}
        → write_files digest encoder os ((name, content) ∷ contents) files ≡ ok (records, all)
        → (bytes : List ℕ) × (rest : List BundleFile) × (recording name bytes ∷ rest ≡ records)
          × (write_files digest encoder os contents (put name bytes files) ≡ ok (rest, all))
    unfolding write_files
    write_files-cons name content contents files {records} {all} h =
        let (bytes, encoded, h₁) =
          >>=-eq-ok (or_not_encoded (WriteError.not_encoded name) (encoder.content content)) _ h in
        let (written, put_there, h₂) = >>=-eq-ok (write_private os name bytes files) _ h₁ in
        let ((rest, all_files), others, h₃) =
          >>=-eq-ok (write_files digest encoder os contents written) _ h₂ in
        (
          bytes,
          rest,
          ground (arith, h₃),
          subst (λ (w : Tree). write_files digest encoder os contents w ≡ ok (rest, all))
              (sym (write_private-ok os name bytes files put_there)) (cc (others, h₃)),
        )

    write_files-nil :
        (files : Tree) {records : List BundleFile} {all : Tree}
        → write_files digest encoder os [] files ≡ ok (records, all)
        → ([] ≡ records) × (files ≡ all)
    unfolding write_files
    write_files-nil files h = ground (arith, h)

    write_files-four :
        (w x y z : Content) {records : List BundleFile} {all : Tree}
        → write_files digest encoder os
            (("controls.json", w)
              ∷ ("metadata.json", x)
              ∷ ("ruleset.json", y)
              ∷ ("scan.json", z)
              ∷ [])
            []
          ≡ ok (records, all)
        → (a b c d : List ℕ) × ((manifest_of a b c d).files ≡ records)
          × (("controls.json", a)
                ∷ ("metadata.json", b)
                ∷ ("ruleset.json", c)
                ∷ ("scan.json", d)
                ∷ []
              ≡ all)
    unfolding put
    write_files-four w x y z wrote =
        let (a, r₁, e₁, w₁) = write_files-cons "controls.json" w _ [] wrote in
        let (b, r₂, e₂, w₂) = write_files-cons "metadata.json" x _ _ w₁ in
        let (c, r₃, e₃, w₃) = write_files-cons "ruleset.json" y _ _ w₂ in
        let (d, r₄, e₄, w₄) = write_files-cons "scan.json" z [] _ w₃ in
        let (e₅, w₅) = write_files-nil _ w₄ in (a, b, c, d, cc, w₅)

  module _ (S : Sorter) (R : Ranging) (encoder : Encoder) (os : Os) where
    -- What a successful `fill` leaves on the disk.
    pub fill-ok :
        (scan : Report) {files : Tree}
        → fill S R digest encoder os scan ≡ ok files
        → (a b c d m : List ℕ) × (encoder.manifest (manifest_of a b c d) ≡ some m)
          × (tree a b c d m ≡ files)
    unfolding fill contents_of put
    fill-ok scan h =
        let h₀ =
          refuse-then-ok
            (has_value (λ rules. not (same_ruleset rules (reference default_catalog))) scan.rules) _
            _ h in
        let ((records, written), wrote, h₁) =
          >>=-eq-ok (write_files digest encoder os (contents_of S R scan) []) _ h₀ in
        let (a, b, c, d, same, there) = write_files-four encoder os _ _ _ _ wrote in
        let (m, encoded, h₂) =
          >>=-eq-ok
            (or_not_encoded manifest_not_encoded
              (encoder.manifest (record { algorithm = "SHA-256"; files = records })))
            _ h₁ in
        (
          a,
          b,
          c,
          d,
          m,
          subst (λ rs. encoder.manifest (record { algorithm = "SHA-256"; files = rs }) ≡ some m)
              (sym same) (or_not_encoded-ok _ _ encoded),
          ap (put manifest_name m) there ∙ write_private-ok os manifest_name m written h₂,
        )
