-- ===== src/Evidence/Write/Roundtrip.antt =====
-- A bundle that was written is verified.
use clusterproof.Prelude.{
  some-inj, All, ok-of-is_ok, ℕ, ◌+◌, ◌≤◌, String, ◌≡◌, refl, sym, ap, ◌∙◌, subst, Bool, true,
  false, not, ◌&&◌, ◌||◌, Option, none, some, List, [], ◌∷◌, if◌then◌else◌, nat_eq, is_none,
  has_value, length, map, all, arith, eq_refl, Result, ok, err, is_ok,
}
use clusterproof.Maps.{Ranging, get}
use clusterproof.Text.Space.{is_blank}
use clusterproof.Text.Distinct.{is_distinct}
use clusterproof.Sorting.Interface.{Sorter}
use clusterproof.Sorting.Counts.{all-perm, length-perm, count_if-perm}
use clusterproof.Model.{Report}
use clusterproof.Files.{read_bounded_all, read_regular}
use clusterproof.Evidence.{
  BundleManifest, Decoder, Entry, default_verify_limits, manifest_name, is_digest, is_unsafe,
  verify_bundle, verify_bundle_extra, read_manifest, extras_in, is_member,
}
use clusterproof.Evidence.Intact.{is_intact, is_proper, is_accounted, holds, is_ok-check_bundle}
use clusterproof.Evidence.Write.Filled.{tree, recording, manifest_of, fill-ok}
use clusterproof.Evidence.Write.{
  Encoder, Os, Tree, WriteError, directory_required, cannot_make, fill, write_bundle, directory_of,
  size_in,
}

-- The files that a bundle records.
abbrev recorded : List String
recorded = "controls.json" ∷ "metadata.json" ∷ "ruleset.json" ∷ "scan.json" ∷ []

abbrev sum_of : Tree → List String → ℕ
sum_of files [] = 0
sum_of files (name ∷ names) = size_in files name + sum_of files names

-- The limits of the verification, on a tree.
abbrev pub Fits : Tree → Type 0
Fits files =
    (size_in files manifest_name ≤ default_verify_limits.max_manifest_bytes)
    × All (λ name. size_in files name ≤ default_verify_limits.max_file_bytes) recorded
    × (sum_of files recorded ≤ default_verify_limits.max_total_bytes)

-- The decoder reads what the encoder writes.
abbrev pub Inverse : Encoder → Decoder BundleManifest → Type 0
Inverse encoder json =
    (m : BundleManifest) (bytes : List ℕ)
    → encoder.manifest m ≡ some bytes
    → (json.decode bytes ≡ some m) × (json.at_end bytes ≡ true)

module _ (digest : List ℕ → String) where
  -- Such a tree is a bundle.
  module _ (R : Ranging)
      (is_digest_digest : (bytes : List ℕ) → is_digest (digest bytes) ≡ true) where
    recording_proper :
        (name : String) (bytes : List ℕ)
        → is_unsafe name ≡ false
        → length bytes ≤ default_verify_limits.max_file_bytes
        → is_proper default_verify_limits.max_file_bytes (recording digest name bytes) ≡ true
    recording_proper name bytes safe small = ground (arith, is_digest_digest bytes)

    tree_proper :
        (a b c d m : List ℕ)
        → Fits (tree a b c d m)
        → all (is_proper default_verify_limits.max_file_bytes) (manifest_of digest a b c d).files
          ≡ true
    unfolding is_unsafe get
    tree_proper a b c d m fits = ground (
      arith,
      recording_proper "controls.json" a refl (fits.1.0),
      recording_proper "metadata.json" b refl (fits.1.1.0),
      recording_proper "ruleset.json" c refl (fits.1.1.1.0),
      recording_proper "scan.json" d refl (fits.1.1.1.1.0),
    )

    entry_of : String → Entry
    entry_of name = record { name = name; symlink = false; regular = true }

    tree_listed :
        (a b c d m : List ℕ)
        → has_value
            (λ entries.
              nat_eq
                (length entries)
                (length (manifest_of digest a b c d).files + 1 + extras_in [] entries)
              && all (is_accounted (manifest_of digest a b c d).files []) entries)
            (directory_of R (tree a b c d m)).entries
          ≡ true
    unfolding directory_of
    tree_listed a b c d m =
        let listing : List Entry =
          map (λ (name, bytes). record { name = name; symlink = false; regular = true })
            (tree a b c d m) in
        ground (
          arith,
          length-perm (R.range_perm listing),
          all-perm (is_accounted (manifest_of digest a b c d).files []) (R.range_perm listing),
          count_if-perm (λ (e : Entry). is_member [] e.name) (R.range_perm listing),
        )

    tree-holds :
        (a b c d m : List ℕ)
        → all (holds digest (directory_of R (tree a b c d m))) (manifest_of digest a b c d).files
          ≡ true
    unfolding directory_of get
    tree-holds a b c d m =
        ground
          (arith, eq_refl (digest a), eq_refl (digest b), eq_refl (digest c), eq_refl (digest d))

    tree_intact :
        (a b c d m : List ℕ)
        → Fits (tree a b c d m)
        → is_intact digest default_verify_limits []
            (directory_of R (tree a b c d m))
            (manifest_of digest a b c d)
          ≡ true
    unfolding is_distinct get
    tree_intact a b c d m fits =
        ground (arith, tree_proper a b c d m fits, tree_listed a b c d m, tree-holds a b c d m)

    -- And its manifest can be read.
    tree_manifest :
        (encoder : Encoder) (json : Decoder BundleManifest) (a b c d m : List ℕ)
        → Inverse encoder json
        → encoder.manifest (manifest_of digest a b c d) ≡ some m
        → Fits (tree a b c d m)
        → read_manifest json default_verify_limits (directory_of R (tree a b c d m))
          ≡ ok (manifest_of digest a b c d)
    unfolding read_manifest read_regular directory_of get
    tree_manifest encoder json a b c d m inverse encoded fits = ground (
      arith,
      inverse (manifest_of digest a b c d) m encoded,
      read_bounded_all m default_verify_limits.max_manifest_bytes,
    )

    tree_verified :
        (encoder : Encoder) (json : Decoder BundleManifest) (a b c d m : List ℕ)
        → Inverse encoder json
        → encoder.manifest (manifest_of digest a b c d) ≡ some m
        → Fits (tree a b c d m)
        → is_ok (verify_bundle digest json (directory_of R (tree a b c d m))) ≡ true
    unfolding verify_bundle verify_bundle_extra directory_of
    tree_verified encoder json a b c d m inverse encoded fits = ground (
      arith,
      tree_manifest encoder json a b c d m inverse encoded fits,
      is_ok-check_bundle digest default_verify_limits [] (directory_of R (tree a b c d m))
          (manifest_of digest a b c d),
      tree_intact a b c d m fits,
    )

-- The disk before and after, where filling the new directory gives `filled`.
outcome :
    (blank can_make : Bool) (disk : Option Tree) (filled : Result WriteError Tree)
    → let after : Result WriteError (Unit {0}) × Option Tree =
        if blank
        then (err directory_required, disk)
        else if not (is_none disk) || not can_make
        then (err cannot_make, disk)
        else elim filled [ ok files ↦ (ok tt, some files) | err e ↦ (err e, none) ] in
      (after.0 ≡ ok tt
        → (files : Tree) × (disk ≡ none) × (after.1 ≡ some files) × (filled ≡ ok files))
      × ((e : WriteError) → after.0 ≡ err e → after.1 ≡ disk)
outcome true can_make disk filled = (λ h. absurd (ground (arith, h)), λ e h. refl)
outcome false true (some files) filled = (λ h. absurd (ground (arith, h)), λ e h. refl)
outcome false false (some files) filled = (λ h. absurd (ground (arith, h)), λ e h. refl)
outcome false false none filled = (λ h. absurd (ground (arith, h)), λ e h. refl)
outcome false true none (ok files) =
    (λ h. (files, refl, refl, refl), λ e h. absurd (ground (arith, h)))
outcome false true none (err problem) = (λ h. absurd (ground (arith, h)), λ e h. refl)

-- Where `write_bundle` fails, the disk is as it was.
write_bundle-error :
    (S : Sorter) (R : Ranging) (digest : List ℕ → String) (encoder : Encoder) (os : Os)
    (directory : String) (scan : Report) (disk : Option Tree) (e : WriteError)
    → (write_bundle S R digest encoder os directory scan disk).0 ≡ err e
    → (write_bundle S R digest encoder os directory scan disk).1 ≡ disk
unfolding write_bundle
write_bundle-error S R digest encoder os directory scan disk e h =
    (outcome (is_blank directory) os.can_make disk (fill S R digest encoder os scan)).1 e h

-- Where `write_bundle` succeeds, there was no directory before, and the one that it leaves is verified,
-- whatever the order in which the directory is listed, if its files are within the limits of the
-- verification. The decoder reads what the encoder wrote, and the text of a digest is 64 hexadecimal digits
-- in lower case.
pub verify_bundle-write_bundle :
    (S : Sorter) (R T : Ranging) (digest : List ℕ → String) (encoder : Encoder) (os : Os)
    (json : Decoder BundleManifest) (directory : String) (scan : Report) (disk : Option Tree)
    (files : Tree)
    → ((bytes : List ℕ) → is_digest (digest bytes) ≡ true)
    → Inverse encoder json
    → write_bundle S R digest encoder os directory scan disk ≡ (ok tt, some files)
    → Fits files
    → (disk ≡ none) × (verify_bundle digest json (directory_of T files) ≡ ok tt)
unfolding write_bundle
verify_bundle-write_bundle S R T digest encoder os json directory scan disk files good inverse h
      fits =
    let done =
      (outcome (is_blank directory) os.can_make disk (fill S R digest encoder os scan)).0 in
    let (made, fresh, left, filled) = done (ap (λ after. after.0) h) in
    let (a, b, c, d, m, encoded, there) = fill-ok digest S R encoder os scan filled in
    let same : made ≡ files = some-inj (sym left ∙ ap (λ after. after.1) h) in
    let held : tree a b c d m ≡ files = there ∙ same in
    (
      fresh,
      subst (λ (w : Tree). verify_bundle digest json (directory_of T w) ≡ ok tt) held
          (ok-of-is_ok _ (
            tree_verified digest T good encoder json a b c d m inverse encoded
              (subst Fits (sym held) fits))),
    )
