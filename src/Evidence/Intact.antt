-- ===== src/Evidence/Intact.antt =====
-- What a verified bundle is: the loops of the verification against a description of the whole directory.
use clusterproof.Prelude.{
  Result-cases, ℕ, ◌+◌, String, ◌≡◌, refl, ap, ◌∙◌, Bool, true, false, not, ◌&&◌, ◌||◌, Option,
  none, some, List, [], ◌∷◌, ◌==◌, ltb, leb, nat_eq, any, all, length, map, arith, has_value,
  is_none, ℤ, pos, negsuc, Result, ok, err, ◌>>=◌, ◌>>◌, refuse, is_ok, is_ok-refuse, is_ok-then,
  inl, inr,
}
use clusterproof.Text.Distinct.{is_distinct, is_new, all_new, all_new_at_first}
use clusterproof.Evidence.{
  BundleFile, BundleManifest, BundleError, VerifyLimits, Decoder, read_manifest,
  verify_bundle_extra, Directory, Entry, manifest_name, is_unsafe, is_digest, size_within,
  check_files, check_listing, check_content, check_contents, check_bundle, is_member, is_size,
  extras_in, or_err, cannot_list, wrong_count,
}

abbrev paths : List BundleFile → List String
paths = map (λ f. f.path)

abbrev bytes_of : ℤ → ℕ
bytes_of (pos n) = n
bytes_of (negsuc n) = 0

abbrev total_bytes : List BundleFile → ℕ
total_bytes [] = 0
total_bytes (f ∷ fs) = bytes_of f.bytes + total_bytes fs

-- A record with a plain name, a digest and a size within the limit.
abbrev pub is_proper : ℕ → BundleFile → Bool
is_proper max f =
    not (is_unsafe f.path) && (is_digest f.sha256 && not (is_none (size_within max f.bytes)))

-- A regular entry that is the manifest, an allowed extra file or a recorded one.
abbrev pub is_accounted : List BundleFile → List String → Entry → Bool
is_accounted files extra e =
    e.name == manifest_name
    || ((is_member extra e.name || any (λ f. f.path == e.name) files)
        && not (e.symlink || not e.regular))

-- A regular file that can be read, and whose content has the recorded size and digest.
abbrev pub holds : (List ℕ → String) → Directory → BundleFile → Bool
holds digest d f =
    has_value (λ s. not (s.symlink || not s.regular)) (d.file f.path).stat
    && (is_size f.bytes (d.size f.path)
        && ((d.file f.path).opened
            && has_value (λ bytes. is_size f.bytes (length bytes) && digest bytes == f.sha256)
                (d.file f.path).content))

-- The whole directory.
abbrev pub is_intact :
    (List ℕ → String) → VerifyLimits → List String → Directory → BundleManifest → Bool
is_intact digest limits extra d m =
    (m.algorithm == "SHA-256"
      && (not (nat_eq (length m.files) 0) && leb (length m.files) limits.max_files))
    && ((all (is_proper limits.max_file_bytes) m.files
          && (is_distinct (paths m.files) && leb (total_bytes m.files) limits.max_total_bytes))
        && (has_value
              (λ entries.
                nat_eq (length entries) (length m.files + 1 + extras_in extra entries)
                && all (is_accounted m.files extra) entries)
              d.entries
            && all (holds digest d) m.files))

-- The end of a round: the size, and the rest of the loop.
sized :
    (max cap total : ℕ) (b : ℤ) (bad big : BundleError) (rest : ℕ → Result BundleError (Unit {0}))
    (p : Bool) (more : ℕ)
    → ((n : ℕ) → leb (total + n) cap ≡ true → is_ok (rest n) ≡ (p && leb (total + n + more) cap))
    → is_ok (elim (size_within max b) [
      | none ↦ err bad
      | some n ↦ refuse (ltb cap (total + n)) big >> rest n
    ])
      ≡ (not (is_none (size_within max b)) && (p && leb (total + (bytes_of b + more)) cap))
sized max cap total (negsuc n) bad big rest p more h = refl
sized max cap total (pos n) bad big rest p more h = ground (arith, h n)

regroup :
    (a b c sized proper new again distinct within : Bool)
    → (not a
        && (not b
            && (not (not c)
                && (sized && ((proper && ((new && not again) && distinct)) && within)))))
      ≡ (((not a && (c && sized)) && proper)
          && (((not b && new) && (not again && distinct)) && within))
regroup a b c sized proper new again distinct within = ground arith

and_assoc : (a b c : Bool) → (a && (b && c)) ≡ ((a && b) && c)
and_assoc a b c = ground arith

is_ok-check_files :
    (limits : VerifyLimits) (seen : List String) (total : ℕ) (fs : List BundleFile)
    → leb total limits.max_total_bytes ≡ true
    → is_ok (check_files limits seen total fs) ≡ (
        all (is_proper limits.max_file_bytes) fs
        && ((all (is_new seen) (paths fs) && is_distinct (paths fs))
            && leb (total + total_bytes fs) limits.max_total_bytes))
unfolding check_files is_distinct
is_ok-check_files limits seen total [] h = ground arith
is_ok-check_files limits seen total (f ∷ fs) h =
    is_ok-refuse (is_unsafe f.path) _ _
    ∙ ap (λ b. not (is_unsafe f.path) && b)
        (is_ok-refuse (is_member seen f.path) _ _
          ∙ ap (λ b. not (is_member seen f.path) && b)
              (is_ok-refuse (not (is_digest f.sha256)) _ _
                ∙ ap (λ b. not (not (is_digest f.sha256)) && b)
                    (sized limits.max_file_bytes limits.max_total_bytes total f.bytes _ _
                      (λ n. check_files limits (f.path ∷ seen) (total + n) fs)
                      (all (is_proper limits.max_file_bytes) fs
                        && ((all (is_new seen) (paths fs)
                              && not (any (λ y. f.path == y) (paths fs)))
                            && is_distinct (paths fs)))
                      (total_bytes fs)
                      (λ n within.
                        is_ok-check_files limits (f.path ∷ seen) (total + n) fs within
                        ∙ ap
                            (λ b.
                              all (is_proper limits.max_file_bytes) fs
                              && ((b && is_distinct (paths fs))
                                  && leb (total + n + total_bytes fs) limits.max_total_bytes))
                            (all_new f.path seen (paths fs))
                        ∙ and_assoc (all (is_proper limits.max_file_bytes) fs) _ _))))
    ∙ regroup (is_unsafe f.path) (is_member seen f.path) (is_digest f.sha256)
        (not (is_none (size_within limits.max_file_bytes f.bytes)))
        (all (is_proper limits.max_file_bytes) fs) (all (is_new seen) (paths fs))
        (any (λ y. f.path == y) (paths fs)) (is_distinct (paths fs))
        (leb (total + total_bytes (f ∷ fs)) limits.max_total_bytes)

is_ok-check_listing :
    (files : List BundleFile) (extra : List String) (es : List Entry)
    → is_ok (check_listing files extra es) ≡ all (is_accounted files extra) es
unfolding check_listing
is_ok-check_listing files extra [] = refl
is_ok-check_listing files extra (e ∷ es) = ground (arith, is_ok-check_listing files extra es)

module _ (digest : List ℕ → String) where
  is_ok-check_content :
      (d : Directory) (f : BundleFile) → is_ok (check_content digest d f) ≡ holds digest d f
  unfolding check_content
  is_ok-check_content d f = ground arith

  is_ok-check_contents :
      (d : Directory) (fs : List BundleFile)
      → is_ok (check_contents digest d fs) ≡ all (holds digest d) fs
  unfolding check_contents
  is_ok-check_contents d [] = refl
  is_ok-check_contents d (f ∷ fs) =
      is_ok-then (check_content digest d f) (check_contents digest d fs)
      ∙ ap (λ b. b && is_ok (check_contents digest d fs)) (is_ok-check_content d f)
      ∙ ap (λ b. holds digest d f && b) (is_ok-check_contents d fs)

  is_ok-entries :
      (files : List BundleFile) (extra : List String) (d : Directory) (o : Option (List Entry))
      → is_ok (
          or_err cannot_list o >>= λ entries.
          refuse
            (not (nat_eq (length entries) (length files + 1 + extras_in extra entries)))
            wrong_count
          >> (check_listing files extra entries >> check_contents digest d files))
        ≡ (has_value
              (λ entries.
                nat_eq (length entries) (length files + 1 + extras_in extra entries)
                && all (is_accounted files extra) entries)
              o
            && all (holds digest d) files)
  is_ok-entries files extra d none = refl
  is_ok-entries files extra d (some entries) = ground (
    arith,
    is_ok-then (check_listing files extra entries) (check_contents digest d files),
    is_ok-check_listing files extra entries,
    is_ok-check_contents d files,
  )

  pub is_ok-check_bundle :
      (limits : VerifyLimits) (extra : List String) (d : Directory) (m : BundleManifest)
      → is_ok (check_bundle digest limits extra d m) ≡ is_intact digest limits extra d m
  unfolding check_bundle
  is_ok-check_bundle limits extra d m =
      is_ok-refuse (not (m.algorithm == "SHA-256")) _ _
      ∙ ap (λ b. not (not (m.algorithm == "SHA-256")) && b)
          (is_ok-refuse (nat_eq (length m.files) 0 || ltb limits.max_files (length m.files)) _ _
            ∙ ap
                (λ b. not (nat_eq (length m.files) 0 || ltb limits.max_files (length m.files)) && b)
                (is_ok-then (check_files limits [] 0 m.files) _
                  ∙ ap (λ b. is_ok (check_files limits [] 0 m.files) && b)
                      (is_ok-entries m.files extra d d.entries)))
      ∙ ground (
        arith,
        is_ok-check_files limits [] 0 m.files (ground arith),
        all_new_at_first (paths m.files),
      )

-- A result that is there and passes a test.
abbrev pub ok_and : {E A : Type 0} → (A → Bool) → Result E A → Bool
ok_and p (ok a) = p a
ok_and p (err e) = false

abbrev pub is_directory : Directory → Bool
is_directory d = has_value (λ s. not (s.symlink || not s.directory)) d.stat

abbrev positive : VerifyLimits → Bool
positive limits =
    ltb 0 limits.max_manifest_bytes
    && (ltb 0 limits.max_files && (ltb 0 limits.max_file_bytes && ltb 0 limits.max_total_bytes))

-- A bundle is verified exactly if the limits are positive, it is a directory with a readable manifest, and
-- the whole directory is as the manifest says: records with plain names, digests and sizes, no name twice, a
-- total within the limit; entries that are regular and accounted for, in the right number; and files that
-- have the recorded size and digest.
pub verify_bundle_extra-intact :
    (digest : List ℕ → String) (json : Decoder BundleManifest) (limits : VerifyLimits)
    (extra : List String) (d : Directory)
    → is_ok (verify_bundle_extra digest json limits extra d) ≡ (
        positive limits
        && (is_directory d
            && ok_and (is_intact digest limits extra d) (read_manifest json limits d)))
unfolding verify_bundle_extra
verify_bundle_extra-intact digest json limits extra d =
    elim (Result-cases (read_manifest json limits d)) [
      | inl (m, read) ↦ ground (arith, read, is_ok-check_bundle digest limits extra d m)
      | inr (e, unread) ↦ ground (arith, unread)
    ]
