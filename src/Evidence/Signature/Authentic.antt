-- ===== src/Evidence/Signature/Authentic.antt =====
-- What a verified signature vouches for.
use clusterproof.Prelude.{
  ℕ, String, ◌≡◌, refl, sym, ap, ◌∙◌, Bool, true, not, ◌&&◌, Option, none, some, List, [], ◌∷◌,
  nat_eq, length, arith, Result, ok, err, ◌>>=◌, ◌>>◌, refuse, refuse-eq-ok, >>=-eq-ok, is_ok,
  Bool-cases, Option-cases, Result-cases, inl, inr,
}
use clusterproof.Files.{File, FileError, read_regular}
use clusterproof.Evidence.{
  BundleManifest, BundleError, Decoder, Directory, default_verify_limits, manifest_name,
  read_manifest, verify_bundle_extra,
}
use clusterproof.Evidence.Intact.{is_intact, ok_and, is_directory, verify_bundle_extra-intact}
use clusterproof.Evidence.Signature.{
  Crypto, SignatureEnvelope, SignatureError, VerificationState, signature_verified,
  integrity_verified, signature_file_name, is_signed, check_signature, load_public_key,
  parse_public_key_pem, scan_hex, different_key, wrong_size, not_verified, load_signature_envelope,
  verify_bundle_allowing_signature, verify_signed_bundle, or_bundle, or_file, or_err,
  malformed_signature,
}

-- The key vouches for the manifest bytes, and the directory is as the manifest says.
pub record Authentic (digest : List ℕ → String) (json : Decoder BundleManifest) (C : Crypto)
    (d : Directory) (key : Option File) : Type 0 where
  pub key_file : File
  pub pinned : key ≡ some key_file
  pub public_key : C.PublicKey
  pub loaded : load_public_key C key_file ≡ ok public_key
  pub bytes : List ℕ
  pub read : read_regular (d.file manifest_name) default_verify_limits.max_manifest_bytes ≡ ok bytes
  pub signature : List ℕ
  pub verified : C.verify public_key bytes signature ≡ true
  pub manifest : BundleManifest
  pub decoded : json.decode bytes ≡ some manifest
  pub intact : is_intact digest default_verify_limits (signature_file_name ∷ []) d manifest ≡ true

last_conjunct : (a b : Bool) → (a && b) ≡ true → b ≡ true
last_conjunct a b h = ground arith

or_bundle-ok : {A : Type 0} (r : Result BundleError A) {a : A} → or_bundle r ≡ ok a → r ≡ ok a
or_bundle-ok (ok a) h = ground (arith, h)
or_bundle-ok (err e) h = cc

or_file-ok : {A : Type 0} (r : Result FileError A) {a : A} → or_file r ≡ ok a → r ≡ ok a
or_file-ok (ok a) h = ground (arith, h)
or_file-ok (err e) h = cc

read_manifest-ok :
    (json : Decoder BundleManifest) (d : Directory) {bytes : List ℕ} {m : BundleManifest}
    → read_regular (d.file manifest_name) default_verify_limits.max_manifest_bytes ≡ ok bytes
    → read_manifest json default_verify_limits d ≡ ok m
    → json.decode bytes ≡ some m
unfolding read_manifest
read_manifest-ok json d {bytes} read h = elim (Option-cases (json.decode bytes)) [
  | inl missing ↦ absurd (ground (arith, read, h, missing))
  | inr (m, found) ↦ ground (arith, read, h, found)
]

module _ (digest : List ℕ → String) (json : Decoder BundleManifest) (C : Crypto)
    (envelope_json : Decoder SignatureEnvelope) where
  check_signature-ok :
      (d : Directory) (expected : C.PublicKey) (envelope : SignatureEnvelope) {u : Unit {0}}
      → check_signature digest json C envelope_json d expected envelope ≡ ok u
      → (bytes : List ℕ) × (read_regular
            (d.file manifest_name)
            default_verify_limits.max_manifest_bytes
          ≡ ok bytes)
        × (signature : List ℕ) × (C.verify expected bytes signature ≡ true)
  unfolding check_signature
  check_signature-ok d expected envelope h =
      let (embedded, _, h₁) = >>=-eq-ok (parse_public_key_pem C envelope.public_key_pem) _ h in
      let (_, _, h₂) = >>=-eq-ok (refuse (not (C.same_key expected embedded)) different_key) _ h₁ in
      let (bytes, read, h₃) =
        >>=-eq-ok
          (or_file (read_regular (d.file manifest_name) default_verify_limits.max_manifest_bytes)) _
          h₂ in
      let (signature, _, h₄) =
        >>=-eq-ok (or_err malformed_signature (scan_hex envelope.signature)) _ h₃ in
      let (_, _, h₅) = >>=-eq-ok (refuse (not (nat_eq (length signature) 64)) wrong_size) _ h₄ in
      (
        bytes,
        or_file-ok _ read,
        signature,
        ground (arith, refuse-eq-ok (not (C.verify expected bytes signature)) not_verified h₅),
      )

  -- The manifest of an intact bundle is the one that the signature covers.
  manifest-of_intact :
      (d : Directory) {u : Unit {0}}
      → verify_bundle_extra digest json default_verify_limits (signature_file_name ∷ []) d ≡ ok u
      → (bytes : List ℕ)
      → read_regular (d.file manifest_name) default_verify_limits.max_manifest_bytes ≡ ok bytes
      → (m : BundleManifest) × (json.decode bytes ≡ some m)
        × (is_intact digest default_verify_limits (signature_file_name ∷ []) d m ≡ true)
  manifest-of_intact d h bytes read =
      let whole =
        sym (
          verify_bundle_extra-intact digest json default_verify_limits (signature_file_name ∷ []) d)
        ∙ ap is_ok h in
      elim (Result-cases (read_manifest json default_verify_limits d)) [
        | inl (m, found) ↦ (
          m,
          read_manifest-ok json d read found,
          last_conjunct (is_directory d) _ (
              sym (
                ap
                  (λ r.
                    is_directory d
                    && ok_and (is_intact digest default_verify_limits (signature_file_name ∷ []) d)
                        r)
                  found)
              ∙ whole),
        )
        | inr (e, unread) ↦ absurd (ground (arith, unread, whole))
      ]

  extra_allowed :
      (d : Directory) {u : Unit {0}}
      → is_signed d ≡ true
      → verify_bundle_allowing_signature digest json d (is_signed d) ≡ ok u
      → verify_bundle_extra digest json default_verify_limits (signature_file_name ∷ []) d ≡ ok u
  unfolding verify_bundle_allowing_signature
  extra_allowed d signed h = rw signed at h

  -- What follows the check of the bundle.
  abbrev with_key : Directory → Option File → Result SignatureError (VerificationState × String)
  with_key d key =
      load_signature_envelope envelope_json (d.file signature_file_name) >>= λ envelope. elim key [
        | none ↦ ok (integrity_verified, envelope.signer_id)
        | some f ↦ load_public_key C f >>= λ expected.
            check_signature digest json C envelope_json d expected envelope
            >> ok (signature_verified, envelope.signer_id)
      ]

  pinned :
      (d : Directory) (key : Option File) (signer : String) {u : Unit {0}}
      → verify_bundle_extra digest json default_verify_limits (signature_file_name ∷ []) d ≡ ok u
      → with_key d key ≡ ok (signature_verified, signer)
      → Authentic digest json C d key
  pinned d none signer whole h =
      let (envelope, _, h₁) =
        >>=-eq-ok (load_signature_envelope envelope_json (d.file signature_file_name)) _ h in
      absurd (ground (arith, h₁))
  pinned d (some f) signer whole h =
      let (envelope, _, h₁) =
        >>=-eq-ok (load_signature_envelope envelope_json (d.file signature_file_name)) _ h in
      let (expected, loaded, h₂) = >>=-eq-ok (load_public_key C f) _ h₁ in
      let (_, checked, _) =
        >>=-eq-ok (check_signature digest json C envelope_json d expected envelope) _ h₂ in
      let (bytes, read, signature, verified) = check_signature-ok d expected envelope checked in
      let (m, decoded, intact) = manifest-of_intact d whole bytes read in
      record {
        key_file = f;
        pinned = refl;
        public_key = expected;
        loaded = loaded;
        bytes = bytes;
        read = read;
        signature = signature;
        verified = verified;
        manifest = m;
        decoded = decoded;
        intact = intact;
      }

  -- A bundle is reported as signed only if a key is pinned, this key verifies a signature of the manifest's
  -- bytes, and the directory is exactly as that manifest says.
  pub verify_signed_bundle-Authentic :
      (d : Directory) (key : Option File) (signer : String)
      → verify_signed_bundle digest json C envelope_json d key ≡ ok (signature_verified, signer)
      → Authentic digest json C d key
  unfolding verify_signed_bundle
  verify_signed_bundle-Authentic d key signer h =
      let (_, whole, h₁) =
        >>=-eq-ok (or_bundle (verify_bundle_allowing_signature digest json d (is_signed d))) _ h in
      elim (Bool-cases (is_signed d)) [
        | inr unsigned ↦ absurd (ground (arith, unsigned, h₁))
        | inl signed ↦
            pinned d key signer (extra_allowed d signed (or_bundle-ok _ whole)) (rw signed at h₁)
      ]
