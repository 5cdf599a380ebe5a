-- ===== src/Evidence/Signature.antt =====
-- internal/evidence/signature.go: the signature of a bundle, `SignBundle` and `VerifySignedBundle`. Ed25519,
-- PEM and the encodings of keys are a parameter. An error stands for the state `StateUnverified`.
pub mod Authentic
use Prim.Native.Char.{Char, code}
use Prim.Native.String.{◌∷◌ as cons, [] as empty, len}
use clusterproof.Prelude.{
  ℕ, ◌+◌, ◌*◌, ◌/◌, ◌%◌, String, ◌≡◌, refl, Bool, true, false, not, ◌&&◌, ◌||◌, Option, none, some,
  List, [], ◌∷◌, ◌==◌, if◌then◌else◌, ltb, nat_eq, is_none, length, Result, ok, err, ◌>>=◌, ◌>>◌,
  refuse,
}
use clusterproof.Text.Chars.{is_space}
use clusterproof.Text.Space.{is_blank}
use clusterproof.Text.Search.{contains_any}
use clusterproof.Files.{File, FileError, read_regular}
use clusterproof.Evidence.{
  BundleManifest, BundleError, Decoder, Directory, default_verify_limits, manifest_name, hex_digit,
  verify_bundle, verify_bundle_extra,
}
use clusterproof.Evidence.Write.{Os, Tree, WriteError, write_private}

abbrev pub signature_file_name : String
signature_file_name = "bundle-manifest.sig.json"

abbrev max_signature_file_bytes : ℕ
max_signature_file_bytes = 65536

abbrev max_key_file_bytes : ℕ
max_key_file_bytes = 65536

-- `signed_at` is an instant, in nanoseconds.
pub record SignatureEnvelope : Type 0 where
  pub schema_version : String
  pub algorithm : String
  pub signer_id : String
  pub public_key_pem : String
  pub signature : String
  pub signed_at : ℕ

pub data VerificationState : Type 0 where
  integrity_verified signature_verified : VerificationState

-- A PEM block.
pub record Block : Type 0 where
  pub kind : String
  pub bytes : List ℕ

-- crypto/ed25519, crypto/x509 and encoding/pem. A parsed key is `none` where it is of another kind.
pub record Crypto : Type 1 where
  pub PublicKey : Type 0
  pub PrivateKey : Type 0
  pub public : PrivateKey → PublicKey
  pub same_key : PublicKey → PublicKey → Bool
  pub sign : PrivateKey → List ℕ → List ℕ
  pub verify : PublicKey → List ℕ → List ℕ → Bool
  pub decode_pem : List ℕ → Option Block
  pub decode_pem_text : String → Option Block
  pub encode_pem : Block → String
  pub parse_public_key : List ℕ → Option (Option PublicKey)
  pub marshal_public_key : PublicKey → Option (List ℕ)
  pub parse_private_key : List ℕ → Option (Option PrivateKey)

pub data SignatureError : Type 0 where
  signer_required signer_not_short no_signature different_key malformed_signature wrong_size
        not_verified bad_envelope trailing_content not_encoded no_pem no_key_pem bad_key
        not_ed25519 :
      SignatureError
  bundle : BundleError → SignatureError
  file : FileError → SignatureError
  unsupported_envelope : String → String → SignatureError
  wrong_block : String → SignatureError
  write : WriteError → SignatureError

abbrev or_bundle : {A : Type 0} → Result BundleError A → Result SignatureError A
or_bundle (ok a) = ok a
or_bundle (err e) = err (bundle e)

abbrev or_file : {A : Type 0} → Result FileError A → Result SignatureError A
or_file (ok a) = ok a
or_file (err e) = err (SignatureError.file e)

abbrev or_err : {A : Type 0} → SignatureError → Option A → Result SignatureError A
or_err e none = err e
or_err e (some a) = ok a

-- A hexadecimal digit.
hex_char : ℕ → Char
hex_char n =
    if nat_eq n 0
    then "0"
    else if nat_eq n 1
    then "1"
    else if nat_eq n 2
    then "2"
    else if nat_eq n 3
    then "3"
    else if nat_eq n 4
    then "4"
    else if nat_eq n 5
    then "5"
    else if nat_eq n 6
    then "6"
    else if nat_eq n 7
    then "7"
    else if nat_eq n 8
    then "8"
    else if nat_eq n 9
    then "9"
    else if nat_eq n 10
    then "a"
    else if nat_eq n 11
    then "b"
    else if nat_eq n 12
    then "c"
    else if nat_eq n 13
    then "d"
    else if nat_eq n 14
    then "e"
    else "f"

-- fmt.Sprintf("%x", bytes)
hex_encode : List ℕ → String
unfolding hex_char
hex_encode [] = empty
hex_encode (b ∷ bytes) = cons (hex_char (b / 16)) (cons (hex_char (b % 16)) (hex_encode bytes))

abbrev put_byte : Option ℕ → Option ℕ → Option (List ℕ) → Option (List ℕ)
put_byte none low bytes = some []
put_byte (some high) (some low) (some bytes) = some ((16 * high + low) ∷ bytes)
put_byte (some high) _ _ = none

-- The bytes that fmt.Sscanf reads for "%x": it stops before the first character that is no digit, and fails
-- at a byte of one digit.
scan_bytes : String → Option (List ℕ)
unfolding hex_digit
scan_bytes empty = some []
scan_bytes (cons c empty) = if is_none (hex_digit (code c)) then some [] else none
scan_bytes (cons c (cons d s)) = put_byte (hex_digit (code c)) (hex_digit (code d)) (scan_bytes s)

-- The spaces that it skips; a line feed among them is an error.
skip_spaces : String → Option String
skip_spaces empty = some empty
skip_spaces (cons c s) =
    let rest = skip_spaces s in
    if nat_eq (code c) 10 then none else if is_space (code c) then rest else some (cons c s)

abbrev some_bytes : Option (List ℕ) → Option (List ℕ)
some_bytes (some (b ∷ bytes)) = some (b ∷ bytes)
some_bytes _ = none

-- fmt.Sscanf(text, "%x", &bytes), which wants at least one byte and ignores what follows.
unfoldable pub scan_hex : String → Option (List ℕ)
unfolding skip_spaces scan_bytes
scan_hex text = elim (skip_spaces text) [ none ↦ none | some rest ↦ some_bytes (scan_bytes rest) ]

module _ (C : Crypto) where
  open C use {PublicKey, PrivateKey}

  abbrev read_pem_block : File → Result SignatureError Block
  read_pem_block f = do
    bytes ← or_file (read_regular f max_key_file_bytes)
    or_err no_pem (C.decode_pem bytes)

  unfoldable pub parse_public_key_der : List ℕ → Result SignatureError PublicKey
  parse_public_key_der der = do
    parsed ← or_err bad_key (C.parse_public_key der)
    or_err not_ed25519 parsed

  unfoldable pub load_public_key : File → Result SignatureError PublicKey
  unfolding parse_public_key_der
  load_public_key f = do
    block ← read_pem_block f
    refuse (not (block.kind == "PUBLIC KEY")) (wrong_block block.kind)
    parse_public_key_der block.bytes

  load_private_key : File → Result SignatureError PrivateKey
  load_private_key f = do
    block ← read_pem_block f
    refuse (not (block.kind == "PRIVATE KEY")) (wrong_block block.kind)
    parsed ← or_err bad_key (C.parse_private_key block.bytes)
    or_err not_ed25519 parsed

  unfoldable pub parse_public_key_pem : String → Result SignatureError PublicKey
  unfolding parse_public_key_der
  parse_public_key_pem content = do
    block ← or_err no_key_pem (C.decode_pem_text content)
    refuse (not (block.kind == "PUBLIC KEY")) no_key_pem
    parse_public_key_der block.bytes

unfoldable pub load_signature_envelope :
    Decoder SignatureEnvelope → File → Result SignatureError SignatureEnvelope
load_signature_envelope json f = do
  bytes ← or_file (read_regular f max_signature_file_bytes)
  envelope ← or_err bad_envelope (json.decode bytes)
  refuse (not (json.at_end bytes)) trailing_content
  refuse (not (envelope.schema_version == "1") || not (envelope.algorithm == "Ed25519"))
      (unsupported_envelope envelope.schema_version envelope.algorithm)
  ok envelope

abbrev pub is_signed : Directory → Bool
is_signed d = not (is_none (d.file signature_file_name).stat)

module _ (digest : List ℕ → String) (json : Decoder BundleManifest) where
  unfoldable pub verify_bundle_allowing_signature : Directory → Bool → Result BundleError (Unit {0})
  verify_bundle_allowing_signature d signature_present =
      if not signature_present
      then verify_bundle digest json d
      else verify_bundle_extra digest json default_verify_limits (signature_file_name ∷ []) d

  module _ (C : Crypto) (envelope_json : Decoder SignatureEnvelope) where
    -- The signature of an envelope against the pinned key.
    unfoldable pub check_signature :
        Directory → C.PublicKey → SignatureEnvelope → Result SignatureError (Unit {0})
    unfolding parse_public_key_pem scan_hex
    check_signature d expected envelope = do
      embedded ← parse_public_key_pem C envelope.public_key_pem
      refuse (not (C.same_key expected embedded)) different_key
      manifest ←
          or_file (read_regular (d.file manifest_name) default_verify_limits.max_manifest_bytes)
      signature ← or_err malformed_signature (scan_hex envelope.signature)
      refuse (not (nat_eq (length signature) 64)) wrong_size
      refuse (not (C.verify expected manifest signature)) not_verified

    -- `key` is the file at the pinned path, if one is pinned.
    unfoldable pub verify_signed_bundle :
        Directory → Option File → Result SignatureError (VerificationState × String)
    unfolding verify_bundle_allowing_signature check_signature load_public_key
        load_signature_envelope
    verify_signed_bundle d key = do
      or_bundle (verify_bundle_allowing_signature d (is_signed d))
      if not (is_signed d)
          then (if not (is_none key) then err no_signature else ok (integrity_verified, ""))
          else do
            envelope ← load_signature_envelope envelope_json (d.file signature_file_name)
            elim key [
              | none ↦ ok (integrity_verified, envelope.signer_id)
              | some f ↦ do
                expected ← load_public_key C f
                check_signature d expected envelope
                ok (signature_verified, envelope.signer_id)
            ]

    -- The envelope that `SignBundle` writes.
    envelope_of : C.PrivateKey → List ℕ → List ℕ → String → ℕ → SignatureEnvelope
    unfolding hex_encode
    envelope_of key der manifest signer_id now = record {
      schema_version = "1";
      algorithm = "Ed25519";
      signer_id = signer_id;
      public_key_pem = C.encode_pem (record { kind = "PUBLIC KEY"; bytes = der });
      signature = hex_encode (C.sign key manifest);
      signed_at = now;
    }

    abbrev or_write : {A : Type 0} → Result WriteError A → Result SignatureError A
    or_write (ok a) = ok a
    or_write (err e) = err (SignatureError.write e)

    -- `marshal` encodes the envelope; `tree` is the directory with its files, and `d` what is seen of it.
    module _ (marshal : SignatureEnvelope → Option (List ℕ)) (os : Os) where
      sign_bundle : Directory → Tree → File → String → ℕ → Result SignatureError Tree
      unfolding load_private_key envelope_of
      sign_bundle d tree key_file signer_id now = do
        refuse (is_blank signer_id) signer_required
        refuse (ltb 500 (len signer_id) || contains_any signer_id "\0\n\r") signer_not_short
        or_bundle (verify_bundle digest json d)
        key ← load_private_key C key_file
        manifest ←
            or_file (read_regular (d.file manifest_name) default_verify_limits.max_manifest_bytes)
        der ← or_err not_encoded (C.marshal_public_key (C.public key))
        bytes ← or_err not_encoded (marshal (envelope_of key der manifest signer_id now))
        or_write (write_private os signature_file_name bytes tree)
