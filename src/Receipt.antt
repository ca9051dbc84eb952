-- ===== src/Receipt.antt =====
-- src/oncemesh/receipt.py: production receipts, their validation, signing and verification. Ed25519 of
-- the `cryptography` package is a parameter.
pub mod Verify
pub mod Signed
use once_mesh.Base.{
  ℕ, String, Bool, true, false, not, ◌&&◌, List, [], ◌∷◌, ◌++◌, Option, none, some, ◌==◌, nat_eq,
  all, codes, length, same_codes, if◌then◌else◌, str_append, is_none,
}
use once_mesh.Base.Result.{Result, ok, raise, value_error, require, ◌>>=◌, ◌>>◌}
use once_mesh.Json.{Value, null, str, obj, Fields, end, field, item, keys}
use once_mesh.Canonical.Encode.{canonical_json}
use once_mesh.Canonical.Action.{Hexdigest, digest_bytes, has_text}
use once_mesh.Canonical.Checks.{is_digest_value, is_nonempty_value, is_object, has_keys}
use once_mesh.Canonical.Manifest.{text_of}
use once_mesh.Base64.{is_code, decode_groups, encode_groups, encode_text}

-- `DOMAIN_SEPARATOR`
abbrev pub domain_separator : List ℕ
domain_separator = codes "OnceMesh receipt signature v1\0"

-- `SIGNATURE_PROFILE`
abbrev pub signature_profile : String
signature_profile = "oncemesh.ed25519/v1"

-- `SIGNATURE_PATTERN`
unfoldable pub is_signature_text : List ℕ → Bool
is_signature_text cs = all is_code cs && nat_eq (length cs) 86

-- `_decode_signature`. The pattern leaves nothing for which `b64decode` raises.
unfoldable pub decode_signature : String → Result (List ℕ)
decode_signature value = do
  let decoded = decode_groups (codes value)
  require (nat_eq (length decoded) 64 && same_codes (encode_groups decoded) (codes value))
      "receipt signature must be canonical encoding of 64 bytes"
  ok decoded

abbrev pub is_signature_value : Value → Bool
is_signature_value (str s) = is_signature_text (codes s)
is_signature_value _ = false

-- The part of `validate_receipt` on a signature that is not None.
unfoldable pub validate_signature : Value → Result (Unit {0})
unfolding is_signature_text decode_signature
validate_signature signature = do
  require (has_keys signature ("profile" ∷ "key_id" ∷ "value" ∷ []))
      "invalid receipt signature fields"
  profile ← item signature "profile"
  require (has_text profile signature_profile) "unsupported receipt signature profile"
  key_id ← item signature "key_id"
  require (is_digest_value key_id) "receipt signature key_id is invalid"
  value ← item signature "value"
  require (is_signature_value value) "receipt signature value is not canonical base64url"
  decoded ← decode_signature (text_of value)
  ok tt

unfoldable pub check_signature : Bool → Value → Result (Unit {0})
unfolding validate_signature
check_signature required null = require (not required) "receipt signature is required"
check_signature required signature = validate_signature signature

unfoldable pub validate_receipt : Bool → Value → Result (Unit {0})
unfolding check_signature
validate_receipt required receipt = do
  require
      (has_keys receipt
        ("spec_version" ∷ "result_digest" ∷ "producer" ∷ "executor_environment" ∷ "signature" ∷ []))
      "invalid receipt fields"
  version ← item receipt "spec_version"
  require (has_text version "oncemesh.receipt/v0") "unsupported receipt spec_version"
  result_digest ← item receipt "result_digest"
  require (is_digest_value result_digest) "receipt result_digest is invalid"
  producer ← item receipt "producer"
  require (is_nonempty_value producer) "receipt producer must be a non-empty string"
  executor_environment ← item receipt "executor_environment"
  require (is_object executor_environment) "executor_environment must be an object"
  signature ← item receipt "signature"
  check_signature required signature
  encoded ← canonical_json receipt
  ok tt

-- A receipt with the keys and the types of values that the validator demands.
pub record Signature : Type 0 where
  pub profile : String
  pub key_id : String
  pub value : String

pub record Receipt : Type 0 where
  pub result_digest : String
  pub producer : String
  pub executor_environment : Fields
  pub signature : Option Signature

abbrev pub encode_signature : Option Signature → Value
encode_signature none = null
encode_signature (some s) = obj (
    field "profile" (str s.profile)
      (field "key_id" (str s.key_id) (field "value" (str s.value) end)))

unfoldable pub encode_receipt : Receipt → Value
encode_receipt r = obj (
    field "spec_version" (str "oncemesh.receipt/v0") (
      field "result_digest" (str r.result_digest) (
        field "producer" (str r.producer) (
          field "executor_environment" (obj r.executor_environment)
            (field "signature" (encode_signature r.signature) end)))))

unfoldable pub check_receipt : Bool → Receipt → Result (Unit {0})
unfolding validate_receipt encode_receipt
check_receipt required r = validate_receipt required (encode_receipt r)

-- `receipt_signing_input`
unfoldable pub signing_input : Receipt → Result (List ℕ)
unfolding check_receipt
signing_input r = do
  let unsigned = record r { signature = none }
  check_receipt false unsigned
  bytes ← canonical_json (encode_receipt unsigned)
  ok (domain_separator ++ bytes)

unfoldable pub receipt_digest : Hexdigest → Receipt → Result String
unfolding check_receipt
receipt_digest hexdigest r = do
  check_receipt false r
  bytes ← canonical_json (encode_receipt r)
  ok (digest_bytes hexdigest bytes)

-- Ed25519: the public key of a seed, the signature of a message by a seed, and whether a signature of
-- a message is one by the seed of a public key.
pub record Ed25519 : Type 0 where
  pub public_key : List ℕ → List ℕ
  pub sign : List ℕ → List ℕ → List ℕ
  pub verify : List ℕ → List ℕ → List ℕ → Bool

module _ (hexdigest : Hexdigest) (ed25519 : Ed25519) where
  unfoldable pub raw_public_key : List ℕ → Result (List ℕ)
  raw_public_key private_key = do
    require (nat_eq (length private_key) 32)
        "Ed25519 private key seed must contain exactly 32 bytes"
    ok (ed25519.public_key private_key)

  -- The deep copy with its signature.
  abbrev pub signed_with : Receipt → List ℕ → List ℕ → Receipt
  signed_with r private_key message = record r {
    signature = some (record {
      profile = signature_profile;
      key_id = digest_bytes hexdigest (ed25519.public_key private_key);
      value = encode_text (ed25519.sign private_key message);
    });
  }

  unfoldable pub sign_receipt : Receipt → List ℕ → Result Receipt
  unfolding check_receipt signing_input
  sign_receipt r private_key = do
    require (is_none r.signature) "only an unsigned receipt can be signed"
    check_receipt false r
    require (nat_eq (length private_key) 32)
        "Ed25519 private key seed must contain exactly 32 bytes"
    message ← signing_input r
    let signed = signed_with r private_key message
    check_receipt true signed
    ok signed

  -- The end of `verify_receipt`, where the receipt has a signature; a validated one has.
  unfoldable pub verify_signature : Receipt → Option Signature → List ℕ → Result Bool
  unfolding decode_signature signing_input
  verify_signature r none public_key = ok false
  verify_signature r (some signature) public_key =
      if not (signature.key_id == digest_bytes hexdigest public_key) then ok false else do
        decoded ← decode_signature signature.value
        message ← signing_input r
        ok (ed25519.verify public_key decoded message)

  unfoldable pub verify_receipt : Receipt → List ℕ → Result Bool
  unfolding check_receipt verify_signature
  verify_receipt r public_key = do
    check_receipt true r
    require (nat_eq (length public_key) 32) "Ed25519 public key must contain exactly 32 bytes"
    verify_signature r r.signature public_key
