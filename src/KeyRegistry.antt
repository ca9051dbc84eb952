-- ===== src/KeyRegistry.antt =====
-- src/oncemesh/key_registry.py: the check of a registry document, and the resolution of a receipt key.
-- Base64 has the coding of public keys.
pub mod Active
pub mod Roundtrip
use once_mesh.Base.{
  ℕ, String, Bool, true, false, not, ◌&&◌, ◌||◌, List, [], ◌∷◌, Option, none, some, ◌==◌, nat_eq,
  all, codes, length, contains, all_distinct, if◌then◌else◌, same_codes,
}
use once_mesh.Base.Dict.{Dict, lookup, insert}
use once_mesh.Base.Result.{Result, ok, raise, value_error, require, ◌>>=◌, ◌>>◌}
use once_mesh.Json.{Value, str, arr, obj, Fields, end, field, item, items}
use once_mesh.Canonical.Action.{Hexdigest, digest_bytes}
use once_mesh.Canonical.Checks.{is_digest, is_nonempty_value}
use once_mesh.Receipt.{signature_profile}
use once_mesh.Policy.{choice, is_empty, texts_of}
use once_mesh.Canonical.Checks.{has_keys}
use once_mesh.Canonical.Action.{has_text}
use once_mesh.Store.{Bytes, catch_value}
use once_mesh.Base64.{encode_text, is_key_text, decode_groups, encode_groups}

pub record ReceiptKey : Type 0 where
  pub key_id : String
  pub public_key : Bytes
  pub status : String
  pub producers : List String

-- The part of `_decode_public_key` that follows the decoding.
unfoldable pub require_canonical : List ℕ → Bytes → Result Bytes
require_canonical value decoded = do
  require (nat_eq (length decoded) 32 && same_codes (encode_groups decoded) value)
      "public_key must encode exactly 32 bytes"
  ok decoded

-- `_decode_public_key`. The pattern leaves nothing for which `b64decode` raises.
unfoldable pub decode_public_key : Value → Result Bytes
unfolding require_canonical is_key_text decode_groups
decode_public_key (str value) = do
  require (is_key_text (codes value)) "public_key must be canonical unpadded base64url"
  require_canonical (codes value) (decode_groups (codes value))
decode_public_key _ = raise (value_error "public_key must be canonical unpadded base64url")

unfoldable pub encode_public_key : Bytes → Result String
encode_public_key public_key = do
  require (nat_eq (length public_key) 32) "Ed25519 public key must contain exactly 32 bytes"
  ok (encode_text public_key)

-- The test on the producers of an entry.
unfoldable pub producers_of : Value → Result (List String)
producers_of (arr vs) = do
  require
      (not (is_empty (texts_of (items vs)))
        && all is_nonempty_value (items vs)
        && all_distinct (texts_of (items vs)))
      "key producers must be a non-empty unique string array"
  ok (texts_of (items vs))
producers_of _ = raise (value_error "key producers must be a non-empty unique string array")

-- `KEY_STATUSES`
abbrev pub key_statuses : List String
key_statuses = "active" ∷ "revoked" ∷ []

abbrev pub document_fields : Value → Result Fields
document_fields (obj fs) = ok fs
document_fields _ = raise (value_error "key registry keys must be an object")

pub record ReceiptKeyResolution : Type 0 where
  pub key : Option ReceiptKey
  pub reason : String

abbrev pub denied : String → ReceiptKeyResolution
denied reason = record { key = none; reason = reason }

-- The tests on the record of the key, for the producer.
unfoldable pub resolve_record : String → Option ReceiptKey → ReceiptKeyResolution
resolve_record producer none = denied "receipt_key_unknown"
resolve_record producer (some key) =
    if key.status == "revoked"
    then denied "receipt_key_revoked"
    else if not (contains key.producers producer)
    then denied "receipt_producer_denied"
    else record { key = some key; reason = "active" }

module _ (hexdigest : Hexdigest) where
  -- One round of the loop over the keys.
  unfoldable pub validate_key : String → Value → Result ReceiptKey
  unfolding choice producers_of decode_public_key
  validate_key key_id value = do
    require (is_digest key_id) "key registry key identifier is invalid"
    require (has_keys value ("profile" ∷ "public_key" ∷ "status" ∷ "producers" ∷ []))
        "invalid key registry entry fields"
    profile ← item value "profile"
    require (has_text profile signature_profile) "unsupported key profile or status"
    status_value ← item value "status"
    status ← choice status_value key_statuses "unsupported key profile or status"
    producers_value ← item value "producers"
    producers ← producers_of producers_value
    public_value ← item value "public_key"
    public_key ← decode_public_key public_value
    require (digest_bytes hexdigest public_key == key_id) "key identifier does not match public key"
    ok (record { key_id = key_id; public_key = public_key; status = status; producers = producers })

  -- The loop over the keys, with the records so far.
  unfoldable pub validate_keys : Dict ReceiptKey → Fields → Result (Dict ReceiptKey)
  unfolding validate_key insert
  validate_keys records end = ok records
  validate_keys records (field key_id value rest) = do
    key ← validate_key key_id value
    validate_keys (insert key_id key records) rest

  unfoldable pub validate_key_registry : Value → Result (Dict ReceiptKey)
  unfolding validate_keys
  validate_key_registry document = do
    require (has_keys document ("spec_version" ∷ "keys" ∷ [])) "invalid key registry fields"
    version ← item document "spec_version"
    require (has_text version "oncemesh.key-registry/v0") "unsupported key registry version"
    keys_value ← item document "keys"
    entries ← document_fields keys_value
    validate_keys [] entries

  -- `FileReceiptKeyRegistry.resolve`, on what `json.loads` made of the file: none where reading or
  -- parsing it raised an exception that is caught.
  unfoldable pub resolve_key : Option Value → String → String → Result ReceiptKeyResolution
  unfolding resolve_record validate_key_registry lookup
  resolve_key none key_id producer = ok (denied "receipt_registry_error")
  resolve_key (some document) key_id producer =
      catch_value (validate_key_registry document) (ok (denied "receipt_registry_error"))
        (λ records. ok (resolve_record producer (lookup key_id records)))
