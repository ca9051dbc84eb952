-- ===== src/Tests/Keys.antt =====
-- Runs of src/oncemesh/key_registry.py on a document with one key, and its theorems there.
use once_mesh.Base.{
  arith, ℕ, ◌<◌, ◌≡◌, refl, String, List, [], ◌∷◌, Option, none, some, All, length,
}
use once_mesh.Base.Result.{ok}
use once_mesh.Json.{Value, str, arr, obj, nil, cons, end, field}
use once_mesh.Canonical.Action.{Hexdigest}
use once_mesh.Store.{Bytes}
use once_mesh.KeyRegistry.{
  ReceiptKey, ReceiptKeyResolution, encode_public_key, decode_public_key, resolve_key, denied,
}
use once_mesh.KeyRegistry.Active.{IsActive, resolve_key-IsActive}
use once_mesh.KeyRegistry.Roundtrip.{
  decode_public_key-encode_groups, encode_public_key-decode_public_key,
}

program : Unit {0}
unfolding once_mesh.KeyRegistry.require_canonical once_mesh.KeyRegistry.decode_public_key
    once_mesh.KeyRegistry.producers_of once_mesh.KeyRegistry.resolve_record
    once_mesh.KeyRegistry.validate_key once_mesh.KeyRegistry.validate_keys
    once_mesh.KeyRegistry.validate_key_registry once_mesh.KeyRegistry.resolve_key
    once_mesh.Base64.sextet_code once_mesh.Base64.code_sextet once_mesh.Base64.is_code
    once_mesh.Base64.is_key_text once_mesh.Base64.decode_groups once_mesh.Base64.encode_groups
    once_mesh.Canonical.Checks.is_prefixed_hex once_mesh.Canonical.Checks.is_digest
    once_mesh.Canonical.Checks.same_keys once_mesh.Canonical.Checks.require_exact_keys
    once_mesh.Canonical.Checks.require_nonempty_string
    once_mesh.Canonical.Checks.require_utc_timestamp once_mesh.Policy.is_member
    once_mesh.Policy.choice once_mesh.Canonical.Action.digest_bytes once_mesh.Base.same_codes
    once_mesh.Base.Dict.lookup once_mesh.Base.Dict.insert once_mesh.Base.contains
    once_mesh.Base.all_distinct
program = tt

abbrev one_digest : Hexdigest
one_digest bytes = "000000000000000000000000000000000000000000000000000000000000000f"

abbrev key_name : String
key_name = "sha256:000000000000000000000000000000000000000000000000000000000000000f"

abbrev key_text : String
key_text = "AQAAAAAAAAAAAAAAAAAAAAAAAAAAAAAAAAAAAAAAAAA"

abbrev key_bytes : Bytes
key_bytes =
    1 ∷ 0 ∷ 0 ∷ 0 ∷ 0 ∷ 0 ∷ 0 ∷ 0 ∷ 0 ∷ 0 ∷ 0 ∷ 0 ∷ 0 ∷ 0 ∷ 0 ∷ 0 ∷ 0 ∷ 0 ∷ 0 ∷ 0 ∷ 0 ∷ 0 ∷ 0 ∷ 0
    ∷ 0 ∷ 0 ∷ 0 ∷ 0 ∷ 0 ∷ 0 ∷ 0 ∷ 0 ∷ []

-- A document with one key of this status.
abbrev registry_of : String → Value
registry_of status = obj (
    field "spec_version" (str "oncemesh.key-registry/v0") (
      field "keys"
        (obj (
          field key_name
            (obj (
              field "profile" (str "oncemesh.ed25519/v1") (
                field "public_key" (str key_text) (
                  field "status" (str status)
                    (field "producers" (arr (cons (str "alice") nil)) end)))))
            end))
        end))

abbrev alice_key : ReceiptKey
alice_key = record {
  key_id = key_name;
  public_key = key_bytes;
  status = "active";
  producers = "alice" ∷ [];
}

active_run :
    resolve_key one_digest (some (registry_of "active")) key_name "alice"
    ≡ ok (record { key = some alice_key; reason = "active" })
unfolding program
active_run = refl

denied_runs :
    (resolve_key one_digest (some (registry_of "revoked")) key_name "alice"
      ≡ ok (denied "receipt_key_revoked"))
    × (resolve_key one_digest (some (registry_of "active")) key_name "bob"
        ≡ ok (denied "receipt_producer_denied"))
    × (resolve_key one_digest (some (registry_of "active")) "alice" "alice"
        ≡ ok (denied "receipt_key_unknown"))
    × (resolve_key one_digest (some (registry_of "retired")) key_name "alice"
        ≡ ok (denied "receipt_registry_error"))
unfolding program
denied_runs = (refl, refl, refl, refl)

resolve_key-IsActive_example :
    IsActive one_digest (some (registry_of "active")) key_name "alice" alice_key
resolve_key-IsActive_example =
    resolve_key-IsActive one_digest (some (registry_of "active")) key_name "alice"
      (record { key = some alice_key; reason = "active" }) alice_key active_run refl

key_bytes_bounded : All (λ (b : ℕ). b < 256) key_bytes
key_bytes_bounded = ground arith

decode_public_key-encode_groups_example : decode_public_key (str key_text) ≡ ok key_bytes
unfolding program
decode_public_key-encode_groups_example =
    decode_public_key-encode_groups key_bytes key_text key_bytes_bounded refl refl

encode_public_key-decode_public_key_example :
    (text : String) × (str key_text ≡ str text) × (encode_public_key key_bytes ≡ ok text)
encode_public_key-decode_public_key_example =
    encode_public_key-decode_public_key (str key_text) key_bytes
      decode_public_key-encode_groups_example
