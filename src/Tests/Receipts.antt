-- ===== src/Tests/Receipts.antt =====
-- Runs of src/oncemesh/receipt.py and of `publish_signed_result` of src/oncemesh/cache.py with a toy scheme,
-- and their theorems there.
use once_mesh.Base.{
  ℕ, ◌<◌, ◌≡◌, refl, String, Bool, true, false, List, [], ◌∷◌, Option, none, some, All, In, codes,
  same_codes, length, arith,
}
use once_mesh.Base.Result.{ok}
use once_mesh.Json.{Value, str, obj, end, field}
use once_mesh.Canonical.Action.{Hexdigest}
use once_mesh.Records.{Manifest, digest_of}
use once_mesh.Receipt.{Signature, Receipt, Ed25519, sign_receipt, verify_receipt, domain_separator}
use once_mesh.Receipt.Verify.{
  verify_receipt_for_manifest, IsGenuine, IsAuthentic, verify_receipt-IsGenuine,
  verify_receipt_for_manifest-IsAuthentic,
}
use once_mesh.Receipt.Signed.{IsEd25519, verify_receipt-sign_receipt}
use once_mesh.Store.Memory.{MemoryStore, empty, receipts}
use once_mesh.Cache.Publish.{Artifacts}
use once_mesh.Cache.Publish.Signed.{
  publish_signed_result, verify_receipt_for_manifest-publish_signed_result,
}

program : Unit {0}
unfolding once_mesh.Base64.sextet_code once_mesh.Base64.code_sextet once_mesh.Base64.is_code
    once_mesh.Base64.is_key_text once_mesh.Base64.decode_groups once_mesh.Base64.encode_groups
    once_mesh.Base64.char_of once_mesh.Base64.text_from once_mesh.Base64.encode_text
    once_mesh.Receipt.is_signature_text once_mesh.Receipt.decode_signature
    once_mesh.Receipt.validate_signature once_mesh.Receipt.check_signature
    once_mesh.Receipt.validate_receipt once_mesh.Receipt.encode_receipt
    once_mesh.Receipt.check_receipt once_mesh.Receipt.signing_input once_mesh.Receipt.receipt_digest
    once_mesh.Receipt.raw_public_key once_mesh.Receipt.sign_receipt
    once_mesh.Receipt.verify_signature once_mesh.Receipt.verify_receipt
    once_mesh.Receipt.Verify.verify_receipt_for_manifest once_mesh.Canonical.Action.digest_bytes
    once_mesh.Canonical.Action.object_digest once_mesh.Canonical.Action.validate_action
    once_mesh.Canonical.Action.action_digest once_mesh.Canonical.Checks.is_prefixed_hex
    once_mesh.Canonical.Checks.is_digest once_mesh.Canonical.Checks.same_keys
    once_mesh.Canonical.Checks.require_exact_keys once_mesh.Canonical.Checks.require_nonempty_string
    once_mesh.Canonical.Checks.require_utc_timestamp once_mesh.Canonical.Encode.dump_int
    once_mesh.Canonical.Encode.codes_lt once_mesh.Canonical.Encode.text_lt
    once_mesh.Canonical.Encode.insert_by_key once_mesh.Canonical.Encode.sort_by_key
    once_mesh.Canonical.Encode.encode_utf8 once_mesh.Canonical.Encode.canonical_json
    once_mesh.Canonical.Manifest.validate_manifest once_mesh.Canonical.Manifest.manifest_digest
    once_mesh.Canonical.Records.validate_source_validation
    once_mesh.Canonical.Records.validate_invalidation once_mesh.Canonical.Records.validation_digest
    once_mesh.Canonical.Records.invalidation_digest once_mesh.Records.encode_manifest
    once_mesh.Records.encode_validation once_mesh.Records.encode_invalidation
    once_mesh.Records.check_manifest once_mesh.Records.check_validation
    once_mesh.Records.check_invalidation once_mesh.Records.digest_of
    once_mesh.Store.Memory.listed_at once_mesh.Store.Memory.append_at
    once_mesh.Store.Memory.put_blob once_mesh.Store.Memory.put_result
    once_mesh.Store.Memory.put_validation once_mesh.Store.Memory.put_invalidation
    once_mesh.Store.Memory.put_receipt once_mesh.Store.Memory.get_blob
    once_mesh.Store.Memory.candidates once_mesh.Store.Memory.result
    once_mesh.Store.Memory.validations once_mesh.Store.Memory.invalidations
    once_mesh.Store.Memory.receipts once_mesh.Store.Memory.as_store
    once_mesh.Cache.Publish.publish_artifacts once_mesh.Cache.Publish.publish_manifest
    once_mesh.Cache.Publish.publish_described once_mesh.Cache.Publish.publish_result
    once_mesh.Cache.Publish.publish_invalidation once_mesh.Cache.Publish.Signed.sign_and_put
    once_mesh.Cache.Publish.Signed.publish_signed_result once_mesh.Time.instant
    once_mesh.Time.parse_time once_mesh.Time.Format.format_time once_mesh.Base.same_codes
    once_mesh.Base.Dict.lookup once_mesh.Base.Dict.insert once_mesh.Base.contains
    once_mesh.Base.all_distinct
program = tt

abbrev toy_digest : Hexdigest
toy_digest bytes = "000000000000000000000000000000000000000000000000000000000000000f"

abbrev seed : List ℕ
seed =
    7 ∷ 7 ∷ 7 ∷ 7 ∷ 7 ∷ 7 ∷ 7 ∷ 7 ∷ 7 ∷ 7 ∷ 7 ∷ 7 ∷ 7 ∷ 7 ∷ 7 ∷ 7 ∷ 7 ∷ 7 ∷ 7 ∷ 7 ∷ 7 ∷ 7 ∷ 7 ∷ 7
    ∷ 7 ∷ 7 ∷ 7 ∷ 7 ∷ 7 ∷ 7 ∷ 7 ∷ 7 ∷ []

abbrev toy_key : List ℕ
toy_key =
    0 ∷ 0 ∷ 0 ∷ 0 ∷ 0 ∷ 0 ∷ 0 ∷ 0 ∷ 0 ∷ 0 ∷ 0 ∷ 0 ∷ 0 ∷ 0 ∷ 0 ∷ 0 ∷ 0 ∷ 0 ∷ 0 ∷ 0 ∷ 0 ∷ 0 ∷ 0 ∷ 0
    ∷ 0 ∷ 0 ∷ 0 ∷ 0 ∷ 0 ∷ 0 ∷ 0 ∷ 0 ∷ []

abbrev toy_signature : List ℕ
toy_signature =
    0 ∷ 0 ∷ 0 ∷ 0 ∷ 0 ∷ 0 ∷ 0 ∷ 0 ∷ 0 ∷ 0 ∷ 0 ∷ 0 ∷ 0 ∷ 0 ∷ 0 ∷ 0 ∷ 0 ∷ 0 ∷ 0 ∷ 0 ∷ 0 ∷ 0 ∷ 0 ∷ 0
    ∷ 0 ∷ 0 ∷ 0 ∷ 0 ∷ 0 ∷ 0 ∷ 0 ∷ 0 ∷ 0 ∷ 0 ∷ 0 ∷ 0 ∷ 0 ∷ 0 ∷ 0 ∷ 0 ∷ 0 ∷ 0 ∷ 0 ∷ 0 ∷ 0 ∷ 0 ∷ 0 ∷ 0
    ∷ 0 ∷ 0 ∷ 0 ∷ 0 ∷ 0 ∷ 0 ∷ 0 ∷ 0 ∷ 0 ∷ 0 ∷ 0 ∷ 0 ∷ 0 ∷ 0 ∷ 0 ∷ 0 ∷ []

-- A scheme with one key and one signature.
abbrev toy_scheme : Ed25519
toy_scheme = record {
  public_key = λ s. toy_key;
  sign = λ s message. toy_signature;
  verify = λ key signature message. same_codes signature toy_signature;
}

toy_signature_bytes : All (λ (b : ℕ). b < 256) toy_signature
toy_signature_bytes = ground arith

toy_scheme-IsEd25519 : IsEd25519 toy_scheme
unfolding same_codes
toy_scheme-IsEd25519 = record {
  key_size = λ s. refl;
  signature_size = λ s message. refl;
  signature_bytes = λ s message. toy_signature_bytes;
  verifies = λ s message. refl;
}

separator_ends : codes "v1\0" ≡ 118 ∷ 49 ∷ 0 ∷ []
separator_ends = refl

abbrev toy_name : String
toy_name = "sha256:000000000000000000000000000000000000000000000000000000000000000f"

abbrev unsigned : Receipt
unsigned = record {
  result_digest = toy_name;
  producer = "alice";
  executor_environment = field "os" (str "linux") end;
  signature = none;
}

abbrev toy_signed : Signature
toy_signed = record {
  profile = "oncemesh.ed25519/v1";
  key_id = toy_name;
  value = "AAAAAAAAAAAAAAAAAAAAAAAAAAAAAAAAAAAAAAAAAAAAAAAAAAAAAAAAAAAAAAAAAAAAAAAAAAAAAAAAAAAAAA";
}

abbrev signed : Receipt
signed = record unsigned { signature = some toy_signed }

sign_run : sign_receipt toy_digest toy_scheme unsigned seed ≡ ok signed
unfolding program
sign_run = refl

verify_run : verify_receipt toy_digest toy_scheme signed toy_key ≡ ok true
unfolding program
verify_run = refl

-- Another signature, and a receipt without one.
abbrev forged : Receipt
forged = record signed {
  signature = some (record toy_signed {
    value =
        "BAAAAAAAAAAAAAAAAAAAAAAAAAAAAAAAAAAAAAAAAAAAAAAAAAAAAAAAAAAAAAAAAAAAAAAAAAAAAAAAAAAAAA";
  });
}

forged_run : verify_receipt toy_digest toy_scheme forged toy_key ≡ ok false
unfolding program
forged_run = refl

verify_receipt-IsGenuine_example : IsGenuine toy_digest toy_scheme signed toy_key
verify_receipt-IsGenuine_example =
    verify_receipt-IsGenuine toy_digest toy_scheme signed toy_key verify_run

verify_receipt-sign_receipt_example :
    verify_receipt toy_digest toy_scheme signed (toy_scheme.public_key seed) ≡ ok true
verify_receipt-sign_receipt_example =
    verify_receipt-sign_receipt toy_digest toy_scheme unsigned signed seed toy_scheme-IsEd25519
      sign_run

abbrev text_action : Value
text_action = obj (
    field "spec_version" (str "oncemesh.action/v0") (
      field "operation" (obj (field "name" (str "parse") (field "version" (str "1") end))) (
        field "inputs" (obj end) (
          field "executor"
            (obj (
              field "name" (str "tool") (field "version" (str "1") (field "config" (obj end) end))))
            (field "output_schema" (str "text") (field "vary" (obj end) end))))))

abbrev text_output : Artifacts
text_output = ("body", (104 ∷ [], "text/plain")) ∷ []

abbrev text_manifest : Manifest
text_manifest = record {
  spec_version = "oncemesh.result/v0";
  action_digest = toy_name;
  artifacts = record { name = "body"; digest = toy_name; size = 1; media_type = "text/plain" } ∷ [];
  produced_at = "2022-09-28T22:13:20Z";
  fresh_until = some "2022-09-28T22:13:20Z";
  producer = "alice";
  dependencies = none;
}

abbrev signed_store : MemoryStore
signed_store = record (empty "local") {
  blobs = (toy_name, 104 ∷ []) ∷ [];
  results = (toy_name, text_manifest ∷ []) ∷ [];
  results_by_digest = (toy_name, text_manifest) ∷ [];
  receipts = (toy_name, signed ∷ []) ∷ [];
}

publish_run :
    publish_signed_result toy_digest toy_scheme text_action text_output "alice" 63800000000000000
      (some 63800000000000000)
      (field "os" (str "linux") end)
      seed
      none
      (empty "local")
    ≡ (ok (text_manifest, signed), signed_store)
unfolding program
publish_run = refl

authentic_run :
    verify_receipt_for_manifest toy_digest toy_scheme signed text_manifest toy_key ≡ ok true
unfolding program
authentic_run = refl

verify_receipt_for_manifest-IsAuthentic_example :
    IsAuthentic toy_digest toy_scheme signed text_manifest toy_key
verify_receipt_for_manifest-IsAuthentic_example =
    verify_receipt_for_manifest-IsAuthentic toy_digest toy_scheme signed text_manifest toy_key
      authentic_run

verify_receipt_for_manifest-publish_signed_result_example :
    (exact : String) × (digest_of toy_digest text_manifest ≡ ok exact)
    × In signed (receipts signed_store exact)
    × (verify_receipt_for_manifest toy_digest toy_scheme signed text_manifest
          (toy_scheme.public_key seed)
        ≡ ok true)
verify_receipt_for_manifest-publish_signed_result_example =
    verify_receipt_for_manifest-publish_signed_result toy_digest toy_scheme text_action text_output
      "alice" 63800000000000000 (some 63800000000000000) (field "os" (str "linux") end) seed none
      (empty "local") signed_store text_manifest signed toy_scheme-IsEd25519 publish_run
