-- ===== src/Runtime/Receipts.antt =====
-- `_required_receipt_failure` of src/oncemesh/runtime.py.
use once_mesh.Base.{
  String, Bool, true, false, not, List, [], ◌∷◌, ◌++◌, Option, none, some, ◌==◌, contains,
  if◌then◌else◌,
}
use once_mesh.Base.Result.{Result, ok, raise, value_error, store_read_error, ◌>>=◌}
use once_mesh.Json.{Value}
use once_mesh.Canonical.Action.{Hexdigest}
use once_mesh.Records.{Manifest, digest_of}
use once_mesh.Receipt.{Signature, Receipt, Ed25519}
use once_mesh.Receipt.Verify.{verify_receipt_for_manifest}
use once_mesh.Store.{Store, catch_value}
use once_mesh.Policy.{OperationPolicy}
use once_mesh.KeyRegistry.{ReceiptKey, ReceiptKeyResolution, resolve_key}
use once_mesh.Cache.Lookup.{LookupOutcome}
use once_mesh.Runtime.Decision.{find_store}

-- `try: … except (StoreReadError, ValueError): …`
abbrev pub catch_invalid {ℓ κ} :
    {A : Type ℓ} {B : Type κ} → Result A → Result B → (A → Result B) → Result B
catch_invalid (ok a) handler next = next a
catch_invalid (raise (store_read_error e)) handler next = handler
catch_invalid (raise (value_error e)) handler next = handler
catch_invalid (raise e) handler next = raise e

-- How a round of the loop ends: the function returns, or the loop goes on with one more failure.
pub data Round : Type 0 where
  answer : Option String → Round
  failed : String → Round

abbrev pub priority : List String
priority =
    "receipt_invalid" ∷ "receipt_key_revoked" ∷ "receipt_producer_denied" ∷ "receipt_key_unknown"
    ∷ "receipt_key_untrusted" ∷ "receipt_missing" ∷ []

-- `next((reason for reason in priority if reason in failures), "receipt_invalid")`
unfoldable pub first_failure : List String → List String → String
first_failure [] failures = "receipt_invalid"
first_failure (reason ∷ rest) failures =
    if contains failures reason then reason else first_failure rest failures

-- Whether the receipt was verified, where a ValueError means that it was not.
abbrev pub verified_or_invalid : Bool → Round
verified_or_invalid true = answer none
verified_or_invalid false = failed "receipt_invalid"

module _ (hexdigest : Hexdigest) (ed25519 : Ed25519) (m : Manifest) where
  -- What follows the test for an error of the registry.
  unfoldable pub check_resolved : Receipt → String → Option ReceiptKey → Result Round
  unfolding verify_receipt_for_manifest
  check_resolved receipt reason none = ok (failed reason)
  check_resolved receipt reason (some key) =
      catch_value (verify_receipt_for_manifest hexdigest ed25519 receipt m key.public_key)
        (ok (failed "receipt_invalid")) (λ verified. ok (verified_or_invalid verified))

  unfoldable pub check_key : Receipt → ReceiptKeyResolution → Result Round
  unfolding check_resolved
  check_key receipt resolution =
      if resolution.reason == "receipt_registry_error"
      then ok (answer (some resolution.reason))
      else check_resolved receipt resolution.reason resolution.key

  -- One round of the loop over the receipts; `loaded` is what the key registry loads.
  unfoldable pub check_one : List String → Option Value → Receipt → Option Signature → Result Round
  unfolding check_key resolve_key
  check_one trusted_keys loaded receipt none = ok (failed "receipt_missing")
  check_one trusted_keys loaded receipt (some signature) =
      if not (contains trusted_keys signature.key_id)
      then ok (failed "receipt_key_untrusted")
      else resolve_key hexdigest loaded signature.key_id m.producer >>= check_key receipt

  abbrev pub go_on :
      (List String → Result (Option String)) → List String → Round → Result (Option String)
  go_on next failures (answer a) = ok a
  go_on next failures (failed reason) = next (failures ++ reason ∷ [])

  -- The loop over the receipts, with the failures so far.
  unfoldable pub check_receipts_from :
      List String → Option Value → List String → List Receipt → Result (Option String)
  unfolding check_one first_failure
  check_receipts_from trusted_keys loaded failures [] = ok (some (first_failure priority failures))
  check_receipts_from trusted_keys loaded failures (receipt ∷ rest) =
      check_one trusted_keys loaded receipt receipt.signature
      >>= go_on (λ more. check_receipts_from trusted_keys loaded more rest) failures

  abbrev pub or_missing : Result (Option String) → List Receipt → Result (Option String)
  or_missing checked [] = ok (some "receipt_missing")
  or_missing checked (r ∷ rs) = checked

  -- The receipts of the store in which the candidate was found.
  unfoldable pub check_source : List String → Option Value → Option Store → Result (Option String)
  unfolding check_receipts_from
  check_source trusted_keys loaded none = ok (some "receipt_missing")
  check_source trusted_keys loaded (some source) =
      catch_invalid (digest_of hexdigest m >>= source.receipts) (ok (some "receipt_invalid"))
        (λ receipts. or_missing (check_receipts_from trusted_keys loaded [] receipts) receipts)

-- What follows the test for a registry.
unfoldable pub check_candidate :
    Hexdigest
    → Ed25519
    → Option String
    → List Store
    → OperationPolicy
    → Option Value
    → Option Manifest
    → Result (Option String)
unfolding check_source find_store
check_candidate hexdigest ed25519 tier stores policy loaded none = ok (some "receipt_missing")
check_candidate hexdigest ed25519 tier stores policy loaded (some m) =
    check_source hexdigest ed25519 m policy.trusted_receipt_keys loaded (find_store tier stores)

-- `_required_receipt_failure`; the registry is none, or what it loads.
unfoldable pub required_receipt_failure :
    Hexdigest
    → Ed25519
    → LookupOutcome
    → List Store
    → OperationPolicy
    → Option (Option Value)
    → Result (Option String)
unfolding check_candidate
required_receipt_failure hexdigest ed25519 candidate stores policy none =
    ok (some "receipt_registry_missing")
required_receipt_failure hexdigest ed25519 candidate stores policy (some loaded) =
    check_candidate hexdigest ed25519 candidate.tier stores policy loaded candidate.manifest
