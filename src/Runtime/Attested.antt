-- ===== src/Runtime/Attested.antt =====
-- When `_required_receipt_failure` of src/oncemesh/runtime.py finds no failure.
use once_mesh.Base.{
  ◌≡◌, refl, ap, ◌∙◌, ◌⊎◌, inl, inr, String, Bool, true, false, List, [], ◌∷◌, ◌++◌, Option, none,
  some, ◌==◌, In, here, there, contains, Bool-cases,
}
use once_mesh.Base.Result.{
  Result, ok, raise, value_error, store_read_error, key_error, type_error, runtime_error,
  out_of_fuel, ◌>>=◌, >>=-eq-ok,
}
use once_mesh.Json.{Value}
use once_mesh.Canonical.Action.{Hexdigest}
use once_mesh.Records.{Manifest, digest_of}
use once_mesh.Receipt.{Signature, Receipt, Ed25519}
use once_mesh.Receipt.Verify.{
  verify_receipt_for_manifest, IsAuthentic, verify_receipt_for_manifest-IsAuthentic,
}
use once_mesh.Store.{Store, catch_value-eq-ok}
use once_mesh.Policy.{OperationPolicy}
use once_mesh.KeyRegistry.{ReceiptKey, ReceiptKeyResolution, resolve_key}
use once_mesh.KeyRegistry.Active.{IsActive, resolve_key-IsActive}
use once_mesh.Cache.Lookup.{LookupOutcome}
use once_mesh.Runtime.Decision.{find_store}
use once_mesh.Runtime.Receipts.{
  catch_invalid, Round, answer, failed, verified_or_invalid, check_resolved, check_key, check_one,
  go_on, check_receipts_from, or_missing, check_source, check_candidate, required_receipt_failure,
}

-- A receipt in the store, by a key that the policy trusts and that is active for the producer, which
-- is authentic for the manifest.
pub record HasReceipt (hexdigest : Hexdigest) (ed25519 : Ed25519) (m : Manifest)
    (trusted_keys : List String) (loaded : Option Value) (receipts : List Receipt) : Type 0 where
  pub receipt : Receipt
  pub signature : Signature
  pub key : ReceiptKey
  pub listed : In receipt receipts
  pub is_signed : receipt.signature ≡ some signature
  pub trusted : contains trusted_keys signature.key_id ≡ true
  pub is_active : IsActive hexdigest loaded signature.key_id m.producer key
  pub is_authentic : IsAuthentic hexdigest ed25519 receipt m key.public_key

-- `catch_invalid` whose handler does not return this.
catch_invalid-eq-ok {ℓ κ} :
    {A : Type ℓ} {B : Type κ} (m : Result A) (handler : Result B) (next : A → Result B) {b : B}
    → catch_invalid m handler next ≡ ok b
    → (handler ≡ ok b) ⊎ ((a : A) × (m ≡ ok a) × (next a ≡ ok b))
catch_invalid-eq-ok (ok a) handler next h = inr (a, refl, h)
catch_invalid-eq-ok (raise (value_error e)) handler next h = inl h
catch_invalid-eq-ok (raise (store_read_error e)) handler next h = inl h
catch_invalid-eq-ok (raise (key_error e)) handler next h = cc
catch_invalid-eq-ok (raise (type_error e)) handler next h = cc
catch_invalid-eq-ok (raise (runtime_error e)) handler next h = cc
catch_invalid-eq-ok (raise out_of_fuel) handler next h = cc

failed-IsNoAnswer : (reason : String) (a : Option String) → ok (failed reason) ≡ ok (answer a) → ⊥
failed-IsNoAnswer reason a h = cc

verified_or_invalid-eq-answer :
    (b : Bool) → ok (verified_or_invalid b) ≡ ok (answer none) → b ≡ true
verified_or_invalid-eq-answer true h = refl
verified_or_invalid-eq-answer false h = cc

module _ (hexdigest : Hexdigest) (ed25519 : Ed25519) (m : Manifest) where
  check_resolved-eq-answer :
      (receipt : Receipt) (reason : String) (o : Option ReceiptKey)
      → check_resolved hexdigest ed25519 m receipt reason o ≡ ok (answer none)
      → (key : ReceiptKey) × (o ≡ some key)
        × (verify_receipt_for_manifest hexdigest ed25519 receipt m key.public_key ≡ ok true)
  unfolding check_resolved
  check_resolved-eq-answer receipt reason none h = cc
  check_resolved-eq-answer receipt reason (some key) h =
      elim (catch_value-eq-ok
        (verify_receipt_for_manifest hexdigest ed25519 receipt m key.public_key) _ _ h) [
          | inl invalid ↦ cc
          | inr passed ↦
              (let (verified, e, last) = passed in
                (key, refl, e ∙ ap ok (verified_or_invalid-eq-answer verified last)))
        ]

  check_key-eq-answer :
      (receipt : Receipt) (resolution : ReceiptKeyResolution)
      → check_key hexdigest ed25519 m receipt resolution ≡ ok (answer none)
      → (key : ReceiptKey) × (resolution.key ≡ some key)
        × (verify_receipt_for_manifest hexdigest ed25519 receipt m key.public_key ≡ ok true)
  unfolding check_key
  check_key-eq-answer receipt resolution h =
      elim (Bool-cases (resolution.reason == "receipt_registry_error")) [
        | inl error ↦ cc (rw error at h)
        | inr passed ↦
            check_resolved-eq-answer receipt resolution.reason resolution.key (rw passed at h)
      ]

  check_one-HasReceipt :
      (trusted_keys : List String) (loaded : Option Value) (receipt : Receipt)
      (receipts : List Receipt) (o : Option Signature)
      → receipt.signature ≡ o
      → In receipt receipts
      → check_one hexdigest ed25519 m trusted_keys loaded receipt o ≡ ok (answer none)
      → HasReceipt hexdigest ed25519 m trusted_keys loaded receipts
  unfolding check_one
  check_one-HasReceipt trusted_keys loaded receipt receipts none is_signed listed h = cc
  check_one-HasReceipt trusted_keys loaded receipt receipts (some signature) is_signed listed h =
      elim (Bool-cases (contains trusted_keys signature.key_id)) [
        | inr untrusted ↦ cc (rw untrusted at h)
        | inl trusted ↦
            (let (resolution, resolved, last) =
                >>=-eq-ok (resolve_key hexdigest loaded signature.key_id m.producer) _
                  (rw trusted at h) in
              let (key, is_key, verified) = check_key-eq-answer receipt resolution last in
              record {
                receipt = receipt;
                signature = signature;
                key = key;
                listed = listed;
                is_signed = is_signed;
                trusted = trusted;
                is_active =
                    resolve_key-IsActive hexdigest loaded signature.key_id m.producer resolution key
                      resolved is_key;
                is_authentic =
                    verify_receipt_for_manifest-IsAuthentic hexdigest ed25519 receipt m
                      key.public_key verified;
              })
      ]

  after_round-HasReceipt :
      (trusted_keys : List String) (loaded : Option Value) (receipt : Receipt)
      (receipts : List Receipt)
      → In receipt receipts
      → (next : List String → Result (Option String)) (failures : List String) (round : Round)
      → check_one hexdigest ed25519 m trusted_keys loaded receipt receipt.signature ≡ ok round
      → ((more : List String)
          → next more ≡ ok none
          → HasReceipt hexdigest ed25519 m trusted_keys loaded receipts)
      → go_on hexdigest ed25519 m next failures round ≡ ok none
      → HasReceipt hexdigest ed25519 m trusted_keys loaded receipts
  after_round-HasReceipt trusted_keys loaded receipt receipts listed next failures (answer none)
        checked again last =
      check_one-HasReceipt trusted_keys loaded receipt receipts receipt.signature refl listed
        checked
  after_round-HasReceipt trusted_keys loaded receipt receipts listed next failures
        (answer (some reason)) checked again last =
      cc
  after_round-HasReceipt trusted_keys loaded receipt receipts listed next failures (failed reason)
        checked again last =
      again (failures ++ reason ∷ []) last

  check_receipts_from-HasReceipt :
      (trusted_keys : List String) (loaded : Option Value) (failures : List String)
      (rest receipts : List Receipt)
      → ((r : Receipt) → In r rest → In r receipts)
      → check_receipts_from hexdigest ed25519 m trusted_keys loaded failures rest ≡ ok none
      → HasReceipt hexdigest ed25519 m trusted_keys loaded receipts
  unfolding check_receipts_from
  check_receipts_from-HasReceipt trusted_keys loaded failures [] receipts within h = cc
  check_receipts_from-HasReceipt trusted_keys loaded failures (receipt ∷ rest) receipts within h =
      let (round, checked, last) =
        >>=-eq-ok (check_one hexdigest ed25519 m trusted_keys loaded receipt receipt.signature) _
          h in
      after_round-HasReceipt trusted_keys loaded receipt receipts (within receipt here) _ failures
        round checked
        (λ more again.
          check_receipts_from-HasReceipt trusted_keys loaded more rest receipts
            (λ r listed. within r (there listed)) again)
        last

  or_missing-eq-none :
      (checked : Result (Option String)) (receipts : List Receipt)
      → or_missing hexdigest ed25519 m checked receipts ≡ ok none
      → checked ≡ ok none
  or_missing-eq-none checked [] h = cc
  or_missing-eq-none checked (r ∷ rs) h = h

-- The store of the candidate's tier holds a receipt for the candidate's manifest.
pub record IsAttested (hexdigest : Hexdigest) (ed25519 : Ed25519) (candidate : LookupOutcome)
    (stores : List Store) (policy : OperationPolicy) (loaded : Option Value) : Type 0 where
  pub m : Manifest
  pub source : Store
  pub digest : String
  pub receipts : List Receipt
  pub is_manifest : candidate.manifest ≡ some m
  pub is_source : find_store candidate.tier stores ≡ some source
  pub is_digest : digest_of hexdigest m ≡ ok digest
  pub are_receipts : source.receipts digest ≡ ok receipts
  pub has_receipt : HasReceipt hexdigest ed25519 m policy.trusted_receipt_keys loaded receipts

module _ (hexdigest : Hexdigest) (ed25519 : Ed25519) (candidate : LookupOutcome)
    (stores : List Store) (policy : OperationPolicy) (loaded : Option Value) where
  check_source-IsAttested :
      (m : Manifest)
      → candidate.manifest ≡ some m
      → (o : Option Store) → find_store candidate.tier stores ≡ o
      → check_source hexdigest ed25519 m policy.trusted_receipt_keys loaded o ≡ ok none
      → IsAttested hexdigest ed25519 candidate stores policy loaded
  unfolding check_source
  check_source-IsAttested m is_manifest none is_source h = cc
  check_source-IsAttested m is_manifest (some source) is_source h =
      elim (catch_invalid-eq-ok (digest_of hexdigest m >>= source.receipts) _ _ h) [
        | inl invalid ↦ cc
        | inr passed ↦
            (let (receipts, read, last) = passed in
              let (digest, is_digest, are_receipts) = >>=-eq-ok (digest_of hexdigest m) _ read in
              record {
                m = m;
                source = source;
                digest = digest;
                receipts = receipts;
                is_manifest = is_manifest;
                is_source = is_source;
                is_digest = is_digest;
                are_receipts = are_receipts;
                has_receipt =
                    check_receipts_from-HasReceipt hexdigest ed25519 m policy.trusted_receipt_keys
                      loaded [] receipts receipts (λ r listed. listed)
                      (or_missing-eq-none hexdigest ed25519 m _ receipts last);
              })
      ]

  check_candidate-IsAttested :
      (o : Option Manifest)
      → candidate.manifest ≡ o
      → check_candidate hexdigest ed25519 candidate.tier stores policy loaded o ≡ ok none
      → IsAttested hexdigest ed25519 candidate stores policy loaded
  unfolding check_candidate
  check_candidate-IsAttested none is_manifest h = cc
  check_candidate-IsAttested (some m) is_manifest h =
      check_source-IsAttested m is_manifest (find_store candidate.tier stores) refl h

-- No failure is found only with a key registry, and with a receipt that it lets stand.
pub required_receipt_failure-IsAttested :
    (hexdigest : Hexdigest) (ed25519 : Ed25519) (candidate : LookupOutcome) (stores : List Store)
    (policy : OperationPolicy) (keys : Option (Option Value))
    → required_receipt_failure hexdigest ed25519 candidate stores policy keys ≡ ok none
    → (loaded : Option Value) × (keys ≡ some loaded)
      × IsAttested hexdigest ed25519 candidate stores policy loaded
unfolding required_receipt_failure
required_receipt_failure-IsAttested hexdigest ed25519 candidate stores policy none h = cc
required_receipt_failure-IsAttested hexdigest ed25519 candidate stores policy (some loaded) h = (
  loaded,
  refl,
  check_candidate-IsAttested hexdigest ed25519 candidate stores policy loaded candidate.manifest
      refl h,
)
