-- ===== src/Cache/Publish/Signed.antt =====
-- `publish_signed_result` of src/oncemesh/cache.py, on a memory store.
use once_mesh.Base.{
  ℕ, ◌≡◌, refl, sym, ap, ◌∙◌, subst, String, true, false, List, reverse, Option, none, In, here,
  eq_iff,
}
use once_mesh.Base.Dict.{Dict}
use once_mesh.Base.Result.{Result, ok, raise, ◌>>=◌, >>=-eq-ok, ok-injective}
use once_mesh.Json.{Value, Fields}
use once_mesh.Canonical.Action.{Hexdigest}
use once_mesh.Records.{Manifest, check_manifest, digest_of}
use once_mesh.Receipt.{Receipt, Ed25519, check_receipt, sign_receipt, verify_receipt}
use once_mesh.Receipt.Verify.{verify_receipt_for_manifest}
use once_mesh.Receipt.Signed.{IsEd25519, verify_receipt-sign_receipt, sign_receipt-Keeps}
use once_mesh.Store.Memory.{MemoryStore, put_receipt, receipts, listed_at}
use once_mesh.Cache.Publish.{Artifacts, publish_result}
use once_mesh.Cache.Publish.Returned.{publish_result-eq-ok}
use once_mesh.Cache.Published.{reverse-append_at}

module _ (hexdigest : Hexdigest) (ed25519 : Ed25519) where
  abbrev pub unsigned_receipt : String → String → Fields → Receipt
  unsigned_receipt result_digest producer executor_environment = record {
    result_digest = result_digest;
    producer = producer;
    executor_environment = executor_environment;
    signature = none;
  }

  -- The signature of the published manifest, and its receipt in the store.
  unfoldable pub sign_and_put :
      String → Fields → List ℕ → Manifest → MemoryStore → Result (Receipt × MemoryStore)
  sign_and_put producer executor_environment private_key m s = do
    exact ← digest_of hexdigest m
    receipt ←
        sign_receipt hexdigest ed25519 (unsigned_receipt exact producer executor_environment)
          private_key
    s' ← put_receipt receipt s
    ok (receipt, s')

  -- What an exception leaves is the store with the published result.
  abbrev pub or_unsigned :
      Manifest
      → MemoryStore
      → Result (Receipt × MemoryStore)
      → Result (Manifest × Receipt) × MemoryStore
  or_unsigned m s (ok (receipt, s')) = (ok (m, receipt), s')
  or_unsigned m s (raise e) = (raise e, s)

  abbrev pub after_publication :
      (Manifest → MemoryStore → Result (Receipt × MemoryStore))
      → Result Manifest × MemoryStore
      → Result (Manifest × Receipt) × MemoryStore
  after_publication next (ok m, s) = or_unsigned m s (next m s)
  after_publication next (raise e, s) = (raise e, s)

  unfoldable pub publish_signed_result :
      Value
      → Artifacts
      → String
      → ℕ
      → Option ℕ
      → Fields
      → List ℕ
      → Option (Dict String)
      → MemoryStore
      → Result (Manifest × Receipt) × MemoryStore
  unfolding publish_result sign_and_put
  publish_signed_result action artifacts producer produced_at fresh_until executor_environment
        private_key dependencies s =
      after_publication (sign_and_put producer executor_environment private_key)
        (publish_result hexdigest action artifacts producer produced_at fresh_until dependencies s)

  after_publication-eq-ok :
      (next : Manifest → MemoryStore → Result (Receipt × MemoryStore))
      (o : Result Manifest × MemoryStore) (m : Manifest) (r : Receipt) (s' : MemoryStore)
      → after_publication next o ≡ (ok (m, r), s')
      → (s1 : MemoryStore) × (o.0 ≡ ok m) × (o.1 ≡ s1) × (next m s1 ≡ ok (r, s'))
  after_publication-eq-ok next (ok n, s) m r s' h = kept (next n s) refl h
    where
      kept :
          (o : Result (Receipt × MemoryStore))
          → next n s ≡ o
          → or_unsigned n s o ≡ (ok (m, r), s')
          → (s1 : MemoryStore) × (ok n ≡ ok m) × (s ≡ s1) × (next m s1 ≡ ok (r, s'))
      kept (ok (q, u)) e k =
          let both : ◌≡◌ {A = Manifest × Receipt} (n, q) (m, r) =
            ok-injective (ap (λ (p : Result (Manifest × Receipt) × MemoryStore). p.0) k) in
          let same : ◌≡◌ {A = Result (Receipt × MemoryStore)} (ok (q, u)) (ok (r, s')) =
            λ i. ok ((both i).1, (k i).1) in
          (
            s,
            (λ i. ok (both i).0),
            refl,
            subst (λ x. next x s ≡ ok (r, s')) (λ i. (both i).0) (e ∙ same),
          )
      kept (raise error) e k = cc (ap (λ (p : Result (Manifest × Receipt) × MemoryStore). p.0) k)
  after_publication-eq-ok next (raise e, s) m r s' h =
      cc (ap (λ (p : Result (Manifest × Receipt) × MemoryStore). p.0) h)

  put_receipt-In :
      (r : Receipt) (s s' : MemoryStore)
      → put_receipt r s ≡ ok s'
      → In r (receipts s' r.result_digest)
  unfolding put_receipt receipts
  put_receipt-In r s s' h =
      let (_, _, last) = >>=-eq-ok (check_receipt false r) _ h in
      subst (λ (u : MemoryStore). In r (reverse (listed_at r.result_digest u.receipts)))
        (ok-injective last)
        (subst (In r) (sym (reverse-append_at r.result_digest r s.receipts)) here)

  verify_receipt_for_manifest-intro :
      (r : Receipt) (m : Manifest) (exact : String) (public_key : List ℕ)
      → check_manifest m ≡ ok tt
      → check_receipt true r ≡ ok tt
      → digest_of hexdigest m ≡ ok exact
      → r.result_digest ≡ exact
      → r.producer ≡ m.producer
      → verify_receipt hexdigest ed25519 r public_key ≡ ok true
      → verify_receipt_for_manifest hexdigest ed25519 r m public_key ≡ ok true
  unfolding verify_receipt_for_manifest verify_receipt
  verify_receipt_for_manifest-intro r m exact public_key valid checked digested same producer
        verified =
      rw
        (
          valid,
          checked,
          digested,
          (eq_iff r.result_digest exact).1 same,
          (eq_iff r.producer m.producer).1 producer,
        )
        (rw checked at verified)

  sign_and_put-eq-ok :
      (producer : String) (executor_environment : Fields) (private_key : List ℕ) (m : Manifest)
      (exact : String) (s s' : MemoryStore) (r : Receipt)
      → IsEd25519 ed25519
      → check_manifest m ≡ ok tt
      → digest_of hexdigest m ≡ ok exact
      → m.producer ≡ producer
      → sign_and_put producer executor_environment private_key m s ≡ ok (r, s')
      → In r (receipts s' exact)
        × (verify_receipt_for_manifest hexdigest ed25519 r m (ed25519.public_key private_key)
            ≡ ok true)
  unfolding sign_and_put
  sign_and_put-eq-ok producer executor_environment private_key m exact s s' r scheme valid digested
        same h =
      let unsigned = unsigned_receipt exact producer executor_environment in
      let (signed, is_signed, h1) =
        >>=-eq-ok (sign_receipt hexdigest ed25519 unsigned private_key) _ (rw digested at h) in
      let (u, put, last) = >>=-eq-ok (put_receipt signed s) _ h1 in
      let (same_digest, same_producer, checked) =
        sign_receipt-Keeps hexdigest ed25519 unsigned signed private_key is_signed in
      let found =
        subst (λ d. In signed (receipts u d)) same_digest (put_receipt-In signed s u put) in
      let verified =
        verify_receipt_for_manifest-intro signed m exact (ed25519.public_key private_key) valid
          checked digested same_digest (same_producer ∙ sym same)
          (verify_receipt-sign_receipt hexdigest ed25519 unsigned signed private_key scheme
            is_signed) in
      let both : ◌≡◌ {A = Receipt × MemoryStore} (signed, u) (r, s') = ok-injective last in
      subst
        (λ (p : Receipt × MemoryStore).
          In p.0 (receipts p.1 exact)
          × (verify_receipt_for_manifest hexdigest ed25519 p.0 m (ed25519.public_key private_key)
              ≡ ok true))
        both (found, verified)

-- After `publish_signed_result` returned, the store has its receipt under the digest of the result, and
-- `verify_receipt_for_manifest` accepts it for the published manifest under the public key of the seed,
-- for any signature scheme with the sizes of Ed25519 whose signatures verify.
pub verify_receipt_for_manifest-publish_signed_result :
    (hexdigest : Hexdigest) (ed25519 : Ed25519) (action : Value) (artifacts : Artifacts)
    (producer : String) (produced_at : ℕ) (fresh_until : Option ℕ) (executor_environment : Fields)
    (private_key : List ℕ) (dependencies : Option (Dict String)) (s s' : MemoryStore) (m : Manifest)
    (r : Receipt)
    → IsEd25519 ed25519
    → publish_signed_result hexdigest ed25519 action artifacts producer produced_at fresh_until
        executor_environment private_key dependencies s
      ≡ (ok (m, r), s')
    → (exact : String) × (digest_of hexdigest m ≡ ok exact)
      × In r (receipts s' exact)
      × (verify_receipt_for_manifest hexdigest ed25519 r m (ed25519.public_key private_key)
          ≡ ok true)
unfolding publish_signed_result sign_and_put
verify_receipt_for_manifest-publish_signed_result hexdigest ed25519 action artifacts producer
      produced_at fresh_until executor_environment private_key dependencies s s' m r scheme h =
    let o =
      publish_result hexdigest action artifacts producer produced_at fresh_until dependencies s in
    let (s1, returned, left, h1) =
      after_publication-eq-ok hexdigest ed25519
        (sign_and_put hexdigest ed25519 producer executor_environment private_key) o m r s' h in
    let (exact, valid, digested, same_producer) =
      publish_result-eq-ok hexdigest action artifacts producer produced_at fresh_until dependencies
        s s1 m (λ i. (returned i, left i)) in
    let (found, verified) =
      sign_and_put-eq-ok hexdigest ed25519 producer executor_environment private_key m exact s1 s' r
        scheme valid digested same_producer h1 in
    (exact, digested, found, verified)
