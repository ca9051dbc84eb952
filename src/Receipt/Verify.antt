-- ===== src/Receipt/Verify.antt =====
-- `verify_receipt_for_manifest` of src/oncemesh/receipt.py, and what a verified receipt attests.
use once_mesh.Base.{
  ℕ, ◌≡◌, refl, sym, ap, ◌∙◌, inl, inr, Bool, true, false, not, List, Option, none, some, ◌==◌,
  nat_eq, nat_eq_iff, length, if◌then◌else◌, Bool-cases, eq_iff,
}
use once_mesh.Base.Result.{
  Result, ok, require, ◌>>=◌, ◌>>◌, >>=-eq-ok, ok-injective, require-eq-ok, Returns,
}
use once_mesh.Canonical.Action.{Hexdigest, digest_bytes}
use once_mesh.Records.{Manifest, check_manifest, digest_of}
use once_mesh.Receipt.{
  Signature, Receipt, Ed25519, check_receipt, decode_signature, signing_input, verify_signature,
  verify_receipt,
}

module _ (hexdigest : Hexdigest) (ed25519 : Ed25519) where
  unfoldable pub verify_receipt_for_manifest : Receipt → Manifest → List ℕ → Result Bool
  unfolding verify_receipt
  verify_receipt_for_manifest r m public_key = do
    check_manifest m
    check_receipt true r
    exact ← digest_of hexdigest m
    if not (r.result_digest == exact)
        then ok false
        else if not (r.producer == m.producer)
        then ok false
        else verify_receipt hexdigest ed25519 r public_key

  -- The receipt has a signature of its own signing input, by the key that it names.
  pub record IsGenuine (r : Receipt) (public_key : List ℕ) : Type 0 where
    pub signature : Signature
    pub decoded : List ℕ
    pub message : List ℕ
    pub size : length public_key ≡ 32
    pub is_signed : r.signature ≡ some signature
    pub names_key : signature.key_id ≡ digest_bytes hexdigest public_key
    pub is_decoded : decode_signature signature.value ≡ ok decoded
    pub is_message : signing_input r ≡ ok message
    pub genuine : ed25519.verify public_key decoded message ≡ true

  -- The receipt is genuine, and is about exactly this manifest and its producer.
  pub record IsAuthentic (r : Receipt) (m : Manifest) (public_key : List ℕ) : Type 0 where
    pub exact : digest_of hexdigest m ≡ ok r.result_digest
    pub same_producer : r.producer ≡ m.producer
    pub is_genuine : IsGenuine r public_key

  false-IsNotTrue : {P : Type 0} → Returns (λ (b : Bool). b ≡ true → P) (ok false)
  false-IsNotTrue b h t = cc

  verify_signature-IsGenuine :
      (r : Receipt) (o : Option Signature) (public_key : List ℕ)
      → length public_key ≡ 32
      → r.signature ≡ o
      → Returns
          (λ b. b ≡ true → IsGenuine r public_key)
          (verify_signature hexdigest ed25519 r o public_key)
  unfolding verify_signature
  verify_signature-IsGenuine r none public_key size is_signed b h t = cc
  verify_signature-IsGenuine r (some signature) public_key size is_signed b h t =
      elim (Bool-cases (signature.key_id == digest_bytes hexdigest public_key)) [
        | inr other ↦ cc (rw other at h)
        | inl same ↦
            (let (decoded, is_decoded, h1) =
                >>=-eq-ok (decode_signature signature.value) _ (rw same at h) in
              let (message, is_message, last) = >>=-eq-ok (signing_input r) _ h1 in
              record {
                signature = signature;
                decoded = decoded;
                message = message;
                size = size;
                is_signed = is_signed;
                names_key = (eq_iff signature.key_id (digest_bytes hexdigest public_key)).0 same;
                is_decoded = is_decoded;
                is_message = is_message;
                genuine = ok-injective last ∙ t;
              })
      ]

  -- `verify_receipt` answers true only for a genuine receipt.
  pub verify_receipt-IsGenuine :
      (r : Receipt) (public_key : List ℕ)
      → verify_receipt hexdigest ed25519 r public_key ≡ ok true
      → IsGenuine r public_key
  unfolding verify_receipt
  verify_receipt-IsGenuine r public_key h =
      let (_, _, h1) = >>=-eq-ok (check_receipt true r) _ h in
      let (_, sized, last) = >>=-eq-ok (require (nat_eq (length public_key) 32) _) _ h1 in
      verify_signature-IsGenuine r r.signature public_key
        ((nat_eq_iff (length public_key) 32).0 (require-eq-ok _ _ sized)) refl true last refl

  -- `verify_receipt_for_manifest` answers true only for a receipt of exactly this manifest, by its
  -- producer's name, that has a valid signature of its signing input under the key it names.
  pub verify_receipt_for_manifest-IsAuthentic :
      (r : Receipt) (m : Manifest) (public_key : List ℕ)
      → verify_receipt_for_manifest r m public_key ≡ ok true
      → IsAuthentic r m public_key
  unfolding verify_receipt_for_manifest
  verify_receipt_for_manifest-IsAuthentic r m public_key h =
      let (_, _, h1) = >>=-eq-ok (check_manifest m) _ h in
      let (_, _, h2) = >>=-eq-ok (check_receipt true r) _ h1 in
      let (exact, digested, h3) = >>=-eq-ok (digest_of hexdigest m) _ h2 in
      elim (Bool-cases (r.result_digest == exact)) [
        | inr other ↦ cc (rw other at h3)
        | inl same ↦ elim (Bool-cases (r.producer == m.producer)) [
          | inr other ↦ cc (rw (same, other) at h3)
          | inl producer ↦ record {
            exact = digested ∙ ap ok (sym ((eq_iff r.result_digest exact).0 same));
            same_producer = (eq_iff r.producer m.producer).0 producer;
            is_genuine = verify_receipt-IsGenuine r public_key (rw (same, producer) at h3);
          }
        ]
      ]
