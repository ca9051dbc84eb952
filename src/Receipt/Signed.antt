-- ===== src/Receipt/Signed.antt =====
-- Signing and then verifying by src/oncemesh/receipt.py.
use once_mesh.Base.{
  ℕ, ◌<◌, ◌≡◌, refl, sym, ap, subst, true, false, List, Option, none, some, All, nat_eq, nat_eq_iff,
  length, codes, eq_refl, is_none,
}
use once_mesh.Base.Result.{ok, require, >>=-eq-ok, ok-injective}
use once_mesh.Base64.{encode_text, encode_groups}
use once_mesh.Base64.Roundtrip.{
  codes-text_from, is_code-encode_groups, decode_groups-encode_groups, same_codes_refl,
}
use once_mesh.Canonical.Action.{Hexdigest, digest_bytes}
use once_mesh.Receipt.{
  Receipt, Ed25519, check_receipt, decode_signature, signing_input, sign_receipt, signed_with,
  verify_signature, verify_receipt,
}

-- What RFC 8032 says of the sizes of keys and signatures, and that a signature verifies.
pub record IsEd25519 (ed25519 : Ed25519) : Type 0 where
  pub key_size : (seed : List ℕ) → length (ed25519.public_key seed) ≡ 32
  pub signature_size : (seed message : List ℕ) → length (ed25519.sign seed message) ≡ 64
  pub signature_bytes : (seed message : List ℕ) → All (λ b. b < 256) (ed25519.sign seed message)
  pub verifies :
      (seed message : List ℕ)
      → ed25519.verify (ed25519.public_key seed) (ed25519.sign seed message) message ≡ true

codes-encode_text :
    (bytes : List ℕ) → All (λ b. b < 256) bytes → codes (encode_text bytes) ≡ encode_groups bytes
unfolding encode_text
codes-encode_text bytes h = codes-text_from (encode_groups bytes) (is_code-encode_groups bytes h)

-- A signature of 64 bytes is decoded from its text.
pub decode_signature-encode_text :
    (bytes : List ℕ)
    → All (λ b. b < 256) bytes
    → length bytes ≡ 64
    → decode_signature (encode_text bytes) ≡ ok bytes
unfolding decode_signature
decode_signature-encode_text bytes h size =
    rw
      (
        codes-encode_text bytes h,
        decode_groups-encode_groups bytes h,
        (nat_eq_iff (length bytes) 64).1 size,
        same_codes_refl (encode_groups bytes),
      )
      refl

none_of_is_none {ℓ} : {A : Type ℓ} (o : Option A) → is_none o ≡ true → o ≡ none
none_of_is_none none h = refl
none_of_is_none (some a) h = cc

signing_input-signed_with :
    (hexdigest : Hexdigest) (ed25519 : Ed25519) (r : Receipt) (seed message : List ℕ)
    → signing_input (signed_with hexdigest ed25519 r seed message) ≡ signing_input r
unfolding signing_input
signing_input-signed_with hexdigest ed25519 r seed message = refl

verify_receipt-signed_with :
    (hexdigest : Hexdigest) (ed25519 : Ed25519) (r : Receipt) (seed message : List ℕ)
    → IsEd25519 ed25519
    → signing_input r ≡ ok message
    → check_receipt true (signed_with hexdigest ed25519 r seed message) ≡ ok tt
    → verify_receipt hexdigest ed25519
        (signed_with hexdigest ed25519 r seed message)
        (ed25519.public_key seed)
      ≡ ok true
unfolding verify_receipt verify_signature
verify_receipt-signed_with hexdigest ed25519 r seed message scheme is_message checked =
    rw
      (
        checked,
        (nat_eq_iff (length (ed25519.public_key seed)) 32).1 (scheme.key_size seed),
        eq_refl (digest_bytes hexdigest (ed25519.public_key seed)),
        decode_signature-encode_text (ed25519.sign seed message)
            (scheme.signature_bytes seed message) (scheme.signature_size seed message),
        signing_input-signed_with hexdigest ed25519 r seed message,
        is_message,
        scheme.verifies seed message,
      )
      refl

-- A receipt that `sign_receipt` returned is verified by `verify_receipt` under the public key of the
-- seed, for any signature scheme with the sizes of Ed25519 whose signatures verify.
pub verify_receipt-sign_receipt :
    (hexdigest : Hexdigest) (ed25519 : Ed25519) (r signed : Receipt) (seed : List ℕ)
    → IsEd25519 ed25519
    → sign_receipt hexdigest ed25519 r seed ≡ ok signed
    → verify_receipt hexdigest ed25519 signed (ed25519.public_key seed) ≡ ok true
unfolding sign_receipt
verify_receipt-sign_receipt hexdigest ed25519 r signed seed scheme h =
    let (_, unsigned, h1) = >>=-eq-ok (require (is_none r.signature) _) _ h in
    let (_, _, h2) = >>=-eq-ok (check_receipt false r) _ h1 in
    let (_, _, h3) = >>=-eq-ok (require (nat_eq (length seed) 32) _) _ h2 in
    let (message, is_message, h4) = >>=-eq-ok (signing_input r) _ h3 in
    let (_, checked, last) =
      >>=-eq-ok (check_receipt true (signed_with hexdigest ed25519 r seed message)) _ h4 in
    subst (λ (s : Receipt). verify_receipt hexdigest ed25519 s (ed25519.public_key seed) ≡ ok true)
      (ok-injective last)
      (verify_receipt-signed_with hexdigest ed25519 r seed message scheme is_message checked)

-- What the signature leaves as it was.
pub sign_receipt-Keeps :
    (hexdigest : Hexdigest) (ed25519 : Ed25519) (r signed : Receipt) (seed : List ℕ)
    → sign_receipt hexdigest ed25519 r seed ≡ ok signed
    → (signed.result_digest ≡ r.result_digest)
      × (signed.producer ≡ r.producer)
      × (check_receipt true signed ≡ ok tt)
unfolding sign_receipt
sign_receipt-Keeps hexdigest ed25519 r signed seed h =
    let (_, unsigned, h1) = >>=-eq-ok (require (is_none r.signature) _) _ h in
    let (_, _, h2) = >>=-eq-ok (check_receipt false r) _ h1 in
    let (_, _, h3) = >>=-eq-ok (require (nat_eq (length seed) 32) _) _ h2 in
    let (message, is_message, h4) = >>=-eq-ok (signing_input r) _ h3 in
    let (_, checked, last) =
      >>=-eq-ok (check_receipt true (signed_with hexdigest ed25519 r seed message)) _ h4 in
    (
      ap (λ (s : Receipt). s.result_digest) (sym (ok-injective last)),
      ap (λ (s : Receipt). s.producer) (sym (ok-injective last)),
      subst (λ (s : Receipt). check_receipt true s ≡ ok tt) (ok-injective last) checked,
    )
