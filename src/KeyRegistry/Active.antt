-- ===== src/KeyRegistry/Active.antt =====
-- What the resolution of src/oncemesh/key_registry.py grants.
use once_mesh.Base.{
  ℕ, ◌≡◌, ◌≢◌, inl, inr, refl, ap, ◌∙◌, subst, String, Bool, true, ◌&&◌, List, [], Option, none,
  some, ◌==◌, Bool-cases, arith, eq_iff, nat_eq, nat_eq_iff, contains, length, same_codes, codes,
}
use once_mesh.Base.Dict.{Dict, lookup, insert, lookup-insert}
use once_mesh.Base.Result.{
  ok, require, >>=-eq-ok, ok-injective, require-eq-ok, Returns, Returns-bind, Returns-ok,
}
use once_mesh.Json.{Value, bool, null, int, float, str, arr, obj, item, Fields, end, field}
use once_mesh.Canonical.Action.{Hexdigest, digest_bytes}
use once_mesh.Canonical.Checks.{is_digest}
use once_mesh.Store.{catch_value-eq-ok}
use once_mesh.Policy.{choice}
use once_mesh.Canonical.Checks.{has_keys}
use once_mesh.Canonical.Action.{has_text}
use once_mesh.Policy.Inversion.{choice-eq-ok}
use once_mesh.Receipt.{signature_profile}
use once_mesh.KeyRegistry.{
  ReceiptKey, ReceiptKeyResolution, denied, require_canonical, decode_public_key, producers_of,
  key_statuses, document_fields, resolve_record, validate_key, validate_keys, validate_key_registry,
  resolve_key,
}
use once_mesh.Base64.{is_key_text, decode_groups, encode_groups}

some-injective {ℓ} : {A : Type ℓ} {x y : A} → some x ≡ some y → x ≡ y
some-injective h = cc

nothing-resolved :
    (r : ReceiptKeyResolution) (k : ReceiptKey)
    → ok (denied "receipt_registry_error") ≡ ok r
    → r.key ≡ some k
    → ⊥
nothing-resolved r k h some_key =
    cc (ap (λ (x : ReceiptKeyResolution). x.key) (ok-injective h) ∙ some_key)

and-left : (a b : Bool) → (a && b) ≡ true → a ≡ true
and-left a b h = ground arith

decode_public_key-eq-ok :
    (value : Value) → Returns (λ bytes. length bytes ≡ 32) (decode_public_key value)
unfolding decode_public_key require_canonical
decode_public_key-eq-ok (str s) bytes h =
    let decoded = decode_groups (codes s) in
    let (_, _, h1) = >>=-eq-ok (require (is_key_text (codes s)) _) _ h in
    let (_, right, last) =
      >>=-eq-ok
        (require (nat_eq (length decoded) 32 && same_codes (encode_groups decoded) (codes s)) _) _
        h1 in
    let both = require-eq-ok _ _ right in
    subst (λ (b : List ℕ). length b ≡ 32) (ok-injective last)
      ((nat_eq_iff (length decoded) 32).0 (and-left _ _ both))
decode_public_key-eq-ok null bytes h = cc
decode_public_key-eq-ok (bool b) bytes h = cc
decode_public_key-eq-ok (int z) bytes h = cc
decode_public_key-eq-ok (float f) bytes h = cc
decode_public_key-eq-ok (arr vs) bytes h = cc
decode_public_key-eq-ok (obj fs) bytes h = cc

module _ (hexdigest : Hexdigest) where
  -- A record as an accepted document lists it under the identifier.
  pub record IsSoundKey (key_id : String) (k : ReceiptKey) : Type 0 where
    pub same_id : k.key_id ≡ key_id
    pub identifies : digest_bytes hexdigest k.public_key ≡ key_id
    pub size : length k.public_key ≡ 32
    pub known_status : contains key_statuses k.status ≡ true

  validate_key-IsSoundKey :
      (key_id : String) (value : Value)
      → Returns (IsSoundKey key_id) (validate_key hexdigest key_id value)
  unfolding validate_key
  validate_key-IsSoundKey key_id value = Returns-bind _ (require (is_digest key_id) _) _ λ _ _.
      Returns-bind _ (require (has_keys value _) _) _ λ _ _.
        Returns-bind _ (item value "profile") _ λ profile _.
          Returns-bind _ (require (has_text profile signature_profile) _) _ λ _ _.
            Returns-bind _ (item value "status") _ λ status_value _.
              Returns-bind _ (choice status_value key_statuses _) _ λ status known.
                Returns-bind _ (item value "producers") _ λ producers_value _.
                  Returns-bind _ (producers_of producers_value) _ λ producers _.
                    Returns-bind _ (item value "public_key") _ λ public_value _.
                      Returns-bind _ (decode_public_key public_value) _ λ public_key decoded.
                        Returns-bind _ (require (digest_bytes hexdigest public_key == key_id) _) _
                          λ u same. Returns-ok _ _ (record {
                            same_id = refl;
                            identifies =
                                (eq_iff (digest_bytes hexdigest public_key) key_id).0
                                  (require-eq-ok _ _ same);
                            size = decode_public_key-eq-ok public_value public_key decoded;
                            known_status = choice-eq-ok status_value key_statuses _ status known;
                          })

  abbrev AreSoundKeys : Dict ReceiptKey → Type 0
  AreSoundKeys records =
      (key_id : String) (k : ReceiptKey) → lookup key_id records ≡ some k → IsSoundKey key_id k

  validate_keys-AreSoundKeys :
      (before : Dict ReceiptKey) (entries : Fields)
      → AreSoundKeys before
      → Returns AreSoundKeys (validate_keys hexdigest before entries)
  unfolding validate_keys
  validate_keys-AreSoundKeys before end sound = Returns-ok _ before sound
  validate_keys-AreSoundKeys before (field key_id value rest) sound =
      Returns-bind _ (validate_key hexdigest key_id value) _ λ key valid.
        validate_keys-AreSoundKeys (insert key_id key before) rest (λ name k h.
          elim (Bool-cases (key_id == name)) [
            | inl same ↦
                subst (λ (n : String). IsSoundKey n k) ((eq_iff key_id name).0 same)
                  (subst (IsSoundKey key_id) (some-injective (rw (lookup-insert, same) at h))
                    (validate_key-IsSoundKey key_id value key valid))
            | inr other ↦ sound name k (rw (lookup-insert, other) at h)
          ])

  validate_key_registry-AreSoundKeys :
      (document : Value) → Returns AreSoundKeys (validate_key_registry hexdigest document)
  unfolding validate_key_registry lookup
  validate_key_registry-AreSoundKeys document =
      Returns-bind _ (require (has_keys document _) _) _ λ _ _.
        Returns-bind _ (item document "spec_version") _ λ version _.
          Returns-bind _ (require (has_text version _) _) _ λ _ _.
            Returns-bind _ (item document "keys") _ λ keys_value _.
              Returns-bind _ (document_fields keys_value) _
                λ entries _. validate_keys-AreSoundKeys [] entries (λ key_id k e. cc)

  -- Why a key may be used for receipts of the producer.
  pub record IsActive (loaded : Option Value) (key_id producer : String) (k : ReceiptKey)
      : Type 0 where
    pub document : Value
    pub records : Dict ReceiptKey
    pub is_loaded : loaded ≡ some document
    pub valid : validate_key_registry hexdigest document ≡ ok records
    pub listed : lookup key_id records ≡ some k
    pub sound : IsSoundKey key_id k
    pub active : k.status ≡ "active"
    pub permitted : contains k.producers producer ≡ true

  resolve_record-eq-some :
      (producer : String) (o : Option ReceiptKey) (k : ReceiptKey)
      → (resolve_record producer o).key ≡ some k
      → (o ≡ some k) × (k.status ≢ "revoked") × (contains k.producers producer ≡ true)
  unfolding resolve_record
  resolve_record-eq-some producer none k h = cc
  resolve_record-eq-some producer (some q) k h = elim (Bool-cases (q.status == "revoked")) [
    | inl revoked ↦ cc (rw revoked at h)
    | inr kept ↦ elim (Bool-cases (contains q.producers producer)) [
      | inr unlisted ↦ cc (rw (kept, unlisted) at h)
      | inl permitted ↦
          (let same : q ≡ k = some-injective (rw (kept, permitted) at h) in
            (
              ap some same,
              (λ d.
                  let revoked : q.status ≡ "revoked" = ap (λ (x : ReceiptKey). x.status) same ∙ d in
                  ground (arith, eq_iff q.status "revoked")),
              subst (λ (x : ReceiptKey). contains x.producers producer ≡ true) same permitted,
            ))
    ]
  ]

  active_of_status :
      (status : String)
      → contains key_statuses status ≡ true
      → status ≢ "revoked"
      → status ≡ "active"
  unfolding contains
  active_of_status status known kept =
      ground (arith, eq_iff "active" status, eq_iff "revoked" status)

  -- `resolve` returns a key only from a document that was read and is valid: the key stands there
  -- under the identifier asked for, which is the digest of its 32 bytes, it is active, and the
  -- producer is one of those it may sign for.
  pub resolve_key-IsActive :
      (loaded : Option Value) (key_id producer : String) (r : ReceiptKeyResolution) (k : ReceiptKey)
      → resolve_key hexdigest loaded key_id producer ≡ ok r
      → r.key ≡ some k
      → IsActive loaded key_id producer k
  unfolding resolve_key
  resolve_key-IsActive none key_id producer r k h some_key =
      absurd (nothing-resolved r k h some_key)
  resolve_key-IsActive (some document) key_id producer r k h some_key =
      elim (catch_value-eq-ok (validate_key_registry hexdigest document) _ _ h) [
        | inl failed ↦ absurd (nothing-resolved r k failed some_key)
        | inr passed ↦
            (let (records, valid, last) = passed in
              let (listed, kept, permitted) =
                resolve_record-eq-some producer (lookup key_id records) k
                  (ap (λ (x : ReceiptKeyResolution). x.key) (ok-injective last) ∙ some_key) in
              let sound =
                validate_key_registry-AreSoundKeys document records valid key_id k listed in
              record {
                document = document;
                records = records;
                is_loaded = refl;
                valid = valid;
                listed = listed;
                sound = sound;
                active = active_of_status k.status sound.known_status kept;
                permitted = permitted;
              })
      ]
