-- ===== src/KeyRegistry/Roundtrip.antt =====
-- Encoding and decoding the public keys of src/oncemesh/key_registry.py, in both orders.
use text.Mathlib.TextEquality.{Char-path}
use Prim.Native.Char.{code}
use once_mesh.Base.{
  ℕ, ◌<◌, ◌≡◌, refl, ap, ◌∙◌, subst, Bool, true, false, ◌&&◌, all, nat_eq, same_codes, String, List,
  [], ◌∷◌, All, arith, nat_eq_iff, length, codes,
}
use once_mesh.Base.Result.{ok, require, >>=-eq-ok, ok-injective, require-eq-ok}
use once_mesh.Json.{Value, str, null, bool, int, float, arr, obj}
use once_mesh.Store.{Bytes}
use once_mesh.Base64.{is_code, is_key_text, encode_groups, decode_groups, encode_text, text_from}
use once_mesh.Base64.Roundtrip.{
  decode_groups-encode_groups, is_code-encode_groups, length-encode_groups, same_codes_refl,
  codes-text_from,
}
use once_mesh.KeyRegistry.{decode_public_key, encode_public_key, require_canonical}

-- The text of the encoding of 32 bytes is accepted as a public key, and is decoded to those bytes.
pub decode_public_key-encode_groups :
    (key : List ℕ) (text : String)
    → All (λ b. b < 256) key
    → length key ≡ 32
    → codes text ≡ encode_groups key
    → decode_public_key (str text) ≡ ok key
unfolding decode_public_key require_canonical is_key_text
decode_public_key-encode_groups key text bytes size same =
    let digits : length (encode_groups key) ≡ 43 = omega (arith, length-encode_groups key) in
    rw
      (
        same,
        is_code-encode_groups key bytes,
        (nat_eq_iff (length (encode_groups key)) 43).1 digits,
        decode_groups-encode_groups key bytes,
        (nat_eq_iff (length key) 32).1 size,
        same_codes_refl (encode_groups key),
      )
      refl

codes-injective : (s t : String) → codes s ≡ codes t → s ≡ t
codes-injective String.[] String.[] h = refl
codes-injective String.[] (String.◌∷◌ d t) h = cc
codes-injective (String.◌∷◌ c s) String.[] h = cc
codes-injective (String.◌∷◌ c s) (String.◌∷◌ d t) h =
    let first : code c ≡ code d = cc in
    let rest : codes s ≡ codes t = cc in
    ap (λ x. String.◌∷◌ x s) (Char-path c d first)
    ∙ ap (λ more. String.◌∷◌ d more) (codes-injective s t rest)

same_codes-eq : (a b : List ℕ) → same_codes a b ≡ true → a ≡ b
unfolding same_codes
same_codes-eq [] [] h = refl
same_codes-eq [] (d ∷ ds) h = cc
same_codes-eq (c ∷ cs) [] h = cc
same_codes-eq (c ∷ cs) (d ∷ ds) h = ground (arith, same_codes-eq cs ds, nat_eq_iff c d)

both-true : (a b : Bool) → (a && b) ≡ true → (a ≡ true) × (b ≡ true)
both-true true b h = (refl, h)
both-true false b h = cc

encode_text-eq :
    (text : String) (key : Bytes)
    → all is_code (codes text) ≡ true
    → encode_groups key ≡ codes text
    → encode_text key ≡ text
unfolding encode_text
encode_text-eq text key digits same =
    codes-injective (text_from (encode_groups key)) text
      (codes-text_from (encode_groups key) (rw same digits) ∙ same)

-- A value that `_decode_public_key` accepts is the text that `encode_public_key` returns for the decoded
-- bytes, so a key has exactly one text that is accepted.
pub encode_public_key-decode_public_key :
    (value : Value) (key : Bytes)
    → decode_public_key value ≡ ok key
    → (text : String) × (value ≡ str text) × (encode_public_key key ≡ ok text)
unfolding decode_public_key require_canonical is_key_text encode_public_key
encode_public_key-decode_public_key (str s) key h =
    let decoded = decode_groups (codes s) in
    let (_, key_text, h1) = >>=-eq-ok (require (is_key_text (codes s)) _) _ h in
    let (_, canonical, last) =
      >>=-eq-ok
        (require (nat_eq (length decoded) 32 && same_codes (encode_groups decoded) (codes s)) _) _
        h1 in
    let (digits, _) = both-true (all is_code (codes s)) _ (require-eq-ok _ _ key_text) in
    let (size, same) = both-true (nat_eq (length decoded) 32) _ (require-eq-ok _ _ canonical) in
    let encoded : encode_text decoded ≡ s =
      encode_text-eq s decoded digits (same_codes-eq (encode_groups decoded) (codes s) same) in
    subst (λ (k : Bytes). (text : String) × (str s ≡ str text) × (encode_public_key k ≡ ok text))
      (ok-injective last) (s, refl, rw (size, encoded) refl)
encode_public_key-decode_public_key null key h = cc
encode_public_key-decode_public_key (bool b) key h = cc
encode_public_key-decode_public_key (int z) key h = cc
encode_public_key-decode_public_key (float f) key h = cc
encode_public_key-decode_public_key (arr vs) key h = cc
encode_public_key-decode_public_key (obj fs) key h = cc
