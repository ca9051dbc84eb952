-- ===== src/ExecutionCache/Envelope.antt =====
-- The envelope of a value in src/oncemesh/execution_cache.py: `pack_execution_value` and
-- `unpack_execution_value`.
use Prim.Native.Char.{code}
use once_mesh.Base.{
  ℕ, suc, ◌+◌, ◌≤◌, ◌≡◌, refl, sym, ap, ◌∙◌, subst, String, Bool, true, false, not, ◌&&◌, List, [],
  ◌∷◌, ◌++◌, Option, some, any, codes, length, take, drop, leb, nat_eq, leb→le, length-append,
  arith,
}
use once_mesh.Base.Result.{ok, require, >>=-eq-ok, ok-injective, require-eq-ok}
use once_mesh.Canonical.Encode.{encode_utf8, is_surrogate, length-encode_utf8}
use once_mesh.Canonical.Checks.{is_nonempty}
use once_mesh.Store.{Bytes}
use once_mesh.ExecutionCache.{
  EncodedExecutionValue, validate_type_tag, size_bytes, size_of, pack_execution_value,
  unpack_execution_value, max_type_tag_bytes,
}

module _ {ℓ} {A : Type ℓ} where
  take-append : (xs ys : List A) → take (length xs) (xs ++ ys) ≡ xs
  take-append [] ys = refl
  take-append (x ∷ xs) ys = ap (λ more. x ∷ more) (take-append xs ys)

  drop-append : (xs ys : List A) → drop (length xs) (xs ++ ys) ≡ ys
  drop-append [] ys = refl
  drop-append (x ∷ xs) ys = drop-append xs ys

size_of-size_bytes : (n : ℕ) (rest : Bytes) → size_of (size_bytes n ++ rest) ≡ n
unfolding size_of size_bytes
size_of-size_bytes n rest = omega arith

drop-size_bytes : (n k : ℕ) (rest : Bytes) → drop (4 + k) (size_bytes n ++ rest) ≡ drop k rest
unfolding size_bytes
drop-size_bytes n k rest = let four : 4 + k ≡ suc (suc (suc (suc k))) = omega arith in rw four refl

and-left : (a b : Bool) → (a && b) ≡ true → a ≡ true
and-left true b h = refl
and-left false b h = h

-- What the check of a type tag has passed.
validate_type_tag-eq-ok :
    (type_tag : String) (tag : Bytes)
    → validate_type_tag type_tag ≡ ok tag
    → (tag ≡ encode_utf8 (codes type_tag)) × (length tag ≤ 1024) × (is_nonempty type_tag ≡ true)
unfolding validate_type_tag
validate_type_tag-eq-ok type_tag tag h =
    let (_, nonempty, h1) = >>=-eq-ok (require (is_nonempty type_tag) _) _ h in
    let (_, _, h2) = >>=-eq-ok (require (not (any is_surrogate (codes type_tag))) _) _ h1 in
    let encoded = encode_utf8 (codes type_tag) in
    let (_, bounded, last) =
      >>=-eq-ok
        (require (leb (length encoded) max_type_tag_bytes && not (any (nat_eq 0) (codes type_tag)))
          _)
        _ h2 in
    let small : leb (length encoded) 1024 ≡ true =
      and-left (leb (length encoded) 1024) _ (require-eq-ok _ _ bounded) in
    (
      sym (ok-injective last),
      subst (λ (t : Bytes). length t ≤ 1024) (ok-injective last)
          (leb→le (length encoded) 1024 small),
      require-eq-ok _ _ nonempty,
    )

encode_utf8-IsLong :
    (text : String) → is_nonempty text ≡ true → 1 ≤ length (encode_utf8 (codes text))
encode_utf8-IsLong String.[] h = cc
encode_utf8-IsLong (String.◌∷◌ c s) h = length-encode_utf8 (code c) (codes s)

le→leb : (a b : ℕ) → a ≤ b → leb a b ≡ true
le→leb a b h = ground arith

length-envelope :
    (tag payload : Bytes)
    → length (size_bytes (length tag) ++ tag ++ payload) ≡ 4 + (length tag + length payload)
unfolding size_bytes
length-envelope tag payload = omega (arith, length-append tag payload)

-- What `unpack_execution_value` finds in the envelope of a checked tag.
unpack_execution_value-envelope :
    (decode : Bytes → Option String) (type_tag : String) (tag payload : Bytes)
    → validate_type_tag type_tag ≡ ok tag
    → decode tag ≡ some type_tag
    → 1 ≤ length tag
    → length tag ≤ 1024
    → unpack_execution_value decode (size_bytes (length tag) ++ tag ++ payload)
      ≡ ok (record { type_tag = type_tag; payload = payload })
unfolding unpack_execution_value size_bytes
unpack_execution_value-envelope decode type_tag tag payload checked decoded long short =
    rw
      (
        length-envelope tag payload,
        size_of-size_bytes (length tag) (tag ++ payload),
        le→leb 5 (4 + (length tag + length payload)) (omega arith),
        le→leb 1 (length tag) long,
        le→leb (length tag) 1024 short,
        le→leb (4 + length tag) (4 + (length tag + length payload)) (omega arith),
        drop-size_bytes (length tag) 0 (tag ++ payload),
        drop-size_bytes (length tag) (length tag) (tag ++ payload),
        take-append tag payload,
        drop-append tag payload,
        decoded,
        checked,
      )
      refl

-- What `pack_execution_value` returned is unpacked to the value it was given, if the decoder reads the
-- encoding of its type tag back. The size of the tag fits its four bytes.
pub unpack_execution_value-pack_execution_value :
    (decode : Bytes → Option String) (value : EncodedExecutionValue) (envelope : Bytes)
    → decode (encode_utf8 (codes value.type_tag)) ≡ some value.type_tag
    → pack_execution_value value ≡ ok envelope
    → unpack_execution_value decode envelope ≡ ok value
unfolding pack_execution_value
unpack_execution_value-pack_execution_value decode value envelope decoded h =
    let (tag, checked, last) = >>=-eq-ok (validate_type_tag value.type_tag) _ h in
    let (encoded, short, nonempty) = validate_type_tag-eq-ok value.type_tag tag checked in
    let long : 1 ≤ length tag =
      subst (λ (t : Bytes). 1 ≤ length t) (sym encoded)
        (encode_utf8-IsLong value.type_tag nonempty) in
    subst (λ (e : Bytes). unpack_execution_value decode e ≡ ok value) (ok-injective last)
      (unpack_execution_value-envelope decode value.type_tag tag value.payload checked
        (ap decode encoded ∙ decoded) long short)
