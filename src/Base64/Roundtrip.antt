-- ===== src/Base64/Roundtrip.antt =====
-- Encoding and then decoding by Base64.
use Prim.Native.Char.{code}
use once_mesh.Base.{
  ℕ, zero, suc, ◌+◌, ◌*◌, ◌/◌, ◌%◌, ◌<◌, ◌≡◌, refl, ap, inl, inr, Bool, true, List, [], ◌∷◌, All,
  arith, all, length, codes, nat_eq, nat_eq_iff, same_codes, Bool-cases,
}
use once_mesh.Base64.{
  sextet_code, code_sextet, is_code, encode_groups, decode_groups, char_of, text_from,
}

pub code_sextet-sextet_code : (n : ℕ) → n < 64 → code_sextet (sextet_code n) ≡ n
unfolding code_sextet sextet_code
code_sextet-sextet_code n h = ground arith

first_byte : (a b : ℕ) → a < 256 → b < 256 → a / 4 * 4 + (a % 4 * 16 + b / 16) / 16 ≡ a
first_byte a b ha hb = omega arith

second_byte :
    (a b c : ℕ)
    → b < 256
    → c < 256
    → (a % 4 * 16 + b / 16) % 16 * 16 + (b % 16 * 4 + c / 64) / 4 ≡ b
second_byte a b c hb hc = omega arith

third_byte : (b c : ℕ) → c < 256 → (b % 16 * 4 + c / 64) % 4 * 64 + c % 64 ≡ c
third_byte b c hc = omega arith

-- Every sequence of bytes is decoded from its encoding.
pub decode_groups-encode_groups :
    (bytes : List ℕ) → All (λ b. b < 256) bytes → decode_groups (encode_groups bytes) ≡ bytes
unfolding decode_groups encode_groups
decode_groups-encode_groups [] h = refl
decode_groups-encode_groups (a ∷ []) h =
    rw
      (
        code_sextet-sextet_code (a / 4) (let k = h.0 in omega arith),
        code_sextet-sextet_code (a % 4 * 16) (omega arith),
      )
      (ap (λ x. x ∷ []) (let k = h.0 in omega arith))
decode_groups-encode_groups (a ∷ b ∷ []) h =
    let ha = h.0 in
    let hb = h.1.0 in
    rw
      (
        code_sextet-sextet_code (a / 4) (omega arith),
        code_sextet-sextet_code (a % 4 * 16 + b / 16) (omega arith),
        code_sextet-sextet_code (b % 16 * 4) (omega arith),
        first_byte a b ha hb,
      )
      (ap (λ x. a ∷ x ∷ []) (omega arith))
decode_groups-encode_groups (a ∷ b ∷ c ∷ rest) h =
    let ha = h.0 in
    let hb = h.1.0 in
    let hc = h.1.1.0 in
    rw
      (
        code_sextet-sextet_code (a / 4) (omega arith),
        code_sextet-sextet_code (a % 4 * 16 + b / 16) (omega arith),
        code_sextet-sextet_code (b % 16 * 4 + c / 64) (omega arith),
        code_sextet-sextet_code (c % 64) (omega arith),
        first_byte a b ha hb,
        second_byte a b c hb hc,
        third_byte b c hc,
        decode_groups-encode_groups rest h.1.1.1,
      )
      refl

pub is_code-sextet_code : (n : ℕ) → n < 64 → is_code (sextet_code n) ≡ true
unfolding is_code sextet_code
is_code-sextet_code n h = ground arith

pub is_code-encode_groups :
    (bytes : List ℕ) → All (λ b. b < 256) bytes → all is_code (encode_groups bytes) ≡ true
unfolding encode_groups
is_code-encode_groups [] h = refl
is_code-encode_groups (a ∷ []) h =
    rw
      (
        is_code-sextet_code (a / 4) (let k = h.0 in omega arith),
        is_code-sextet_code (a % 4 * 16) (omega arith),
      )
      refl
is_code-encode_groups (a ∷ b ∷ []) h =
    let ha = h.0 in
    let hb = h.1.0 in
    rw
      (
        is_code-sextet_code (a / 4) (omega arith),
        is_code-sextet_code (a % 4 * 16 + b / 16) (omega arith),
        is_code-sextet_code (b % 16 * 4) (omega arith),
      )
      refl
is_code-encode_groups (a ∷ b ∷ c ∷ rest) h =
    let ha = h.0 in
    let hb = h.1.0 in
    let hc = h.1.1.0 in
    rw
      (
        is_code-sextet_code (a / 4) (omega arith),
        is_code-sextet_code (a % 4 * 16 + b / 16) (omega arith),
        is_code-sextet_code (b % 16 * 4 + c / 64) (omega arith),
        is_code-sextet_code (c % 64) (omega arith),
        is_code-encode_groups rest h.1.1.1,
      )
      refl

pub length-encode_groups :
    (bytes : List ℕ) → length (encode_groups bytes) ≡ (length bytes * 4 + 2) / 3
unfolding encode_groups
length-encode_groups [] = omega arith
length-encode_groups (a ∷ []) = omega arith
length-encode_groups (a ∷ b ∷ []) = omega arith
length-encode_groups (a ∷ b ∷ c ∷ rest) = omega (arith, length-encode_groups rest)

pub same_codes_refl : (cs : List ℕ) → same_codes cs cs ≡ true
unfolding same_codes
same_codes_refl [] = refl
same_codes_refl (c ∷ cs) = rw (same_codes_refl cs, (nat_eq_iff c c).1 refl) refl

-- A property of every number below a bound, from a test of each.
unfoldable below : ℕ → List ℕ
below zero = []
below (suc n) = n ∷ below n

all-below : (p : ℕ → Bool) (bound n : ℕ) → all p (below bound) ≡ true → n < bound → p n ≡ true
unfolding below
all-below p zero n h less = absurd (omega arith)
all-below p (suc bound) n h less = elim (Bool-cases (nat_eq n bound)) [
  | inl same ↦ rw ((nat_eq_iff n bound).0 same) (ground arith)
  | inr other ↦ all-below p bound n (ground arith) (ground arith)
]

code-char_of : (n : ℕ) → n < 64 → code (char_of n) ≡ sextet_code n
unfolding char_of sextet_code below
code-char_of n h =
    (nat_eq_iff (code (char_of n)) (sextet_code n)).0
      (all-below (λ k. nat_eq (code (char_of k)) (sextet_code k)) 64 n refl h)

sextet_code-code_sextet : (c : ℕ) → is_code c ≡ true → sextet_code (code_sextet c) ≡ c
unfolding sextet_code code_sextet is_code
sextet_code-code_sextet c h = ground arith

code_sextet-lt : (c : ℕ) → is_code c ≡ true → code_sextet c < 64
unfolding code_sextet is_code
code_sextet-lt c h = ground arith

-- The text of digits has them as its code points.
pub codes-text_from : (cs : List ℕ) → all is_code cs ≡ true → codes (text_from cs) ≡ cs
unfolding text_from
codes-text_from [] h = refl
codes-text_from (c ∷ cs) h =
    let digit : is_code c ≡ true = ground arith in
    let rest : all is_code cs ≡ true = ground arith in
    rw
      (
        code-char_of (code_sextet c) (code_sextet-lt c digit),
        sextet_code-code_sextet c digit,
        codes-text_from cs rest,
      )
      refl
