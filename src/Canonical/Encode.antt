-- ===== src/Canonical/Encode.antt =====
-- `_validate` and `canonical_json` of src/oncemesh/canonical.py, with the part of `json.dumps` that
-- `canonical_json` selects: sorted keys, no spaces, no ASCII escapes, UTF-8.
use once_mesh.Base.{
  ℕ, zero, suc, ◌+◌, ◌-◌, ◌/◌, ◌%◌, ◌^◌, ◌≤◌, ◌≡◌, refl, String, Bool, true, false, ◌&&◌, ◌||◌,
  List, [], ◌∷◌, ◌++◌, ltb, leb, nat_eq, if◌then◌else◌, codes, any, length, arith,
}
use once_mesh.Base.Result.{Result, ok, raise, value_error, ◌>>◌}
use once_mesh.Json.{
  ℤ, pos, negsuc, Value, null, bool, int, float, str, arr, obj, Items, nil, cons, Fields, end,
  field,
}

abbrev pub max_safe_integer : ℕ
max_safe_integer = 2 ^ 53 - 1

abbrev pub is_safe : ℤ → Bool
is_safe (pos n) = leb n max_safe_integer
is_safe (negsuc n) = leb (n + 1) max_safe_integer

abbrev pub is_surrogate : ℕ → Bool
is_surrogate c = leb 0xd800 c && leb c 0xdfff

validate_text : String → Result (Unit {0})
validate_text text =
    if any is_surrogate (codes text)
    then raise (value_error "Unicode surrogate code points are forbidden")
    else ok tt

-- `_validate`; the paths in its messages are left out.
unfoldable mutual
  unfolding validate_text

  pub validate : Value → Result (Unit {0})
  validate null = ok tt
  validate (bool b) = ok tt
  validate (str s) = validate_text s
  validate (int n) =
      if is_safe n then ok tt else raise (value_error "integer is outside the interoperable range")
  validate (float bits) = raise (value_error "floating-point values are forbidden in v0")
  validate (arr vs) = validate_items vs
  validate (obj fs) = validate_fields fs

  pub validate_items : Items → Result (Unit {0})
  validate_items nil = ok tt
  validate_items (cons v vs) = do validate v; validate_items vs

  pub validate_fields : Fields → Result (Unit {0})
  validate_fields end = ok tt
  validate_fields (field k v fs) = do validate_text k; validate v; validate_fields fs

hex_digit : ℕ → ℕ
hex_digit n = if ltb n 10 then b'0' + n else b'a' + (n - 10)

-- One character of a JSON string.
escape : ℕ → List ℕ
unfolding hex_digit
escape c =
    if nat_eq c b'"'
    then b'\\' ∷ b'"' ∷ []
    else if nat_eq c b'\\'
    then b'\\' ∷ b'\\' ∷ []
    else if nat_eq c 10
    then b'\\' ∷ b'n' ∷ []
    else if nat_eq c 13
    then b'\\' ∷ b'r' ∷ []
    else if nat_eq c 9
    then b'\\' ∷ b't' ∷ []
    else if nat_eq c 12
    then b'\\' ∷ b'f' ∷ []
    else if nat_eq c 8
    then b'\\' ∷ b'b' ∷ []
    else if ltb c 32
    then b'\\' ∷ b'u' ∷ b'0' ∷ b'0' ∷ hex_digit (c / 16) ∷ hex_digit (c % 16) ∷ []
    else c ∷ []

escape_all : List ℕ → List ℕ
unfolding escape
escape_all [] = []
escape_all (c ∷ cs) = escape c ++ escape_all cs

dump_text : String → List ℕ
unfolding escape_all
dump_text s = b'"' ∷ (escape_all (codes s) ++ b'"' ∷ [])

-- The decimal digits of a number, before `rest`; the fuel is the number itself and one more.
decimal : ℕ → ℕ → List ℕ → List ℕ
decimal zero n rest = rest
decimal (suc fuel) n rest =
    let more = decimal fuel (n / 10) ((b'0' + n % 10) ∷ rest) in
    if ltb n 10 then (b'0' + n) ∷ rest else more

unfoldable pub dump_int : ℤ → List ℕ
unfolding decimal
dump_int (pos n) = decimal (suc n) n []
dump_int (negsuc n) = b'-' ∷ decimal (suc (suc n)) (suc n) []

-- The order of Python's texts: by code points, a prefix first.
unfoldable pub codes_lt : List ℕ → List ℕ → Bool
codes_lt [] [] = false
codes_lt [] (d ∷ ds) = true
codes_lt (c ∷ cs) [] = false
codes_lt (c ∷ cs) (d ∷ ds) = ltb c d || (nat_eq c d && codes_lt cs ds)

unfoldable pub text_lt : String → String → Bool
unfolding codes_lt
text_lt s t = codes_lt (codes s) (codes t)

-- `sorted(d.items())`, at the keys.
module _ {ℓ} {V : Type ℓ} where
  unfoldable pub insert_by_key : String → V → List (String × V) → List (String × V)
  unfolding text_lt
  insert_by_key k v [] = (k, v) ∷ []
  insert_by_key k v ((j, w) ∷ ms) =
      if text_lt k j then (k, v) ∷ (j, w) ∷ ms else (j, w) ∷ insert_by_key k v ms

  unfoldable pub sort_by_key : List (String × V) → List (String × V)
  unfolding insert_by_key
  sort_by_key [] = []
  sort_by_key ((k, v) ∷ ms) = insert_by_key k v (sort_by_key ms)

dump_members : List (String × List ℕ) → List ℕ
unfolding dump_text
dump_members [] = []
dump_members ((k, v) ∷ []) = dump_text k ++ b':' ∷ v
dump_members ((k, v) ∷ m ∷ ms) = dump_text k ++ b':' ∷ (v ++ b',' ∷ dump_members (m ∷ ms))

unfoldable mutual
  unfolding dump_text dump_int dump_members sort_by_key

  -- The members are encoded, and then put in the order of their keys.
  pub dumps : Value → List ℕ
  dumps null = codes "null"
  dumps (bool true) = codes "true"
  dumps (bool false) = codes "false"
  dumps (int n) = dump_int n
  dumps (float bits) = codes "NaN"
  dumps (str s) = dump_text s
  dumps (arr nil) = codes "[]"
  dumps (arr (cons v vs)) = b'[' ∷ (dumps v ++ (dump_items vs ++ b']' ∷ []))
  dumps (obj fs) = b'{' ∷ (dump_members (sort_by_key (dump_fields fs)) ++ b'}' ∷ [])

  pub dump_items : Items → List ℕ
  dump_items nil = []
  dump_items (cons v vs) = b',' ∷ (dumps v ++ dump_items vs)

  pub dump_fields : Fields → List (String × List ℕ)
  dump_fields end = []
  dump_fields (field k v fs) = (k, dumps v) ∷ dump_fields fs

-- `str.encode("utf-8")`
utf8 : ℕ → List ℕ
utf8 c =
    if ltb c 0x80
    then c ∷ []
    else if ltb c 0x800
    then (0xc0 + c / 64) ∷ (0x80 + c % 64) ∷ []
    else if ltb c 0x10000
    then (0xe0 + c / 4096) ∷ (0x80 + c / 64 % 64) ∷ (0x80 + c % 64) ∷ []
    else (0xf0 + c / 262144) ∷ (0x80 + c / 4096 % 64) ∷ (0x80 + c / 64 % 64) ∷ (0x80 + c % 64) ∷ []

unfoldable pub encode_utf8 : List ℕ → List ℕ
unfolding utf8
encode_utf8 [] = []
encode_utf8 (c ∷ cs) = utf8 c ++ encode_utf8 cs

-- Each character has a byte.
pub length-encode_utf8 : (c : ℕ) (cs : List ℕ) → 1 ≤ length (encode_utf8 (c ∷ cs))
unfolding encode_utf8 utf8
length-encode_utf8 c cs = ground arith

unfoldable pub canonical_json : Value → Result (List ℕ)
unfolding validate dumps encode_utf8
canonical_json value = do validate value; ok (encode_utf8 (dumps value))

canonical_example :
    canonical_json
      (obj (field "b" (arr (cons (int (negsuc 11)) (cons null nil))) (field "a" (str "x\"é") end)))
    ≡ ok (encode_utf8 (codes "{\"a\":\"x\\\"é\",\"b\":[-12,null]}"))
unfolding canonical_json
canonical_example = refl
