-- ===== src/Base64.antt =====
-- The unpadded base64url of Python's `base64` as src/oncemesh/key_registry.py and
-- src/oncemesh/receipt.py use it, on code points.
pub mod Roundtrip
use Prim.Native.Char.{Char}
use Prim.Native.String
use once_mesh.Base.{
  String, ℕ, ◌+◌, ◌-◌, ◌*◌, ◌/◌, ◌%◌, Bool, ◌&&◌, ◌||◌, List, [], ◌∷◌, ltb, leb, nat_eq, all,
  length, if◌then◌else◌,
}

-- The code point of the digit of a number below 64.
unfoldable pub sextet_code : ℕ → ℕ
sextet_code n =
    if ltb n 26
    then n + 65
    else if ltb n 52
    then n + 71
    else if ltb n 62
    then n - 4
    else if nat_eq n 62
    then 45
    else 95

unfoldable pub code_sextet : ℕ → ℕ
code_sextet c =
    if nat_eq c 45
    then 62
    else if nat_eq c 95
    then 63
    else if leb 97 c
    then c - 71
    else if leb 65 c
    then c - 65
    else c + 4

-- `[A-Za-z0-9_-]`
unfoldable pub is_code : ℕ → Bool
is_code c =
    (leb 65 c && leb c 90)
    || (leb 97 c && leb c 122)
    || (leb 48 c && leb c 57)
    || nat_eq c 45
    || nat_eq c 95

-- `PUBLIC_KEY_PATTERN`
unfoldable pub is_key_text : List ℕ → Bool
unfolding is_code
is_key_text cs = all is_code cs && nat_eq (length cs) 43

-- Four digits are three bytes; three are two bytes and two bits that are dropped, and two one byte.
unfoldable pub decode_groups : List ℕ → List ℕ
unfolding code_sextet
decode_groups (a ∷ b ∷ c ∷ d ∷ rest) =
    (code_sextet a * 4 + code_sextet b / 16)
    ∷ (code_sextet b % 16 * 16 + code_sextet c / 4)
    ∷ (code_sextet c % 4 * 64 + code_sextet d)
    ∷ decode_groups rest
decode_groups (a ∷ b ∷ c ∷ []) =
    (code_sextet a * 4 + code_sextet b / 16) ∷ (code_sextet b % 16 * 16 + code_sextet c / 4) ∷ []
decode_groups (a ∷ b ∷ []) = (code_sextet a * 4 + code_sextet b / 16) ∷ []
decode_groups (a ∷ []) = []
decode_groups [] = []

unfoldable pub encode_groups : List ℕ → List ℕ
unfolding sextet_code
encode_groups (a ∷ b ∷ c ∷ rest) =
    sextet_code (a / 4)
    ∷ sextet_code (a % 4 * 16 + b / 16)
    ∷ sextet_code (b % 16 * 4 + c / 64)
    ∷ sextet_code (c % 64)
    ∷ encode_groups rest
encode_groups (a ∷ b ∷ []) =
    sextet_code (a / 4) ∷ sextet_code (a % 4 * 16 + b / 16) ∷ sextet_code (b % 16 * 4) ∷ []
encode_groups (a ∷ []) = sextet_code (a / 4) ∷ sextet_code (a % 4 * 16) ∷ []
encode_groups [] = []

-- The digit of a number below 64 as a character.
unfoldable pub char_of : ℕ → Char
char_of n = String.char_at "ABCDEFGHIJKLMNOPQRSTUVWXYZabcdefghijklmnopqrstuvwxyz0123456789-_" n

-- `.decode("ascii")` of digits
unfoldable pub text_from : List ℕ → String
unfolding char_of
text_from [] = String.[]
text_from (c ∷ cs) = String.◌∷◌ (char_of (code_sextet c)) (text_from cs)

-- `base64.urlsafe_b64encode(value).rstrip(b"=").decode("ascii")`
unfoldable pub encode_text : List ℕ → String
unfolding text_from encode_groups
encode_text bytes = text_from (encode_groups bytes)
