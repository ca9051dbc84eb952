-- ===== src/Canonical/Checks.antt =====
-- The checks of src/oncemesh/canonical.py that the validators share: exact keys, texts that are not
-- empty, digests and UTC timestamps.
use once_mesh.Base.{
  ℕ, ◌≡◌, refl, String, Bool, true, false, not, ◌&&◌, ◌||◌, List, str_append, ◌==◌, starts_with,
  leb, nat_eq, codes, all, drop, length, contains, is_some,
}
use once_mesh.Base.Result.{Result, raise, value_error, require, ◌>>◌}
use once_mesh.Json.{Value, str, obj, keys}
use once_mesh.Time.{instant}

unfoldable pub is_lower_hex : ℕ → Bool
is_lower_hex c = (leb b'0' c && leb c b'9') || (leb b'a' c && leb c b'f')

-- `^prefix[0-9a-f]{64}$`, where the prefix has `n` characters
unfoldable pub is_prefixed_hex : String → ℕ → String → Bool
unfolding is_lower_hex
is_prefixed_hex prefix n text =
    starts_with text prefix
    && nat_eq (length (drop n (codes text))) 64
    && all is_lower_hex (drop n (codes text))

-- DIGEST_PATTERN
unfoldable pub is_digest : String → Bool
unfolding is_prefixed_hex
is_digest text = is_prefixed_hex "sha256:" 7 text

-- isinstance(value, str) and DIGEST_PATTERN.fullmatch(value)
abbrev pub is_digest_value : Value → Bool
is_digest_value (str s) = is_digest s
is_digest_value _ = false

abbrev pub is_nonempty : String → Bool
is_nonempty s = not (s == "")

abbrev pub is_nonempty_value : Value → Bool
is_nonempty_value (str s) = is_nonempty s
is_nonempty_value _ = false

abbrev pub is_object : Value → Bool
is_object (obj fs) = true
is_object _ = false

-- set(value) == expected
unfoldable pub same_keys : List String → List String → Bool
unfolding contains
same_keys actual expected = all (contains expected) actual && all (contains actual) expected

-- `isinstance(value, dict) and set(value) == expected`
abbrev pub has_keys : Value → List String → Bool
has_keys (obj fs) expected = same_keys (keys fs) expected
has_keys _ expected = false

-- `_require_exact_keys`; the sorted lists in its message are left out.
unfoldable pub require_exact_keys : Value → List String → String → Result (Unit {0})
unfolding same_keys
require_exact_keys (obj fs) expected label =
    require (same_keys (keys fs) expected) (str_append "invalid fields of " label)
require_exact_keys _ expected label = raise (value_error (str_append label " must be an object"))

-- `_require_nonempty_string`
unfoldable pub require_nonempty_string : Value → String → Result (Unit {0})
require_nonempty_string value label =
    require (is_nonempty_value value) (str_append label " must be a non-empty string")

abbrev pub names_instant : Value → Bool
names_instant (str s) = is_some (instant s)
names_instant _ = false

-- `_require_utc_timestamp`: the pattern and `fromisoformat` together are `instant`.
unfoldable pub require_utc_timestamp : Value → String → Result (Unit {0})
unfolding require_nonempty_string
require_utc_timestamp value label = do
  require_nonempty_string value label
  require (names_instant value) (str_append label " must be an RFC 3339 UTC timestamp ending in Z")

digest_examples :
    (is_digest "sha256:0123456789abcdef0123456789abcdef0123456789abcdef0123456789abcdef" ≡ true)
    × (is_digest "sha256:0123456789ABCDEF0123456789abcdef0123456789abcdef0123456789abcdef" ≡ false)
    × (is_digest "sha256:00" ≡ false)
unfolding is_digest
digest_examples = (refl, refl, refl)
