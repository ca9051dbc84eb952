-- ===== src/Authorization.antt =====
-- src/oncemesh/authorization.py: partition tokens. HMAC-SHA-256 in lower-case hexadecimal, of a key and a
-- message, is a parameter.
use once_mesh.Base.{
  ℕ, String, Bool, true, false, List, [], ◌∷◌, ◌++◌, Option, none, some, ◌==◌, leb, all,
  all_distinct, codes, length, map, str_append,
}
use once_mesh.Base.Result.{Result, ok, raise, value_error, require, ◌>>=◌, ◌>>◌}
use once_mesh.Json.{Value, str, arr, obj, end, field, from_items}
use once_mesh.Canonical.Encode.{canonical_json, sort_by_key}
use once_mesh.Canonical.Checks.{is_prefixed_hex, is_nonempty}
use once_mesh.Records.{or_null}

abbrev pub Hmac : Type 0
Hmac = List ℕ → List ℕ → String

-- `AUTHORIZATION_PARTITION_DOMAIN`
abbrev pub partition_domain : List ℕ
partition_domain = codes "OnceMesh authorization partition v1\0"

-- `AUTHORIZATION_PARTITION_PATTERN`
unfoldable pub is_partition : String → Bool
is_partition = is_prefixed_hex "hmac-sha256:" 12

unfoldable pub validate_authorization_partition : Value → Result (Unit {0})
unfolding is_partition
validate_authorization_partition (str s) =
    require (is_partition s) "authorization partition token is invalid"
validate_authorization_partition _ = raise (value_error "authorization partition token is invalid")

-- `sorted(scopes)`
unfoldable pub sorted : List String → List String
unfolding sort_by_key
sorted texts = map (λ (p : String × Unit {0}). p.0) (sort_by_key (map (λ s. (s, tt)) texts))

abbrev pub is_some_scope : List String → Bool
is_some_scope [] = false
is_some_scope (s ∷ ss) = all is_nonempty (s ∷ ss)

abbrev pub is_subject : Option String → Bool
is_subject none = true
is_subject (some s) = is_nonempty s

abbrev pub claims_of : String → List String → Option String → Value
claims_of tenant scopes subject_partition = obj (
    field "profile" (str "oncemesh.authorization-partition/v1") (
      field "tenant" (str tenant) (
        field "scopes" (arr (from_items (map str scopes)))
          (field "subject_partition" (or_null subject_partition) end))))

unfoldable pub derive_authorization_partition :
    Hmac → String → List String → List ℕ → Option String → Result String
unfolding sorted
derive_authorization_partition hmac tenant scopes partition_key subject_partition = do
  require (is_nonempty tenant) "tenant must be a non-empty string"
  require (is_some_scope scopes) "scopes must be a non-empty string list"
  require (all_distinct scopes) "scopes must be unique"
  require (is_subject subject_partition) "subject_partition must be null or a non-empty string"
  require (leb 32 (length partition_key)) "partition key must contain at least 32 bytes"
  claims ← canonical_json (claims_of tenant (sorted scopes) subject_partition)
  ok (str_append "hmac-sha256:" (hmac partition_key (partition_domain ++ claims)))

unfoldable pub authorization_partitions_match : Value → String → Result Bool
unfolding validate_authorization_partition
authorization_partitions_match (str left) right = do
  validate_authorization_partition (str left)
  validate_authorization_partition (str right)
  ok (left == right)
authorization_partitions_match left right =
    raise (value_error "authorization partition token is invalid")
