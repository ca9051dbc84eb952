-- ===== src/Policy.antt =====
-- src/oncemesh/policy.py: the check of a policy document. Policy/Registry has the resolution.
pub mod Registry
pub mod Inversion
pub mod Granted
use once_mesh.Base.{
  ℕ, String, Bool, true, false, not, ◌&&◌, ◌||◌, List, [], ◌∷◌, Option, none, some, ◌==◌, ltb, leb,
  nat_eq, all, any, codes, contains, all_distinct, if◌then◌else◌,
}
use once_mesh.Base.Dict.{Dict, insert}
use once_mesh.Base.Result.{Result, ok, raise, type_error, value_error, require, ◌>>=◌, ◌>>◌}
use once_mesh.Json.{Value, bool, int, str, arr, obj, pos, Fields, end, field, item, keys, items}
use once_mesh.Canonical.Checks.{has_keys, is_digest, is_nonempty_value, is_object, same_keys}
use once_mesh.Canonical.Action.{has_text}
use once_mesh.Canonical.Manifest.{text_of}

pub record OperationPolicy : Type 0 where
  pub mode : String
  pub trusted_result_producers : List String
  pub trusted_validation_producers : List String
  pub allowed_tiers : List String
  pub max_validation_ttl_seconds : ℕ
  pub receipt_requirement : String
  pub trusted_receipt_keys : List String
  pub authorization_partition : String
  pub max_stale_seconds : ℕ

-- `MODES`
abbrev pub modes : List String
modes =
    "disabled" ∷ "shadow" ∷ "conditional-substitute" ∷ "exact-substitute" ∷ "stale-while-revalidate"
    ∷ []

abbrev pub required_fields : List String
required_fields =
    "mode" ∷ "trusted_result_producers" ∷ "trusted_validation_producers" ∷ "allowed_tiers"
    ∷ "max_validation_ttl_seconds" ∷ "receipt_requirement" ∷ "trusted_receipt_keys"
    ∷ "authorization_partition" ∷ "max_stale_seconds" ∷ []

-- `value in names`, for a set of texts: an array or an object has no hash.
unfoldable pub is_member : Value → List String → Result Bool
is_member (str s) names = ok (contains names s)
is_member (arr vs) names = raise (type_error "unhashable type: 'list'")
is_member (obj fs) names = raise (type_error "unhashable type: 'dict'")
is_member _ names = ok false

-- `if value not in names: raise ValueError(message)`; the value is then one of the texts.
unfoldable pub choice : Value → List String → String → Result String
unfolding is_member
choice value names message = do
  member ← is_member value names
  require member message
  ok (text_of value)

abbrev pub natural_of : Value → ℕ
natural_of (int (pos n)) = n
natural_of _ = 0

abbrev pub is_within : ℕ → ℕ → Value → Bool
is_within low high (int (pos n)) = leb low n && leb n high
is_within low high _ = false

-- `if isinstance(value, bool) or not isinstance(value, int) or not low <= value <= high`
unfoldable pub bounded : Value → ℕ → ℕ → String → Result ℕ
bounded value low high message = do
  require (is_within low high value) message
  ok (natural_of value)

abbrev pub texts_of : List Value → List String
texts_of [] = []
texts_of (v ∷ vs) = text_of v ∷ texts_of vs

-- `_strings`
unfoldable pub strings : Value → Result (List String)
strings (arr vs) = do
  require (all is_nonempty_value (items vs)) "must be a string array"
  require (all_distinct (texts_of (items vs))) "must contain unique values"
  ok (texts_of (items vs))
strings _ = raise (value_error "must be a string array")

abbrev pub is_empty : List String → Bool
is_empty [] = true
is_empty (k ∷ ks) = false

-- The tests on the receipt fields.
unfoldable pub check_receipts : String → String → List String → Result (Unit {0})
check_receipts mode requirement trusted_keys = do
  require (all is_digest trusted_keys) "trusted_receipt_keys must contain SHA-256 key identifiers"
  require (not (requirement == "required" && is_empty trusted_keys))
      "required receipts need at least one trusted key"
  require (not (requirement == "required" && not (mode == "exact-substitute")))
      "required receipts currently support exact-substitute mode only"

unfoldable pub check_partition : String → String → Result (Unit {0})
check_partition mode partition =
    require (not (partition == "required" && not (mode == "exact-substitute")))
      "required authorization partitions support exact-substitute mode only"

abbrev pub same_truth : Bool → Bool → Bool
same_truth true b = b
same_truth false b = not b

unfoldable pub check_stale : String → ℕ → Result (Unit {0})
check_stale mode max_stale_seconds =
    require (same_truth (mode == "stale-while-revalidate") (ltb 0 max_stale_seconds))
      "only stale-while-revalidate mode requires positive max_stale_seconds"

-- One round of the loop over the operations.
unfoldable pub validate_operation : String → Value → Result OperationPolicy
unfolding choice bounded strings check_receipts check_partition check_stale
validate_operation operation value = do
  require (any (nat_eq b'/') (codes operation)) "operation policy keys must contain name/version"
  require (has_keys value required_fields) "invalid fields for operation"
  mode_value ← item value "mode"
  mode ← choice mode_value modes "invalid mode for operation"
  ttl_value ← item value "max_validation_ttl_seconds"
  ttl ← bounded ttl_value 1 604800 "max_validation_ttl_seconds must be from 1 through 604800"
  requirement_value ← item value "receipt_requirement"
  requirement ←
      choice requirement_value ("optional" ∷ "required" ∷ [])
        "receipt_requirement must be optional or required"
  trusted_keys_value ← item value "trusted_receipt_keys"
  trusted_keys ← strings trusted_keys_value
  check_receipts mode requirement trusted_keys
  partition_value ← item value "authorization_partition"
  partition ←
      choice partition_value ("public" ∷ "required" ∷ [])
        "authorization_partition must be public or required"
  check_partition mode partition
  max_stale_value ← item value "max_stale_seconds"
  max_stale ← bounded max_stale_value 0 604800 "max_stale_seconds must be from 0 through 604800"
  check_stale mode max_stale
  result_value ← item value "trusted_result_producers"
  result_producers ← strings result_value
  validation_value ← item value "trusted_validation_producers"
  validation_producers ← strings validation_value
  tiers_value ← item value "allowed_tiers"
  tiers ← strings tiers_value
  ok (record {
    mode = mode;
    trusted_result_producers = result_producers;
    trusted_validation_producers = validation_producers;
    allowed_tiers = tiers;
    max_validation_ttl_seconds = ttl;
    receipt_requirement = requirement;
    trusted_receipt_keys = trusted_keys;
    authorization_partition = partition;
    max_stale_seconds = max_stale;
  })

-- The loop over the operations, with the policies so far.
unfoldable pub validate_operations : Dict OperationPolicy → Fields → Result (Dict OperationPolicy)
unfolding validate_operation insert
validate_operations policies end = ok policies
validate_operations policies (field operation value rest) = do
  policy ← validate_operation operation value
  validate_operations (insert operation policy policies) rest

abbrev pub is_boolean : Value → Bool
is_boolean (bool b) = true
is_boolean _ = false

abbrev pub fields_of : Value → Result Fields
fields_of (obj fs) = ok fs
fields_of _ = raise (value_error "operations must be an object")

unfoldable pub validate_policy_document : Value → Result (Dict OperationPolicy)
unfolding validate_operations
validate_policy_document document = do
  require (has_keys document ("spec_version" ∷ "enabled" ∷ "operations" ∷ []))
      "invalid policy document fields"
  version ← item document "spec_version"
  enabled ← item document "enabled"
  require (has_text version "oncemesh.policy/v0" && is_boolean enabled)
      "invalid policy version or enabled value"
  operations_value ← item document "operations"
  operations ← fields_of operations_value
  validate_operations [] operations
