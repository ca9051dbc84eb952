-- ===== src/Canonical/Records.antt =====
-- `validate_source_validation`, `validate_invalidation` and their digests, of
-- src/oncemesh/canonical.py.
use once_mesh.Base.{ℕ, String, Bool, true, false, not, ◌&&◌, ◌||◌, [], ◌∷◌, leb, nat_eq}
use once_mesh.Base.Result.{Result, ok, require, ◌>>=◌, ◌>>◌}
use once_mesh.Json.{pos, Value, null, int, item}
use once_mesh.Time.{parse_time}
use once_mesh.Canonical.Encode.{canonical_json}
use once_mesh.Canonical.Action.{Hexdigest, object_digest, has_text}
use once_mesh.Canonical.Manifest.{text_of}
use once_mesh.Canonical.Checks.{
  require_exact_keys, require_nonempty_string, require_utc_timestamp, is_digest_value,
  is_nonempty_value,
}

abbrev is_null : Value → Bool
is_null null = true
is_null _ = false

abbrev has_status : Value → ℕ → Bool
has_status (int (pos n)) k = nat_eq n k
has_status _ k = false

-- The checks on `record["method"]`.
validate_method : Value → Result (Unit {0})
unfolding require_exact_keys
validate_method method = do
  require_exact_keys method ("name" ∷ "version" ∷ "status" ∷ "etag" ∷ "last_modified" ∷ [])
      "validation method"
  name ← item method "name"
  version ← item method "version"
  status ← item method "status"
  require (has_text name "http.conditional" && has_text version "1" && has_status status 304)
      "unsupported validation method"
  etag ← item method "etag"
  require (is_null etag || is_nonempty_value etag) "method.etag must be null or a non-empty string"
  last_modified ← item method "last_modified"
  require (is_null last_modified || is_nonempty_value last_modified)
      "method.last_modified must be null or a non-empty string"
  require (not (is_null etag && is_null last_modified))
      "HTTP conditional validation requires at least one validator"

unfoldable pub validate_source_validation : Value → Result (Unit {0})
unfolding require_exact_keys require_nonempty_string require_utc_timestamp validate_method
validate_source_validation validation = do
  require_exact_keys validation
      ("spec_version" ∷ "result_digest" ∷ "validated_at" ∷ "fresh_until" ∷ "producer" ∷ "method"
        ∷ [])
      "source validation"
  version ← item validation "spec_version"
  require (has_text version "oncemesh.validation/v0") "unsupported source validation spec_version"
  result_digest ← item validation "result_digest"
  require (is_digest_value result_digest) "result_digest is invalid"
  validated_at ← item validation "validated_at"
  require_utc_timestamp validated_at "validated_at"
  fresh_until ← item validation "fresh_until"
  require_utc_timestamp fresh_until "fresh_until"
  from ← parse_time (text_of validated_at)
  until ← parse_time (text_of fresh_until)
  require (leb from until) "fresh_until must not precede validated_at"
  producer ← item validation "producer"
  require_nonempty_string producer "producer"
  method ← item validation "method"
  validate_method method
  _ ← canonical_json validation
  ok tt

unfoldable pub validate_invalidation : Value → Result (Unit {0})
unfolding require_exact_keys require_nonempty_string require_utc_timestamp
validate_invalidation invalidation = do
  require_exact_keys invalidation
      ("spec_version" ∷ "result_digest" ∷ "invalidated_at" ∷ "producer" ∷ "reason" ∷ [])
      "invalidation"
  version ← item invalidation "spec_version"
  require (has_text version "oncemesh.invalidation/v0") "unsupported invalidation spec_version"
  result_digest ← item invalidation "result_digest"
  require (is_digest_value result_digest) "result_digest is invalid"
  invalidated_at ← item invalidation "invalidated_at"
  require_utc_timestamp invalidated_at "invalidated_at"
  producer ← item invalidation "producer"
  require_nonempty_string producer "producer"
  reason ← item invalidation "reason"
  require_nonempty_string reason "reason"
  _ ← canonical_json invalidation
  ok tt

unfoldable pub validation_digest : Hexdigest → Value → Result String
unfolding validate_source_validation object_digest
validation_digest hexdigest validation = do
  validate_source_validation validation
  object_digest hexdigest validation

unfoldable pub invalidation_digest : Hexdigest → Value → Result String
unfolding validate_invalidation object_digest
invalidation_digest hexdigest invalidation = do
  validate_invalidation invalidation
  object_digest hexdigest invalidation
