-- ===== src/Canonical/Action.antt =====
-- `validate_action` and `action_digest` of src/oncemesh/canonical.py. The digest of bytes is
-- hashlib's SHA-256 in lower-case hexadecimal, a parameter.
use once_mesh.Base.{ℕ, String, Bool, false, ◌&&◌, List, [], ◌∷◌, str_append, ◌==◌}
use once_mesh.Base.Result.{Result, ok, require, ◌>>=◌, ◌>>◌}
use once_mesh.Json.{Value, str, item}
use once_mesh.Canonical.Encode.{canonical_json}
use once_mesh.Canonical.Checks.{require_exact_keys, require_nonempty_string, is_object}

-- hashlib.sha256(value).hexdigest()
abbrev pub Hexdigest : Type 0
Hexdigest = List ℕ → String

unfoldable pub digest_bytes : Hexdigest → List ℕ → String
digest_bytes hexdigest value = str_append "sha256:" (hexdigest value)

-- `_object_digest`
unfoldable pub object_digest : Hexdigest → Value → Result String
unfolding digest_bytes
object_digest hexdigest value = do bytes ← canonical_json value; ok (digest_bytes hexdigest bytes)

abbrev pub has_text : Value → String → Bool
has_text (str s) t = s == t
has_text _ t = false

unfoldable pub validate_action : Value → Result (Unit {0})
unfolding require_exact_keys require_nonempty_string
validate_action action = do
  require_exact_keys action
      ("spec_version" ∷ "operation" ∷ "inputs" ∷ "executor" ∷ "output_schema" ∷ "vary" ∷ [])
      "action"
  version ← item action "spec_version"
  require (has_text version "oncemesh.action/v0") "unsupported action spec_version"
  operation ← item action "operation"
  require_exact_keys operation ("name" ∷ "version" ∷ []) "operation"
  operation_name ← item operation "name"
  require_nonempty_string operation_name "operation.name"
  operation_version ← item operation "version"
  require_nonempty_string operation_version "operation.version"
  executor ← item action "executor"
  require_exact_keys executor ("name" ∷ "version" ∷ "config" ∷ []) "executor"
  executor_name ← item executor "name"
  require_nonempty_string executor_name "executor.name"
  executor_version ← item executor "version"
  require_nonempty_string executor_version "executor.version"
  config ← item executor "config"
  require (is_object config) "executor.config must be an object"
  inputs ← item action "inputs"
  vary ← item action "vary"
  require (is_object inputs && is_object vary) "inputs and vary must be objects"
  output_schema ← item action "output_schema"
  require_nonempty_string output_schema "output_schema"
  _ ← canonical_json action
  ok tt

unfoldable pub action_digest : Hexdigest → Value → Result String
unfolding validate_action object_digest
action_digest hexdigest action = do validate_action action; object_digest hexdigest action
