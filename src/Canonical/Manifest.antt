-- ===== src/Canonical/Manifest.antt =====
-- `validate_manifest` and `manifest_digest` of src/oncemesh/canonical.py.
use once_mesh.Base.{
  String, Bool, true, false, not, ◌||◌, List, [], ◌∷◌, Option, none, some, if◌then◌else◌, contains,
}
use once_mesh.Base.Result.{Result, ok, raise, value_error, require, ◌>>=◌, ◌>>◌}
use once_mesh.Json.{pos, Value, null, int, str, arr, Items, nil, cons, item, get}
use once_mesh.Canonical.Encode.{canonical_json, text_lt}
use once_mesh.Canonical.Action.{Hexdigest, object_digest, has_text}
use once_mesh.Canonical.Checks.{
  require_exact_keys, require_nonempty_string, require_utc_timestamp, is_digest_value,
}

abbrev pub text_of : Value → String
text_of (str s) = s
text_of _ = ""

abbrev is_null : Value → Bool
is_null null = true
is_null _ = false

-- an int, no bool, that is not negative
abbrev is_size : Value → Bool
is_size (int (pos n)) = true
is_size _ = false

-- One round of the loop over the artifacts: the names seen so far, and this one.
validate_artifact : List String → Value → Result (List String)
unfolding require_exact_keys require_nonempty_string
validate_artifact names artifact = do
  require_exact_keys artifact ("name" ∷ "digest" ∷ "size" ∷ "media_type" ∷ []) "artifact"
  name ← item artifact "name"
  require_nonempty_string name "artifact.name"
  media_type ← item artifact "media_type"
  require_nonempty_string media_type "artifact.media_type"
  require (not (contains names (text_of name))) "artifact names must be unique"
  digest ← item artifact "digest"
  require (is_digest_value digest) "artifact.digest is invalid"
  size ← item artifact "size"
  require (is_size size) "artifact.size must be a non-negative integer"
  ok (text_of name ∷ names)

validate_artifacts : List String → Items → Result (Unit {0})
validate_artifacts names nil = ok tt
validate_artifacts names (cons artifact rest) = do
  names' ← validate_artifact names artifact
  validate_artifacts names' rest

-- What the loop over the dependencies remembers.
pub record DependencyScan : Type 0 where
  pub names : List String
  pub digests : List String
  pub previous : Option String

follows : Option String → String → Bool
follows none name = true
follows (some previous) name = text_lt previous name

validate_dependency : DependencyScan → Value → Result DependencyScan
unfolding follows require_exact_keys require_nonempty_string
validate_dependency scan dependency = do
  require_exact_keys dependency ("name" ∷ "result_digest" ∷ []) "dependency"
  name ← item dependency "name"
  require_nonempty_string name "dependency.name"
  require (not (contains scan.names (text_of name))) "dependency names must be unique"
  require (follows scan.previous (text_of name)) "dependencies must be sorted by name"
  digest ← item dependency "result_digest"
  require (is_digest_value digest) "dependency.result_digest is invalid"
  require (not (contains scan.digests (text_of digest))) "dependency result digests must be unique"
  ok (record {
    names = text_of name ∷ scan.names;
    digests = text_of digest ∷ scan.digests;
    previous = some (text_of name);
  })

validate_dependencies : DependencyScan → Items → Result (Unit {0})
validate_dependencies scan nil = ok tt
validate_dependencies scan (cons dependency rest) = do
  scan' ← validate_dependency scan dependency
  validate_dependencies scan' rest

abbrev as_array : Value → String → Result Items
as_array (arr vs) message = ok vs
as_array _ message = raise (value_error message)

-- The block under `if version == "oncemesh.result/v1"`.
validate_lineage : Bool → Value → Result (Unit {0})
unfolding validate_dependencies validate_dependency
validate_lineage false manifest = ok tt
validate_lineage true manifest = do
  dependencies ← item manifest "dependencies"
  ds ← as_array dependencies "dependencies must be an array"
  validate_dependencies (record { names = []; digests = []; previous = none }) ds

abbrev pub result_v0 : String
result_v0 = "oncemesh.result/v0"

abbrev pub result_v1 : String
result_v1 = "oncemesh.result/v1"

abbrev has_version : Option Value → String → Bool
has_version none t = false
has_version (some v) t = has_text v t

unfoldable pub validate_manifest : Value → Result (Unit {0})
unfolding require_exact_keys require_nonempty_string require_utc_timestamp validate_artifacts
    validate_artifact validate_lineage
validate_manifest manifest = do
  let version = get manifest "spec_version"
  let is_v1 = has_version version result_v1
  let common =
      "spec_version" ∷ "action_digest" ∷ "artifacts" ∷ "produced_at" ∷ "fresh_until" ∷ "producer"
      ∷ []
  require_exact_keys manifest (if is_v1 then "dependencies" ∷ common else common) "result manifest"
  require (has_version version result_v0 || is_v1) "unsupported result spec_version"
  action_digest ← item manifest "action_digest"
  require (is_digest_value action_digest) "action_digest is invalid"
  produced_at ← item manifest "produced_at"
  require_utc_timestamp produced_at "produced_at"
  fresh_until ← item manifest "fresh_until"
  if is_null fresh_until then ok tt else require_utc_timestamp fresh_until "fresh_until"
  producer ← item manifest "producer"
  require_nonempty_string producer "producer"
  artifacts ← item manifest "artifacts"
  listed ← as_array artifacts "artifacts must be an array"
  validate_artifacts [] listed
  validate_lineage is_v1 manifest
  _ ← canonical_json manifest
  ok tt

unfoldable pub manifest_digest : Hexdigest → Value → Result String
unfolding validate_manifest object_digest
manifest_digest hexdigest manifest = do validate_manifest manifest; object_digest hexdigest manifest
