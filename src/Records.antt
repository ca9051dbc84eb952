-- ===== src/Records.antt =====
-- The dicts that the stores keep and the cache reads: result manifests, source validations
-- and invalidations. Each record is a dict that has the keys and the types of values which its
-- validator in src/oncemesh/canonical.py demands; `encode_…` is the
-- dict as JSON, on which the validators and the digests work. The entries of a dict have no order
-- for them: the encoding sorts the keys.
use once_mesh.Base.{ℕ, String, List, Option, none, some, map}
use once_mesh.Base.Result.{Result}
use once_mesh.Json.{Value, null, int, str, arr, obj, Fields, end, field, pos, from_items}
use once_mesh.Canonical.Manifest.{validate_manifest, manifest_digest}
use once_mesh.Canonical.Records.{validate_source_validation, validate_invalidation}
use once_mesh.Canonical.Action.{Hexdigest}

pub record Descriptor : Type 0 where
  pub name : String
  pub digest : String
  pub size : ℕ
  pub media_type : String

pub record Dependency : Type 0 where
  pub name : String
  pub result_digest : String

pub record Manifest : Type 0 where
  pub spec_version : String
  pub action_digest : String
  pub artifacts : List Descriptor
  pub produced_at : String
  pub fresh_until : Option String
  pub producer : String
  pub dependencies : Option (List Dependency)

pub record SourceValidation : Type 0 where
  pub result_digest : String
  pub validated_at : String
  pub fresh_until : String
  pub producer : String
  pub etag : Option String
  pub last_modified : Option String

pub record Invalidation : Type 0 where
  pub result_digest : String
  pub invalidated_at : String
  pub producer : String
  pub reason : String

abbrev pub or_null : Option String → Value
or_null none = null
or_null (some s) = str s

abbrev pub encode_descriptor : Descriptor → Value
encode_descriptor d = obj (
    field "name" (str d.name) (
      field "digest" (str d.digest)
        (field "size" (int (pos d.size)) (field "media_type" (str d.media_type) end))))

abbrev pub encode_dependency : Dependency → Value
encode_dependency d =
    obj (field "name" (str d.name) (field "result_digest" (str d.result_digest) end))

abbrev pub lineage_field : Option (List Dependency) → Fields
lineage_field none = end
lineage_field (some ds) = field "dependencies" (arr (from_items (map encode_dependency ds))) end

unfoldable pub encode_manifest : Manifest → Value
encode_manifest m = obj (
    field "spec_version" (str m.spec_version) (
      field "action_digest" (str m.action_digest) (
        field "artifacts" (arr (from_items (map encode_descriptor m.artifacts))) (
          field "produced_at" (str m.produced_at) (
            field "fresh_until" (or_null m.fresh_until)
              (field "producer" (str m.producer) (lineage_field m.dependencies)))))))

unfoldable pub encode_validation : SourceValidation → Value
encode_validation v = obj (
    field "spec_version" (str "oncemesh.validation/v0") (
      field "result_digest" (str v.result_digest) (
        field "validated_at" (str v.validated_at) (
          field "fresh_until" (str v.fresh_until) (
            field "producer" (str v.producer) (
              field "method"
                (obj (
                  field "name" (str "http.conditional") (
                    field "version" (str "1") (
                      field "status" (int (pos 304)) (
                        field "etag" (or_null v.etag)
                          (field "last_modified" (or_null v.last_modified) end))))))
                end))))))

unfoldable pub encode_invalidation : Invalidation → Value
encode_invalidation r = obj (
    field "spec_version" (str "oncemesh.invalidation/v0") (
      field "result_digest" (str r.result_digest) (
        field "invalidated_at" (str r.invalidated_at)
          (field "producer" (str r.producer) (field "reason" (str r.reason) end)))))

-- The validators and the digest at these records.
unfoldable pub check_manifest : Manifest → Result (Unit {0})
check_manifest m = validate_manifest (encode_manifest m)

unfoldable pub check_validation : SourceValidation → Result (Unit {0})
check_validation v = validate_source_validation (encode_validation v)

unfoldable pub check_invalidation : Invalidation → Result (Unit {0})
check_invalidation r = validate_invalidation (encode_invalidation r)

unfoldable pub digest_of : Hexdigest → Manifest → Result String
digest_of hexdigest m = manifest_digest hexdigest (encode_manifest m)
