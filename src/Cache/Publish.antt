-- ===== src/Cache/Publish.antt =====
-- `publish_result` and `publish_invalidation` of src/oncemesh/cache.py, on a memory store.
pub mod Returned
pub mod Signed
use once_mesh.Base.{ℕ, String, List, [], ◌∷◌, Option, none, some, map, length}
use once_mesh.Base.Dict.{Dict}
use once_mesh.Base.Result.{Result, ok, raise}
use once_mesh.Json.{Value}
use once_mesh.Time.Format.{format_time}
use once_mesh.Canonical.Encode.{sort_by_key}
use once_mesh.Canonical.Action.{Hexdigest, action_digest}
use once_mesh.Canonical.Manifest.{result_v0, result_v1}
use once_mesh.Records.{Descriptor, Dependency, Manifest, Invalidation}
use once_mesh.Store.{Bytes}
use once_mesh.Store.Memory.{MemoryStore, put_blob, put_result, put_invalidation}

-- A name, the bytes and the media type.
abbrev pub Artifacts : Type 0
Artifacts = Dict (Bytes × String)

abbrev pub dependency_of : String × String → Dependency
dependency_of (name, result_digest) = record { name = name; result_digest = result_digest }

-- `[{"name": …} for … in sorted(dependencies.items())]`, and the version that goes with it
abbrev pub lineage_of : Option (Dict String) → Option (List Dependency)
lineage_of none = none
lineage_of (some ds) = some (map dependency_of (sort_by_key ds))

abbrev pub version_of : Option (Dict String) → String
version_of none = result_v0
version_of (some ds) = result_v1

abbrev pub format_optional : Option ℕ → Option String
format_optional none = none
format_optional (some t) = some (format_time t)

-- What an exception leaves is the store as it then is.
abbrev pub or_keep : Result MemoryStore → MemoryStore → Manifest → Result Manifest × MemoryStore
or_keep (ok s') s m = (ok m, s')
or_keep (raise e) s m = (raise e, s)

module _ (hexdigest : Hexdigest) where
  -- The loop over the sorted artifacts.
  unfoldable pub publish_artifacts :
      List (String × (Bytes × String)) → MemoryStore → List Descriptor × MemoryStore
  publish_artifacts [] s = ([], s)
  publish_artifacts ((name, (payload, media_type)) ∷ rest) s =
      let (digest, s1) = put_blob hexdigest payload s in
      let (descriptors, s2) = publish_artifacts rest s1 in
      (
        record { name = name; digest = digest; size = length payload; media_type = media_type }
            ∷ descriptors,
        s2,
      )

  unfoldable pub publish_manifest : Manifest → MemoryStore → Result Manifest × MemoryStore
  publish_manifest m s = or_keep (put_result hexdigest m s) s m

  -- The end of `publish_result`, from the digest of the action on.
  unfoldable pub publish_described :
      List Descriptor
      → String
      → ℕ
      → Option ℕ
      → Option (Dict String)
      → Result String
      → MemoryStore
      → Result Manifest × MemoryStore
  unfolding publish_manifest
  publish_described descriptors producer produced_at fresh_until dependencies (raise e) s =
      (raise e, s)
  publish_described descriptors producer produced_at fresh_until dependencies (ok requested) s =
      publish_manifest
        (record {
          spec_version = version_of dependencies;
          action_digest = requested;
          artifacts = descriptors;
          produced_at = format_time produced_at;
          fresh_until = format_optional fresh_until;
          producer = producer;
          dependencies = lineage_of dependencies;
        })
        s

  unfoldable pub publish_result :
      Value
      → Artifacts
      → String
      → ℕ
      → Option ℕ
      → Option (Dict String)
      → MemoryStore
      → Result Manifest × MemoryStore
  unfolding publish_artifacts publish_described
  publish_result action artifacts producer produced_at fresh_until dependencies s =
      let (descriptors, s1) = publish_artifacts (sort_by_key artifacts) s in
      publish_described descriptors producer produced_at fresh_until dependencies
        (action_digest hexdigest action) s1

abbrev pub invalidation_of : String → String → ℕ → String → Invalidation
invalidation_of result_digest producer invalidated_at reason = record {
  result_digest = result_digest;
  invalidated_at = format_time invalidated_at;
  producer = producer;
  reason = reason;
}

unfoldable pub publish_invalidation :
    String → String → ℕ → String → MemoryStore → Result MemoryStore
publish_invalidation result_digest producer invalidated_at reason s =
    put_invalidation (invalidation_of result_digest producer invalidated_at reason) s
