-- ===== src/Tests/Executions.antt =====
-- Runs of src/oncemesh/execution_cache.py, and its theorems at them.
use once_mesh.Base.{
  ℕ, ◌+◌, ◌≡◌, ◌≢◌, refl, String, Bool, true, false, List, [], ◌∷◌, Option, none, some, here,
  nat_eq, length, if◌then◌else◌,
}
use once_mesh.Base.Result.{ok, raise, value_error}
use once_mesh.Json.{null}
use once_mesh.Canonical.Action.{Hexdigest}
use once_mesh.Store.{Bytes}
use once_mesh.Store.Memory.{MemoryStore, empty, as_store}
use once_mesh.Index.Entries.{Namespace}
use once_mesh.ExecutionCache.{
  ExecutionCacheKey, EncodedExecutionValue, no_epochs, epochs, rotate_all, rotate_namespaces,
  pack_execution_value, unpack_execution_value,
}
use once_mesh.ExecutionCache.Envelope.{unpack_execution_value-pack_execution_value}
use once_mesh.ExecutionCache.Bridge.{
  ExecutionCacheBridge, new_bridge, action_for, get_values, set_values, clear,
}
use once_mesh.ExecutionCache.Counted.{count, epochs-rotate_namespaces}
use once_mesh.ExecutionCache.Retired.{stays, cleared, covers_one, clear-IsFinal}

program : Unit {0}
unfolding once_mesh.Base64.sextet_code once_mesh.Base64.code_sextet once_mesh.Base64.is_code
    once_mesh.Base64.is_key_text once_mesh.Base64.decode_groups once_mesh.Base64.encode_groups
    once_mesh.Base64.char_of once_mesh.Base64.text_from once_mesh.Base64.encode_text
    once_mesh.Canonical.Action.digest_bytes once_mesh.Canonical.Action.object_digest
    once_mesh.Canonical.Action.validate_action once_mesh.Canonical.Action.action_digest
    once_mesh.Canonical.Checks.is_prefixed_hex once_mesh.Canonical.Checks.is_digest
    once_mesh.Canonical.Checks.same_keys once_mesh.Canonical.Checks.require_exact_keys
    once_mesh.Canonical.Checks.require_nonempty_string
    once_mesh.Canonical.Checks.require_utc_timestamp once_mesh.Canonical.Encode.dump_int
    once_mesh.Canonical.Encode.codes_lt once_mesh.Canonical.Encode.text_lt
    once_mesh.Canonical.Encode.insert_by_key once_mesh.Canonical.Encode.sort_by_key
    once_mesh.Canonical.Encode.encode_utf8 once_mesh.Canonical.Encode.canonical_json
    once_mesh.Canonical.Manifest.validate_manifest once_mesh.Canonical.Manifest.manifest_digest
    once_mesh.Canonical.Records.validate_source_validation
    once_mesh.Canonical.Records.validate_invalidation once_mesh.Canonical.Records.validation_digest
    once_mesh.Canonical.Records.invalidation_digest once_mesh.Records.encode_manifest
    once_mesh.Records.encode_validation once_mesh.Records.encode_invalidation
    once_mesh.Records.check_manifest once_mesh.Records.check_validation
    once_mesh.Records.check_invalidation once_mesh.Records.digest_of
    once_mesh.Store.Memory.listed_at once_mesh.Store.Memory.append_at
    once_mesh.Store.Memory.put_blob once_mesh.Store.Memory.put_result
    once_mesh.Store.Memory.put_validation once_mesh.Store.Memory.put_invalidation
    once_mesh.Store.Memory.put_receipt once_mesh.Store.Memory.get_blob
    once_mesh.Store.Memory.candidates once_mesh.Store.Memory.result
    once_mesh.Store.Memory.validations once_mesh.Store.Memory.invalidations
    once_mesh.Store.Memory.receipts once_mesh.Store.Memory.as_store once_mesh.Cache.trusts
    once_mesh.Cache.Evaluate.find_invalidation once_mesh.Cache.Evaluate.find_validation
    once_mesh.Cache.Evaluate.manifest_is_fresh once_mesh.Cache.Evaluate.stale
    once_mesh.Cache.Evaluate.or_stale once_mesh.Cache.Evaluate.compare_exact
    once_mesh.Cache.Evaluate.propagated once_mesh.Cache.Evaluate.count_edge
    once_mesh.Cache.Evaluate.enter once_mesh.Cache.Evaluate.check_found
    once_mesh.Cache.Evaluate.remove_active once_mesh.Cache.Evaluate.deactivate
    once_mesh.Cache.Evaluate.finally_deactivate once_mesh.Cache.Evaluate.active_digests
    once_mesh.Cache.Evaluate.effective_invalidated once_mesh.Cache.Evaluate.check_located
    once_mesh.Cache.Evaluate.locate_from once_mesh.Cache.Evaluate.locate_result
    once_mesh.Cache.Evaluate.gate once_mesh.Cache.Evaluate.check_invalidation_state
    once_mesh.Cache.Evaluate.after_test once_mesh.Cache.Evaluate.check_freshness
    once_mesh.Cache.Evaluate.check_blob once_mesh.Cache.Evaluate.collect_artifacts
    once_mesh.Cache.Evaluate.check_dependencies once_mesh.Cache.Evaluate.check_lineage
    once_mesh.Cache.Evaluate.evaluate once_mesh.Cache.Lookup.after_candidate
    once_mesh.Cache.Lookup.after_store once_mesh.Cache.Lookup.evaluate_candidate
    once_mesh.Cache.Lookup.scan_candidates once_mesh.Cache.Lookup.scan_stores
    once_mesh.Cache.Lookup.lookup_action once_mesh.Cache.Lookup.reuse
    once_mesh.Cache.Lookup.candidate_for_revalidation once_mesh.Cache.Publish.publish_artifacts
    once_mesh.Cache.Publish.publish_manifest once_mesh.Cache.Publish.publish_described
    once_mesh.Cache.Publish.publish_result once_mesh.Cache.Publish.publish_invalidation
    once_mesh.Time.instant once_mesh.Time.parse_time once_mesh.Time.Format.format_time
    once_mesh.Authorization.is_partition once_mesh.Authorization.validate_authorization_partition
    once_mesh.Authorization.sorted once_mesh.Authorization.derive_authorization_partition
    once_mesh.Authorization.authorization_partitions_match once_mesh.Shadow.media_types
    once_mesh.Shadow.entries_match once_mesh.Shadow.matches_manifest
    once_mesh.Shadow.candidate_matches once_mesh.Index.Entries.same_namespace
    once_mesh.Index.Entries.same_native once_mesh.Index.Entries.entry_at
    once_mesh.Index.Entries.write_entry once_mesh.ExecutionCache.validate_namespace
    once_mesh.ExecutionCache.validate_cache_key once_mesh.ExecutionCache.validate_type_tag
    once_mesh.ExecutionCache.size_bytes once_mesh.ExecutionCache.size_of
    once_mesh.ExecutionCache.pack_execution_value once_mesh.ExecutionCache.unpack_execution_value
    once_mesh.ExecutionCache.epoch_in once_mesh.ExecutionCache.advance_in
    once_mesh.ExecutionCache.epochs once_mesh.ExecutionCache.rotate_all
    once_mesh.ExecutionCache.rotate_namespaces once_mesh.ExecutionCache.Bridge.new_bridge
    once_mesh.ExecutionCache.Bridge.set_enabled once_mesh.ExecutionCache.Bridge.action_for
    once_mesh.ExecutionCache.Bridge.insert_value once_mesh.ExecutionCache.Bridge.value_of
    once_mesh.ExecutionCache.Bridge.get_one once_mesh.ExecutionCache.Bridge.get_all
    once_mesh.ExecutionCache.Bridge.get_values once_mesh.ExecutionCache.Bridge.ttl_seconds
    once_mesh.ExecutionCache.Bridge.set_one once_mesh.ExecutionCache.Bridge.set_all
    once_mesh.ExecutionCache.Bridge.set_values once_mesh.ExecutionCache.Bridge.clear
    once_mesh.Base.same_codes once_mesh.Base.Dict.lookup once_mesh.Base.Dict.insert
    once_mesh.Base.contains once_mesh.Base.all_distinct
program = tt

-- The decoder knows one tag.
abbrev decode_pickle : Bytes → Option String
decode_pickle bytes = some "pickle"

abbrev pickled : EncodedExecutionValue
pickled = record { type_tag = "pickle"; payload = 7 ∷ 8 ∷ [] }

abbrev pickled_bytes : Bytes
pickled_bytes = 0 ∷ 0 ∷ 0 ∷ 6 ∷ 112 ∷ 105 ∷ 99 ∷ 107 ∷ 108 ∷ 101 ∷ 7 ∷ 8 ∷ []

pack_run : pack_execution_value pickled ≡ ok pickled_bytes
unfolding program
pack_run = refl

unpack_runs :
    (unpack_execution_value decode_pickle (0 ∷ 0 ∷ 0 ∷ 1 ∷ [])
      ≡ raise (value_error "execution cache value envelope is truncated"))
    × (unpack_execution_value decode_pickle (0 ∷ 0 ∷ 0 ∷ 2 ∷ 112 ∷ [])
        ≡ raise (value_error "execution cache value envelope has an invalid type tag length"))
unfolding program
unpack_runs = (refl, refl)

unpack_execution_value-pack_execution_value_example :
    unpack_execution_value decode_pickle pickled_bytes ≡ ok pickled
unpack_execution_value-pack_execution_value_example =
    unpack_execution_value-pack_execution_value decode_pickle pickled pickled_bytes refl pack_run

-- A digest by the size of the bytes.
abbrev sized_digest : Hexdigest
sized_digest bytes =
    if nat_eq (length bytes) 12
    then "0000000000000000000000000000000000000000000000000000000000000002"
    else "000000000000000000000000000000000000000000000000000000000000000f"

abbrev tenant : Namespace
tenant = "tenant" ∷ []

abbrev answer : ExecutionCacheKey
answer = record { namespace = tenant; key = "answer" }

abbrev bridge_on : MemoryStore → ExecutionCacheBridge
bridge_on s = record {
  runtime = "python";
  serializer = "pickle";
  authorization_partition =
      "hmac-sha256:000000000000000000000000000000000000000000000000000000000000000f";
  stores = as_store s ∷ [];
  publish_to = s;
  producer = "alice";
  epochs = no_epochs;
  enabled = true;
}

abbrev fresh_bridge : ExecutionCacheBridge
fresh_bridge = bridge_on (empty "local")

new_run : new_bridge false fresh_bridge ≡ ok fresh_bridge
unfolding program
new_run = refl

abbrev filled : ExecutionCacheBridge
filled = (set_values sized_digest 63800000000000000 ((answer, (pickled, null)) ∷ []) fresh_bridge).1

-- A value that was set is read back, and without a lookup when the cache is disabled it is not.
get_runs :
    (get_values sized_digest decode_pickle
        (bridge_on filled.publish_to)
        63800000000000000
        (answer ∷ [])
      ≡ ok ((answer, pickled) ∷ []))
    × (get_values sized_digest decode_pickle
          (record (bridge_on filled.publish_to) { enabled = false })
          63800000000000000
          (answer ∷ [])
        ≡ ok [])
    × (get_values sized_digest decode_pickle fresh_bridge 63800000000000000 (answer ∷ []) ≡ ok [])
unfolding program
get_runs = (refl, refl, refl)

clear-IsFinal_example :
    action_for (clear none (clear (some (tenant ∷ [])) fresh_bridge).1).1 answer
    ≢ action_for fresh_bridge answer
unfolding program
clear-IsFinal_example =
    clear-IsFinal (some (tenant ∷ [])) answer fresh_bridge
      (clear none (clear (some (tenant ∷ [])) fresh_bridge).1).1
      (covers_one (tenant ∷ []) tenant here) refl
      (cleared none (clear (some (tenant ∷ [])) fresh_bridge).1
        (clear (some (tenant ∷ [])) fresh_bridge).1
        (stays (clear (some (tenant ∷ [])) fresh_bridge).1))

abbrev twice : List Namespace
twice = tenant ∷ ("other" ∷ []) ∷ tenant ∷ []

epochs-rotate_namespaces_example :
    (epochs tenant (rotate_all no_epochs)
      ≡ ((epochs tenant no_epochs).0 + 1, (epochs tenant no_epochs).1))
    × (epochs tenant (rotate_namespaces twice no_epochs).1
        ≡ ((epochs tenant no_epochs).0, count tenant twice + (epochs tenant no_epochs).1))
unfolding program
epochs-rotate_namespaces_example = epochs-rotate_namespaces tenant twice no_epochs refl
