-- ===== src/ExecutionCache/Bridge.antt =====
-- `ExecutionCacheBridge` of src/oncemesh/execution_cache.py. The clock is an argument, and so is whether one of
-- the stores is marked as import-only.
use once_mesh.Base.{
  ℕ, ◌+◌, ◌*◌, String, Bool, true, false, not, ◌&&◌, ◌||◌, List, [], ◌∷◌, Option, none, some, ◌==◌,
  map, nat_eq, if◌then◌else◌,
}
use once_mesh.Base.Dict.{lookup}
use once_mesh.Base.Result.{Result, ok, raise, value_error, key_error, require, ◌>>=◌, ◌>>◌}
use once_mesh.Json.{Value, null, int, str, arr, obj, pos, negsuc, end, field, from_items}
use once_mesh.Canonical.Action.{Hexdigest}
use once_mesh.Canonical.Checks.{is_nonempty, same_keys}
use once_mesh.Records.{Manifest, Descriptor}
use once_mesh.Store.{Store, Bytes, catch_value, catch_read}
use once_mesh.Store.Memory.{MemoryStore}
use once_mesh.Authorization.{validate_authorization_partition}
use once_mesh.Shadow.{keys_of}
use once_mesh.Index.Entries.{Namespace, same_namespace}
use once_mesh.Cache.{Policy}
use once_mesh.Cache.Lookup.{LookupOutcome, reuse}
use once_mesh.Cache.Publish.{publish_result}
use once_mesh.ExecutionCache.{
  ExecutionCacheKey, EncodedExecutionValue, MemoryEpochRegistry, epochs, rotate_all,
  rotate_namespaces, pack_execution_value, unpack_execution_value, value_media_type,
}

pub record ExecutionCacheBridge : Type 0 where
  pub runtime : String
  pub serializer : String
  pub authorization_partition : String
  pub stores : List Store
  pub publish_to : MemoryStore
  pub producer : String
  pub epochs : MemoryEpochRegistry
  pub enabled : Bool

abbrev pub is_some_store : List Store → Bool
is_some_store [] = false
is_some_store (s ∷ ss) = true

-- `ExecutionCacheBridge(…)`, of a bridge with the fields that it is given.
unfoldable pub new_bridge : Bool → ExecutionCacheBridge → Result ExecutionCacheBridge
unfolding validate_authorization_partition
new_bridge import_only b = do
  require (is_nonempty b.runtime) "runtime must be a non-empty string"
  require (is_nonempty b.serializer) "serializer must be a non-empty string"
  validate_authorization_partition (str b.authorization_partition)
  require (is_nonempty b.producer) "producer must be a non-empty string"
  require (is_some_store b.stores) "at least one execution cache read store is required"
  require (not import_only) "generic execution cache values cannot use a federation store"
  ok b

unfoldable pub set_enabled : Bool → ExecutionCacheBridge → ExecutionCacheBridge
set_enabled enabled b = record b { enabled = enabled }

-- The action under these epochs.
abbrev pub action_at : ExecutionCacheBridge → ExecutionCacheKey → ℕ × ℕ → Value
action_at b k (global_epoch, namespace_epoch) = obj (
    field "spec_version" (str "oncemesh.action/v0") (
      field "operation"
        (obj (field "name" (str "framework.execution-cache") (field "version" (str "1") end)))
        (field "inputs"
          (obj (
            field "runtime" (str b.runtime) (
              field "namespace" (arr (from_items (map str k.namespace)))
                (field "key" (str k.key) end))))
          (field "executor"
            (obj (
              field "name" (str "oncemesh.execution-cache-bridge") (
                field "version" (str "0") (
                  field "config"
                    (obj (
                      field "serializer" (str b.serializer) (
                        field "global_epoch" (int (pos global_epoch))
                          (field "namespace_epoch" (int (pos namespace_epoch)) end))))
                    end))))
            (field "output_schema" (str "oncemesh.execution-cache-value/v1") (
              field "vary"
                (obj (field "authorization_partition" (str b.authorization_partition) end))
                end))))))

unfoldable pub action_for : ExecutionCacheBridge → ExecutionCacheKey → Value
unfolding epochs
action_for b k = action_at b k (epochs k.namespace b.epochs)

-- The policy of a lookup.
abbrev pub exact_policy : ExecutionCacheBridge → ℕ → Policy
exact_policy b now = record {
  now = now;
  trusted_producers = some (b.producer ∷ []);
  trusted_validation_producers = none;
  trusted_invalidation_producers = none;
  permit_no_expiry = true;
  require_lineage = false;
  max_dependency_depth = 8;
  max_dependency_count = 64;
}

-- A dict with keys of the cache; `==` of keys compares their fields.
unfoldable pub insert_value :
    ExecutionCacheKey
    → EncodedExecutionValue
    → List (ExecutionCacheKey × EncodedExecutionValue)
    → List (ExecutionCacheKey × EncodedExecutionValue)
unfolding same_namespace
insert_value k v [] = (k, v) ∷ []
insert_value k v ((j, u) ∷ rest) =
    let others = insert_value k v rest in
    if same_namespace j.namespace k.namespace && j.key == k.key
    then (j, v) ∷ rest
    else (j, u) ∷ others

-- `outcome.manifest["artifacts"][0]`, where it names the value and has its media type.
abbrev pub is_value_artifact : List Descriptor → Bool
is_value_artifact [] = false
is_value_artifact (d ∷ ds) = d.name == "value" && d.media_type == value_media_type

abbrev pub has_value_artifact : Option Manifest → Bool
has_value_artifact none = false
has_value_artifact (some m) = is_value_artifact m.artifacts

abbrev pub unpacked : (Bytes → Option String) → Option Bytes → Result EncodedExecutionValue
unpacked decode none = raise (key_error "value")
unpacked decode (some envelope) = unpack_execution_value decode envelope

-- What a lookup gives for a key: a value, or nothing where the loop goes on.
unfoldable pub value_of :
    (Bytes → Option String) → LookupOutcome → Result (Option EncodedExecutionValue)
unfolding unpack_execution_value lookup
value_of decode outcome =
    if not outcome.hit
      || not (same_keys (keys_of outcome.artifacts) ("value" ∷ []))
      || not (has_value_artifact outcome.manifest)
    then ok none
    else catch_value (unpacked decode (lookup "value" outcome.artifacts)) (ok none)
        (λ v. ok (some v))

abbrev pub with_value :
    ExecutionCacheKey
    → List (ExecutionCacheKey × EncodedExecutionValue)
    → Option EncodedExecutionValue
    → List (ExecutionCacheKey × EncodedExecutionValue)
with_value k results none = results
with_value k results (some v) = insert_value k v results

module _ (hexdigest : Hexdigest) where
  -- One round of the loop of `get`.
  unfoldable pub get_one :
      (Bytes → Option String)
      → ExecutionCacheBridge
      → ℕ
      → ExecutionCacheKey
      → Result (Option EncodedExecutionValue)
  unfolding action_for reuse value_of
  get_one decode b now k =
      catch_read (reuse hexdigest (action_for b k) b.stores (exact_policy b now)) (λ _. ok none)
        (value_of decode)

  unfoldable pub get_all :
      (Bytes → Option String)
      → ExecutionCacheBridge
      → ℕ
      → List (ExecutionCacheKey × EncodedExecutionValue)
      → List ExecutionCacheKey
      → Result (List (ExecutionCacheKey × EncodedExecutionValue))
  unfolding get_one
  get_all decode b now results [] = ok results
  get_all decode b now results (k ∷ rest) = do
    found ← get_one decode b now k
    get_all decode b now (with_value k results found) rest

  -- `get`
  unfoldable pub get_values :
      (Bytes → Option String)
      → ExecutionCacheBridge
      → ℕ
      → List ExecutionCacheKey
      → Result (List (ExecutionCacheKey × EncodedExecutionValue))
  unfolding get_all
  get_values decode b now ks = if b.enabled then get_all decode b now [] ks else ok []

  -- The time to live of a pair: an integer that is no Boolean, or null.
  unfoldable pub ttl_seconds : Value → Result (Option ℕ × Bool)
  ttl_seconds null = ok (none, true)
  ttl_seconds (int (pos n)) = ok (some n, not (nat_eq n 0))
  ttl_seconds (int (negsuc n)) = ok (none, false)
  ttl_seconds _ = raise (value_error "TTL must be an integer number of seconds or null")

  abbrev pub until : ℕ → Option ℕ → Option ℕ
  until now none = none
  until now (some n) = some (now + n * 1000000)

  abbrev pub only_store : {A : Type 0} → Result A × MemoryStore → Result (Unit {0}) × MemoryStore
  only_store (ok a, s) = (ok tt, s)
  only_store (raise e, s) = (raise e, s)

  abbrev pub publish_value :
      ExecutionCacheBridge
      → ℕ
      → ExecutionCacheKey
      → Option ℕ
      → Result Bytes
      → MemoryStore
      → Result (Unit {0}) × MemoryStore
  publish_value b now k ttl (raise e) s = (raise e, s)
  publish_value b now k ttl (ok envelope) s = only_store (
      publish_result hexdigest (action_for b k) (("value", (envelope, value_media_type)) ∷ [])
        b.producer now (until now ttl) none s)

  abbrev pub set_checked :
      ExecutionCacheBridge
      → ℕ
      → ExecutionCacheKey
      → EncodedExecutionValue
      → Result (Option ℕ × Bool)
      → MemoryStore
      → Result (Unit {0}) × MemoryStore
  set_checked b now k v (raise e) s = (raise e, s)
  set_checked b now k v (ok (ttl, false)) s = (ok tt, s)
  set_checked b now k v (ok (ttl, true)) s = publish_value b now k ttl (pack_execution_value v) s

  -- One round of the loop of `set`.
  unfoldable pub set_one :
      ExecutionCacheBridge
      → ℕ
      → ExecutionCacheKey
      → EncodedExecutionValue
      → Value
      → MemoryStore
      → Result (Unit {0}) × MemoryStore
  unfolding ttl_seconds action_for publish_result pack_execution_value
  set_one b now k v ttl s = set_checked b now k v (ttl_seconds ttl) s

  abbrev pub then_set :
      Result (Unit {0}) × MemoryStore
      → (MemoryStore → Result (Unit {0}) × MemoryStore)
      → Result (Unit {0}) × MemoryStore
  then_set (ok done, s) next = next s
  then_set (raise e, s) next = (raise e, s)

  unfoldable pub set_all :
      ExecutionCacheBridge
      → ℕ
      → List (ExecutionCacheKey × (EncodedExecutionValue × Value))
      → MemoryStore
      → Result (Unit {0}) × MemoryStore
  unfolding set_one
  set_all b now [] s = (ok tt, s)
  set_all b now ((k, (v, ttl)) ∷ rest) s = then_set (set_one b now k v ttl s) (set_all b now rest)

  abbrev pub stored_into :
      ExecutionCacheBridge
      → Result (Unit {0}) × MemoryStore
      → Result (Unit {0}) × ExecutionCacheBridge
  stored_into b (r, s) = (r, record b { publish_to = s })

  -- `set`
  unfoldable pub set_values :
      ℕ
      → List (ExecutionCacheKey × (EncodedExecutionValue × Value))
      → ExecutionCacheBridge
      → Result (Unit {0}) × ExecutionCacheBridge
  unfolding set_all
  set_values now pairs b =
      if b.enabled then stored_into b (set_all b now pairs b.publish_to) else (ok tt, b)

abbrev pub rotated_in :
    ExecutionCacheBridge
    → Result (Unit {0}) × MemoryEpochRegistry
    → Result (Unit {0}) × ExecutionCacheBridge
rotated_in b (r, registry) = (r, record b { epochs = registry })

-- `clear`
unfoldable pub clear :
    Option (List Namespace) → ExecutionCacheBridge → Result (Unit {0}) × ExecutionCacheBridge
unfolding rotate_all rotate_namespaces
clear none b = (ok tt, record b { epochs = rotate_all b.epochs })
clear (some namespaces) b = rotated_in b (rotate_namespaces namespaces b.epochs)
