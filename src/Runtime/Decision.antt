-- ===== src/Runtime/Decision.antt =====
-- The helpers of src/oncemesh/runtime.py that decide whether a candidate may be substituted.
use once_mesh.Base.{
  ℕ, String, Bool, true, false, List, [], ◌∷◌, Option, none, some, ◌==◌, contains, leb, codes,
  same_codes, if◌then◌else◌,
}
use once_mesh.Base.Dict.{Dict, lookup}
use once_mesh.Base.Result.{Result, ok, raise, value_error, key_error, type_error, ◌>>=◌}
use once_mesh.Json.{Value, null, str, int, obj, end, find}
use once_mesh.Time.{parse_time}
use once_mesh.Canonical.Encode.{dump_int}
use once_mesh.Canonical.Action.{Hexdigest}
use once_mesh.Records.{Manifest, SourceValidation, digest_of}
use once_mesh.Store.{Store, Bytes, catch_value, catch_read}
use once_mesh.Authorization.{validate_authorization_partition, authorization_partitions_match}
use once_mesh.Policy.{OperationPolicy}
use once_mesh.Shadow.{media_types}
use once_mesh.Cache.Lookup.{LookupOutcome}
use once_mesh.Cache.Publish.{Artifacts}

-- `{name: (data, media_types[name]) for name, data in …}`
unfoldable pub outputs_of : Dict String → Dict Bytes → Result Artifacts
unfolding lookup
outputs_of types [] = ok []
outputs_of types ((name, bytes) ∷ rest) = elim (lookup name types) [
  | none ↦ raise (key_error name)
  | some media_type ↦ do more ← outputs_of types rest; ok ((name, (bytes, media_type)) ∷ more)
]

-- `_candidate_outputs`
unfoldable pub candidate_outputs : LookupOutcome → Result Artifacts
unfolding outputs_of media_types
candidate_outputs candidate = elim candidate.manifest [
  | none ↦ raise (value_error "candidate has no result manifest")
  | some m ↦ outputs_of (media_types [] m.artifacts) candidate.artifacts
]

abbrev pub or_empty : Option Value → Value
or_empty none = obj end
or_empty (some v) = v

abbrev pub or_none : Option Value → Value
or_none none = null
or_none (some v) = v

-- `.get("authorization_partition")`, which only a dict has
abbrev pub partition_of : Value → Result Value
partition_of (obj fs) = ok (or_none (find "authorization_partition" fs))
partition_of _ = raise (type_error "object has no attribute 'get'")

-- `action.get("vary", {}).get("authorization_partition")`
unfoldable pub action_partition : Value → Result Value
action_partition (obj fs) = partition_of (or_empty (find "vary" fs))
action_partition _ = raise (type_error "object has no attribute 'get'")

abbrev pub is_absent : Value → Option String → Bool
is_absent null none = true
is_absent _ _ = false

-- The last two tests: the caller's partition is there, and is that of the action.
unfoldable pub match_failure : Value → Option String → Result (Option String)
match_failure partition none = ok (some "authorization_partition_missing")
match_failure partition (some caller) =
    catch_value (authorization_partitions_match partition caller)
      (ok (some "authorization_partition_invalid"))
      (λ same. ok (if same then none else some "authorization_partition_mismatch"))

-- What follows the reading of the action's partition.
unfoldable pub partition_failure : String → Value → Option String → Result (Option String)
unfolding match_failure
partition_failure requirement partition caller =
    if requirement == "public"
    then ok (if is_absent partition caller then none else some "authorization_partition_forbidden")
    else catch_value (validate_authorization_partition partition)
        (ok (some "authorization_partition_invalid")) (λ _. match_failure partition caller)

-- `_authorization_failure`
unfoldable pub authorization_failure :
    Value → OperationPolicy → Option String → Result (Option String)
unfolding action_partition partition_failure
authorization_failure action policy caller = do
  partition ← action_partition action
  partition_failure policy.authorization_partition partition caller

-- `next((store for store in stores if store.name == tier), None)`
unfoldable pub find_store : Option String → List Store → Option Store
find_store none stores = none
find_store (some tier) [] = none
find_store (some tier) (store ∷ rest) =
    if store.name == tier then some store else find_store (some tier) rest

-- `candidate.tier in policy.allowed_tiers`
abbrev pub is_allowed_tier : Option String → List String → Bool
is_allowed_tier none tiers = false
is_allowed_tier (some tier) tiers = contains tiers tier

-- `max(boundaries)` of a list with this one
abbrev pub later_of : Option ℕ → ℕ → ℕ
later_of none t = t
later_of (some s) t = if leb s t then t else s

-- One round of the loop over the validations of `_latest_trusted_freshness`.
unfoldable pub with_validation : List String → Option ℕ → SourceValidation → Result (Option ℕ)
with_validation trust latest v =
    if contains trust v.producer
    then parse_time v.fresh_until >>= (λ t. ok (some (later_of latest t)))
    else ok latest

-- The loop, with the latest boundary so far.
unfoldable pub latest_boundary : List String → Option ℕ → List SourceValidation → Result (Option ℕ)
unfolding with_validation
latest_boundary trust latest [] = ok latest
latest_boundary trust latest (v ∷ rest) = do
  next ← with_validation trust latest v
  latest_boundary trust next rest

abbrev pub own_boundary : Option String → Result (Option ℕ)
own_boundary none = ok none
own_boundary (some text) = do t ← parse_time text; ok (some t)

-- A boundary, and whether the validations could not be read.
unfoldable pub store_boundary :
    Hexdigest → Manifest → List String → Option ℕ → Option Store → Result (Option ℕ × Bool)
unfolding latest_boundary
store_boundary hexdigest m trust own none = ok (own, false)
store_boundary hexdigest m trust own (some source) =
    catch_read (digest_of hexdigest m >>= source.validations) (λ _. ok (none, true))
      (λ validations. do latest ← latest_boundary trust own validations; ok (latest, false))

-- `_latest_trusted_freshness`
unfoldable pub latest_trusted_freshness :
    Hexdigest → LookupOutcome → List Store → OperationPolicy → Result (Option ℕ × Bool)
unfolding store_boundary find_store
latest_trusted_freshness hexdigest candidate stores policy = elim candidate.manifest [
  | none ↦ ok (none, false)
  | some m ↦ do
    own ← own_boundary m.fresh_until
    store_boundary hexdigest m policy.trusted_validation_producers own
        (find_store candidate.tier stores)
]

-- Whether `f"{value}"` is the text. A text for which this is asked is that of no other JSON value.
unfoldable pub is_shown : Value → String → Bool
is_shown (str s) t = s == t
is_shown (int z) t = same_codes (dump_int z) (codes t)
is_shown _ t = false
