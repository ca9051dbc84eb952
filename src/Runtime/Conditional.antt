-- ===== src/Runtime/Conditional.antt =====
-- Conditional requests, which src/oncemesh/runtime.py, src/oncemesh/conditional.py and
-- src/oncemesh/revalidation.py make, and `run_conditional_http_shadow` of src/oncemesh/conditional.py.
use once_mesh.Base.{
  ℕ, ◌^◌, String, Bool, true, false, not, ◌&&◌, ◌||◌, Option, none, some, nat_eq, if◌then◌else◌,
}
use once_mesh.Base.Dict.{lookup}
use once_mesh.Base.Result
use once_mesh.Base.Result.{Error, Result, ok, raise, value_error, key_error, type_error, require}
use once_mesh.Json.{
  Value, null, bool, int, float, str, arr, obj, nil, cons, Fields, end, pos, negsuc, find, item,
}
use once_mesh.Time.Format.{format_time}
use once_mesh.Canonical.Action.{action_digest}
use once_mesh.Canonical.Checks.{is_nonempty}
use once_mesh.Records.{Manifest, SourceValidation, digest_of}
use once_mesh.Store.{Bytes}
use once_mesh.Store.Memory.{MemoryStore, put_validation}
use once_mesh.Http.{FetchResponse, Python, Transport, execute_http_fetch, response_to_artifacts}
use once_mesh.Shadow.{candidate_matches}
use once_mesh.Cache.{Policy}
use once_mesh.Cache.Lookup.{LookupOutcome, candidate_for_revalidation}
use once_mesh.Cache.Publish.{Artifacts}
use once_mesh.Runtime.{
  EvaluationEvent, World, Run, returns, ◌>>=◌, ◌>>◌, call, record_event, publish,
}
use once_mesh.Runtime.Decision.{or_none}
use once_mesh.Runtime.Deterministic.{run_shadow}
use once_mesh.Runtime.Outcome.{Setting, operation_name, verified_bytes}

-- What the requests use of the world outside: functions of Python, the network, and
-- `json.loads(data.decode("utf-8"))`, which is none where that raises.
pub record Web : Type 0 where
  pub python : Python
  pub transport : Transport
  pub loads : Bytes → Option Value

-- The truth of a value, as `not` and `or` take it; both zeros of the floats are false.
unfoldable pub is_truthy : Value → Bool
is_truthy null = false
is_truthy (bool b) = b
is_truthy (int (pos n)) = not (nat_eq n 0)
is_truthy (int (negsuc n)) = true
is_truthy (float bits) = not (nat_eq bits 0 || nat_eq bits (2 ^ 63))
is_truthy (str s) = is_nonempty s
is_truthy (arr nil) = false
is_truthy (arr (cons v vs)) = true
is_truthy (obj end) = false
is_truthy (obj (Fields.field k v fs)) = true

-- `metadata.get("etag")` and `metadata.get("last_modified")`
unfoldable pub validators_of : Value → Result (Value × Value)
validators_of (obj fs) = ok (or_none (find "etag" fs), or_none (find "last_modified" fs))
validators_of _ = raise (type_error "object has no attribute 'get'")

-- `not etag and not last_modified`, negated
abbrev pub is_validator : Value × Value → Bool
is_validator (etag, last_modified) = is_truthy etag || is_truthy last_modified

abbrev pub loaded_metadata : Option Value → Result Value
loaded_metadata none = raise (value_error "metadata is not JSON in UTF-8")
loaded_metadata (some metadata) = ok metadata

abbrev pub metadata_in : Web → Option Bytes → Result Value
metadata_in web none = raise (key_error "metadata")
metadata_in web (some bytes) = loaded_metadata (web.loads bytes)

-- The reading of the validators, where a missing or unreadable metadata raises.
unfoldable pub read_validators : Web → LookupOutcome → Result (Value × Value)
unfolding validators_of lookup
read_validators web candidate =
    Result.◌>>=◌ (metadata_in web (lookup "metadata" candidate.artifacts)) validators_of

-- The value of a validator in a record: `put_validation` refuses any but a text or null.
abbrev pub text_or_none : Value → String → Result (Option String)
text_or_none null message = ok none
text_or_none (str s) message = ok (some s)
text_or_none _ message = raise (value_error message)

-- The source validation of a response with status 304.
unfoldable pub validation_of : String → ℕ → ℕ → String → Value × Value → Result SourceValidation
unfolding format_time
validation_of result_digest now fresh_until producer (etag, last_modified) =
    Result.◌>>=◌ (text_or_none etag "method.etag must be null or a non-empty string") λ etag_text.
      Result.◌>>=◌
        (text_or_none last_modified "method.last_modified must be null or a non-empty string")
        λ last_modified_text. ok (record {
          result_digest = result_digest;
          validated_at = format_time now;
          fresh_until = format_time fresh_until;
          producer = producer;
          etag = etag_text;
          last_modified = last_modified_text;
        })

abbrev pub validated_in : World → Result MemoryStore → Result (Unit {0}) × World
validated_in w (ok s) = (ok tt, record w { publish_to = some s })
validated_in w (raise e) = (raise e, w)

abbrev pub recorded_in :
    World → (MemoryStore → Result MemoryStore) → Option MemoryStore → Result (Unit {0}) × World
recorded_in w put none = (ok tt, w)
recorded_in w put (some s) = validated_in w (put s)

module _ (setting : Setting) (web : Web) (action : Value) where
  -- `transport.conditional_get(…)`
  unfoldable pub conditional_response : Value × Value → Result FetchResponse
  conditional_response (etag, last_modified) = Result.◌>>=◌ (item action "inputs") λ inputs.
      Result.◌>>=◌ (item action "executor") λ executor.
        Result.◌>>=◌ (item executor "config") λ config. Result.◌>>=◌ (item inputs "url") λ url.
          Result.◌>>=◌ (item inputs "accept") λ accept.
            Result.◌>>=◌ (item config "follow_redirects") λ follow_redirects.
              Result.◌>>=◌ (item config "max_bytes") λ max_bytes.
                web.transport.conditional_get url accept follow_redirects max_bytes etag
                  last_modified

  -- `publish_to.put_validation({…})`
  unfoldable pub put_validation_of :
      Manifest → ℕ → ℕ → String → Value × Value → MemoryStore → Result MemoryStore
  put_validation_of m now fresh_until producer validators s =
      Result.◌>>=◌ (digest_of setting.hexdigest m) λ digest.
        Result.◌>>=◌ (validation_of digest now fresh_until producer validators)
          λ v. put_validation v s

  -- The same, if there is a store.
  unfoldable pub record_validation : Manifest → ℕ → ℕ → String → Value × Value → Run (Unit {0})
  record_validation m now fresh_until producer validators w =
      recorded_in w (put_validation_of m now fresh_until producer validators) w.publish_to

  -- The full output, after the conditional response.
  unfoldable pub actual_output : FetchResponse → Result Artifacts
  actual_output response =
      if nat_eq response.status 304
      then execute_http_fetch web.python web.transport action
      else if nat_eq response.status 200
      then response_to_artifacts web.python action response
      else raise (value_error "unexpected conditional response status")

  -- `match is True`
  abbrev pub is_match : Option Bool → Bool
  is_match none = false
  is_match (some match) = match

  -- `response.status == 304 and match is True and publish_to is not None`
  abbrev pub is_recorded : FetchResponse → Option Bool → Option MemoryStore → Bool
  is_recorded response match none = false
  is_recorded response match (some s) = nat_eq response.status 304 && is_match match

  abbrev pub conditional_shadow_event :
      String
      → Value
      → LookupOutcome
      → FetchResponse
      → Artifacts
      → Option Bool
      → Bool
      → String
      → EvaluationEvent
  conditional_shadow_event digest operation candidate response actual match recorded reason =
      record {
        mode = "shadow";
        action_digest = digest;
        operation = operation;
        candidate_hit = true;
        tier = candidate.tier;
        artifact_match = match;
        rejections = candidate.rejections;
        reusable_bytes =
            verified_bytes (some (nat_eq response.status 304 && is_match match)) actual;
        evaluation_id = setting.evaluation_id;
        validation_method = some "http.conditional/1";
        validation_status = some response.status;
        validation_recorded = recorded;
        substituted = false;
        decision_reason = some reason;
        kill_switch_active = false;
        background_revalidation_scheduled = false;
        background_revalidation_coalesced = false;
      }

  -- The record of the validation, or the publication of the output.
  unfoldable pub record_or_publish :
      Manifest → ℕ → Value × Value → FetchResponse → Artifacts → Option Bool → Run Bool
  unfolding record_validation publish
  record_or_publish m fresh_until validators response actual match w =
      if is_recorded response match w.publish_to
      then (record_validation m setting.now fresh_until setting.producer validators >> returns true)
          w
      else (publish setting.hexdigest action actual setting.producer setting.now fresh_until
            >> returns false)
          w

  -- What follows the test of the validators.
  unfoldable pub compare_conditional :
      Manifest → LookupOutcome → ℕ → String → Value × Value → Run (Artifacts × LookupOutcome)
  unfolding conditional_response actual_output record_or_publish record_event candidate_matches
      verified_bytes
  compare_conditional m candidate fresh_until reason validators = do
    response ← call (conditional_response validators)
    actual ← call (actual_output response)
    recorded ←
        record_or_publish m fresh_until validators response actual
          (candidate_matches actual candidate)
    digest ← call (action_digest setting.hexdigest action)
    operation ← call (operation_name action)
    record_event (
        conditional_shadow_event digest operation candidate response actual
          (candidate_matches actual candidate) recorded reason)
    returns (actual, candidate)

  -- `run_shadow`, of the execution.
  unfoldable pub shadow_execution : Policy → ℕ → Run (Artifacts × LookupOutcome)
  unfolding run_shadow execute_http_fetch
  shadow_execution policy fresh_until =
      run_shadow setting (execute_http_fetch web.python web.transport action) action policy
        fresh_until

  -- The test of the candidate, then that of its validators.
  unfoldable pub shadow_candidate :
      Policy
      → ℕ
      → String
      → LookupOutcome
      → Bool
      → Option Manifest
      → Option Bytes
      → Run (Artifacts × LookupOutcome)
  unfolding read_validators shadow_execution compare_conditional
  shadow_candidate policy fresh_until reason candidate true (some m) (some metadata) =
      call (read_validators web candidate) >>= (λ validators.
        if is_validator validators
        then compare_conditional m candidate fresh_until reason validators
        else shadow_execution policy fresh_until)
  shadow_candidate policy fresh_until reason candidate true (some m) none =
      shadow_execution policy fresh_until
  shadow_candidate policy fresh_until reason candidate true none metadata =
      shadow_execution policy fresh_until
  shadow_candidate policy fresh_until reason candidate false m metadata =
      shadow_execution policy fresh_until

  unfoldable pub run_conditional_http_shadow : Policy → ℕ → String → Run (Artifacts × LookupOutcome)
  unfolding candidate_for_revalidation shadow_candidate lookup
  run_conditional_http_shadow policy fresh_until reason =
      call (candidate_for_revalidation setting.hexdigest action setting.stores policy)
      >>= (λ candidate.
          shadow_candidate policy fresh_until reason candidate candidate.hit candidate.manifest
            (lookup "metadata" candidate.artifacts))
