-- ===== src/Runtime/Http.antt =====
-- `execute_http_with_policy` of src/oncemesh/runtime.py.
use once_mesh.Base.{
  ℕ, ◌+◌, String, Bool, true, false, not, Option, none, some, ◌==◌, contains, nat_eq, if◌then◌else◌,
}
use once_mesh.Base.Dict.{Dict}
use once_mesh.Base.Result.{raise, value_error, require}
use once_mesh.Json.{Value, str}
use once_mesh.Canonical.Action.{action_digest}
use once_mesh.Records.{Manifest}
use once_mesh.Http.{FetchResponse, execute_http_fetch, response_to_artifacts, require_http_fetch}
use once_mesh.Policy.{OperationPolicy}
use once_mesh.Policy.Registry.{PolicyResolution, resolve}
use once_mesh.Shadow.{candidate_matches}
use once_mesh.Cache.Lookup.{LookupOutcome, candidate_for_revalidation}
use once_mesh.Cache.Publish.{Artifacts}
use once_mesh.Runtime.{
  EvaluationEvent, World, Run, returns, ◌>>=◌, ◌>>◌, call, record_event, publish, seconds,
}
use once_mesh.Runtime.Decision.{authorization_failure, is_allowed_tier}
use once_mesh.Runtime.Deterministic.{trust_policy, ttl_of, is_candidate}
use once_mesh.Runtime.Outcome.{ExecutionOutcome, Setting, executed_outcome, execute_event}
use once_mesh.Runtime.Conditional.{
  Web, is_validator, conditional_response, record_validation, run_conditional_http_shadow,
}
use once_mesh.Runtime.Stale.{
  validators_or_null, execute_full, substitute_http, validated_event, stale_while_revalidate,
}

-- `operation_key`, which the test of the operation leaves no choice
abbrev pub http_operation : String
http_operation = "http.fetch/1"

module _ (setting : Setting) (web : Web) (action : Value) where
  abbrev pub changed_event : String → LookupOutcome → Artifacts → EvaluationEvent
  changed_event digest candidate artifacts =
      validated_event setting web action 200 false
        (record (execute_event setting digest (str "http.fetch") artifacts (some candidate)
          "source_changed" false) { candidate_hit = true })

  -- The source has changed: the output of the response is published.
  unfoldable pub replace_source : ℕ → LookupOutcome → FetchResponse → Run ExecutionOutcome
  unfolding response_to_artifacts publish record_event candidate_matches
  replace_source fresh_until candidate response = do
    artifacts ← call (response_to_artifacts web.python action response)
    publish setting.hexdigest action artifacts setting.producer setting.now fresh_until
    digest ← call (action_digest setting.hexdigest action)
    record_event (changed_event digest candidate artifacts)
    returns (executed_outcome artifacts "source_changed" (some candidate))

  abbrev pub is_stored : World → Bool
  is_stored w = elim w.publish_to [ none ↦ false | some s ↦ true ]

  -- The source has not changed: the validation is recorded and the candidate replaces the execution.
  unfoldable pub confirm_source :
      Manifest → ℕ → LookupOutcome → Value × Value → Run ExecutionOutcome
  unfolding record_validation substitute_http
  confirm_source m fresh_until candidate validators w =
      (record_validation setting web action m setting.now fresh_until setting.producer validators
          >> substitute_http setting web action "conditional_304" candidate
              (validated_event setting web action 304 (is_stored w)))
        w

  -- What follows the conditional response.
  unfoldable pub after_response :
      Manifest → ℕ → LookupOutcome → Value × Value → FetchResponse → Run ExecutionOutcome
  unfolding replace_source confirm_source
  after_response m fresh_until candidate validators response =
      if nat_eq response.status 200
      then replace_source fresh_until candidate response
      else if not (nat_eq response.status 304)
      then call (raise (value_error "unexpected conditional response status"))
      else confirm_source m fresh_until candidate validators

  -- What follows the reading of the validators.
  unfoldable pub validate_source :
      Manifest → ℕ → LookupOutcome → Value × Value → Run ExecutionOutcome
  unfolding conditional_response after_response
  validate_source m fresh_until candidate validators =
      if not (is_validator validators)
      then execute_full setting web action fresh_until false "validator_missing" (some candidate)
      else call (conditional_response setting web action validators)
        >>= after_response m fresh_until candidate validators

  -- The other modes, after the tests of the candidate.
  unfoldable pub conditional_substitute :
      OperationPolicy → ℕ → LookupOutcome → Option Manifest → Run ExecutionOutcome
  unfolding validators_or_null validate_source
  conditional_substitute policy fresh_until candidate none =
      execute_full setting web action fresh_until false "candidate_missing" (some candidate)
  conditional_substitute policy fresh_until candidate (some m) =
      if not (contains policy.trusted_validation_producers setting.producer)
      then execute_full setting web action fresh_until false "validator_untrusted" (some candidate)
      else call (validators_or_null web candidate) >>= validate_source m fresh_until candidate

  -- The tests of a candidate, which both modes that look one up begin with.
  unfoldable pub with_candidate :
      OperationPolicy
      → ℕ
      → (LookupOutcome → Run ExecutionOutcome)
      → LookupOutcome
      → Run ExecutionOutcome
  unfolding execute_full
  with_candidate policy fresh_until next candidate =
      if not
        (is_candidate setting (execute_http_fetch web.python web.transport action) action candidate)
      then execute_full setting web action fresh_until false "candidate_missing" (some candidate)
      else if not (is_allowed_tier candidate.tier policy.allowed_tiers)
      then execute_full setting web action fresh_until false "tier_denied" (some candidate)
      else next candidate

  -- What follows the check of the authorization.
  unfoldable pub decide_http_mode : OperationPolicy → ℕ → ℕ → Option String → Run ExecutionOutcome
  unfolding run_conditional_http_shadow with_candidate stale_while_revalidate conditional_substitute
      candidate_for_revalidation
  decide_http_mode policy ttl fresh_until (some failure) =
      execute_full setting web action fresh_until false failure none
  decide_http_mode policy ttl fresh_until none =
      if policy.mode == "shadow"
      then run_conditional_http_shadow setting web action (trust_policy setting.now policy)
          fresh_until "shadow"
        >>= (λ shadow. returns (executed_outcome shadow.0 "shadow" (some shadow.1)))
      else call (
          candidate_for_revalidation setting.hexdigest action setting.stores
            (trust_policy setting.now policy))
        >>= with_candidate policy fresh_until (λ candidate.
          if policy.mode == "stale-while-revalidate"
          then stale_while_revalidate setting web action policy ttl fresh_until candidate
          else conditional_substitute policy fresh_until candidate candidate.manifest)

  -- What follows the resolution of the policy.
  unfoldable pub decide_http :
      Option String → ℕ → ℕ → PolicyResolution → Option OperationPolicy → Run ExecutionOutcome
  unfolding authorization_failure decide_http_mode
  decide_http caller ttl fresh_until resolution none =
      execute_full setting web action fresh_until resolution.kill_switch_active resolution.reason
        none
  decide_http caller ttl fresh_until resolution (some policy) =
      call (authorization_failure action policy caller) >>= decide_http_mode policy ttl fresh_until

  -- `execute_http_with_policy`. The registry has an environment and what it loads.
  unfoldable pub execute_http_with_policy :
      Dict String → Option Value → Option String → ℕ → Run ExecutionOutcome
  unfolding require_http_fetch decide_http resolve
  execute_http_with_policy environment loaded caller validation_ttl_seconds = do
    call (require_http_fetch action "policy runtime currently supports http.fetch/1 only")
    call (require (not (nat_eq validation_ttl_seconds 0)) "validation_ttl_seconds must be positive")
    resolution ← call (resolve environment loaded http_operation)
    decide_http caller (ttl_of validation_ttl_seconds resolution.policy)
        (setting.now + seconds (ttl_of validation_ttl_seconds resolution.policy)) resolution
        resolution.policy
