-- ===== src/Runtime/Stale.antt =====
-- The mode "stale-while-revalidate" of `execute_http_with_policy` of src/oncemesh/runtime.py, and the fetch and the
-- substitution that its modes share.
use once_mesh.Base.{
  ℕ, ◌+◌, String, Bool, true, false, not, Option, none, some, contains, leb, ltb, if◌then◌else◌,
}
use once_mesh.Base.Dict.{lookup}
use once_mesh.Base.Result.{Result, ok, raise}
use once_mesh.Json.{Value, null, str}
use once_mesh.Canonical.Action.{action_digest}
use once_mesh.Store.{Bytes}
use once_mesh.Store.Memory.{MemoryStore}
use once_mesh.Http.{execute_http_fetch}
use once_mesh.Policy.{OperationPolicy}
use once_mesh.Revalidation.{Job, SingleFlightRevalidator, submit}
use once_mesh.Cache.Lookup.{LookupOutcome}
use once_mesh.Runtime.{
  EvaluationEvent, World, Run, returns, ◌>>=◌, ◌>>◌, call, record_event, seconds,
}
use once_mesh.Runtime.Decision.{candidate_outputs, latest_trusted_freshness}
use once_mesh.Runtime.Deterministic.{execute_and_record}
use once_mesh.Runtime.Outcome.{ExecutionOutcome, Setting, substituted_outcome, substitute_event}
use once_mesh.Runtime.Conditional.{Web, validators_of, is_validator}

-- What becomes of a candidate under the mode "stale-while-revalidate".
pub data Freshness : Type 0 where
  fresh : Freshness
  stale_within_window : Freshness
  unusable : String → Freshness

-- `stale_seconds`, in microseconds, against the window.
unfoldable pub freshness_at : ℕ → ℕ → ℕ → Freshness
freshness_at now boundary max_stale_seconds =
    if leb now boundary
    then fresh
    else if ltb (boundary + seconds max_stale_seconds) now
    then unusable "stale_window_exceeded"
    else stale_within_window

-- The boundary, and whether the validations could not be read.
unfoldable pub freshness_of : ℕ → ℕ → Option ℕ × Bool → Freshness
unfolding freshness_at
freshness_of now max_stale_seconds (boundary, true) = unusable "stale_validation_read_failed"
freshness_of now max_stale_seconds (none, false) = unusable "stale_freshness_missing"
freshness_of now max_stale_seconds (some boundary, false) =
    freshness_at now boundary max_stale_seconds

abbrev pub validators_in : Option Value → Result (Value × Value)
validators_in none = ok (null, null)
validators_in (some metadata) = validators_of metadata

abbrev pub validators_from : Web → Option Bytes → Result (Value × Value)
validators_from web none = ok (null, null)
validators_from web (some bytes) = validators_in (web.loads bytes)

-- The validators, which are null where the metadata is missing or unreadable.
unfoldable pub validators_or_null : Web → LookupOutcome → Result (Value × Value)
unfolding validators_of lookup
validators_or_null web candidate = validators_from web (lookup "metadata" candidate.artifacts)

module _ (setting : Setting) (web : Web) (action : Value) where
  -- `_execute_full`
  unfoldable pub execute_full : ℕ → Bool → String → Option LookupOutcome → Run ExecutionOutcome
  unfolding execute_and_record execute_http_fetch
  execute_full =
      execute_and_record setting (execute_http_fetch web.python web.transport action) action

  -- A substitution, whose event is changed by the last argument.
  unfoldable pub substitute_http :
      String → LookupOutcome → (EvaluationEvent → EvaluationEvent) → Run ExecutionOutcome
  unfolding candidate_outputs record_event
  substitute_http reason candidate changed = do
    artifacts ← call (candidate_outputs candidate)
    digest ← call (action_digest setting.hexdigest action)
    record_event (changed (substitute_event setting digest (str "http.fetch") candidate reason))
    returns (substituted_outcome artifacts reason candidate)

  abbrev pub same_event : EvaluationEvent → EvaluationEvent
  same_event event = event

  abbrev pub scheduled_event : Bool → EvaluationEvent → EvaluationEvent
  scheduled_event scheduled event = record event {
    background_revalidation_scheduled = scheduled;
    background_revalidation_coalesced = not scheduled;
  }

  abbrev pub validated_event : ℕ → Bool → EvaluationEvent → EvaluationEvent
  validated_event status recorded event = record event {
    validation_method = some "http.conditional/1";
    validation_status = some status;
    validation_recorded = recorded;
  }

  -- The work that is submitted under the digest of the action.
  abbrev pub job_of : LookupOutcome → ℕ → String → Job
  job_of candidate ttl digest = record {
    key = digest;
    action = action;
    candidate = candidate;
    producer = setting.producer;
    validation_ttl_seconds = ttl;
    evaluation_id = setting.evaluation_id;
  }

  unfoldable pub submit_digest :
      LookupOutcome
      → ℕ
      → SingleFlightRevalidator
      → Result String
      → Result Bool × SingleFlightRevalidator
  unfolding submit
  submit_digest candidate ttl coordinator (ok digest) =
      submit (job_of candidate ttl digest) coordinator
  submit_digest candidate ttl coordinator (raise e) = (raise e, coordinator)

  -- What follows the submission, where any exception leads to an execution.
  unfoldable pub after_submission :
      ℕ
      → LookupOutcome
      → World
      → Result Bool × SingleFlightRevalidator
      → Result ExecutionOutcome × World
  unfolding execute_full substitute_http
  after_submission fresh_until candidate w (ok scheduled, coordinator) =
      substitute_http "stale_while_revalidate" candidate (scheduled_event scheduled)
        (record w { coordinator = some coordinator })
  after_submission fresh_until candidate w (raise e, coordinator) =
      execute_full fresh_until false "revalidation_schedule_failed" (some candidate)
        (record w { coordinator = some coordinator })

  -- The tests of the coordinator and of the store, which stand first, and the submission.
  unfoldable pub schedule_with :
      ℕ
      → ℕ
      → LookupOutcome
      → Option SingleFlightRevalidator
      → Option MemoryStore
      → Run ExecutionOutcome
  unfolding submit_digest after_submission
  schedule_with ttl fresh_until candidate none publish_to w =
      execute_full fresh_until false "revalidation_scheduler_missing" (some candidate) w
  schedule_with ttl fresh_until candidate (some coordinator) none w =
      execute_full fresh_until false "revalidation_publish_store_missing" (some candidate) w
  schedule_with ttl fresh_until candidate (some coordinator) (some s) w =
      after_submission fresh_until candidate w
        (submit_digest candidate ttl coordinator (action_digest setting.hexdigest action))

  unfoldable pub schedule : ℕ → ℕ → LookupOutcome → Run ExecutionOutcome
  unfolding schedule_with
  schedule ttl fresh_until candidate w =
      schedule_with ttl fresh_until candidate w.coordinator w.publish_to w

  -- What follows the reading of the validators of a stale candidate.
  unfoldable pub serve_stale :
      OperationPolicy → ℕ → ℕ → LookupOutcome → Value × Value → Run ExecutionOutcome
  unfolding schedule
  serve_stale policy ttl fresh_until candidate validators =
      if not (is_validator validators)
      then execute_full fresh_until false "validator_missing" (some candidate)
      else if not (contains policy.trusted_validation_producers setting.producer)
      then execute_full fresh_until false "validator_untrusted" (some candidate)
      else if not (contains policy.trusted_result_producers setting.producer)
      then execute_full fresh_until false "refresh_producer_untrusted" (some candidate)
      else schedule ttl fresh_until candidate

  unfoldable pub serve_by_freshness :
      OperationPolicy → ℕ → ℕ → LookupOutcome → Freshness → Run ExecutionOutcome
  unfolding serve_stale validators_or_null
  serve_by_freshness policy ttl fresh_until candidate fresh =
      substitute_http "fresh_hit" candidate same_event
  serve_by_freshness policy ttl fresh_until candidate (unusable reason) =
      execute_full fresh_until false reason (some candidate)
  serve_by_freshness policy ttl fresh_until candidate stale_within_window =
      call (validators_or_null web candidate) >>= serve_stale policy ttl fresh_until candidate

  -- The mode "stale-while-revalidate", after the tests of the candidate.
  unfoldable pub stale_while_revalidate :
      OperationPolicy → ℕ → ℕ → LookupOutcome → Run ExecutionOutcome
  unfolding latest_trusted_freshness freshness_of serve_by_freshness
  stale_while_revalidate policy ttl fresh_until candidate =
      call (latest_trusted_freshness setting.hexdigest candidate setting.stores policy)
      >>= (λ boundary.
          serve_by_freshness policy ttl fresh_until candidate
            (freshness_of setting.now policy.max_stale_seconds boundary))
