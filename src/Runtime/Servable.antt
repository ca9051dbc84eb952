-- ===== src/Runtime/Servable.antt =====
-- What `execute_http_with_policy` of src/oncemesh/runtime.py may return.
use once_mesh.Base.{
  ℕ, ◌+◌, ◌≤◌, ◌≡◌, refl, ◌⊎◌, inl, inr, String, Bool, true, false, Option, none, some, contains,
}
use once_mesh.Base.Dict.{Dict}
use once_mesh.Base.Result.{ok}
use once_mesh.Json.{Value, str}
use once_mesh.Canonical.Action.{action_digest}
use once_mesh.Http.{FetchResponse, execute_http_fetch, response_to_artifacts}
use once_mesh.Policy.{OperationPolicy}
use once_mesh.Policy.Registry.{PolicyResolution}
use once_mesh.Policy.Granted.{IsGranted}
use once_mesh.Cache.Lookup.{LookupOutcome}
use once_mesh.Cache.Reuse.{IsHit}
use once_mesh.Cache.Publish.{Artifacts}
use once_mesh.Runtime.{EvaluationEvent, returns, record_event, seconds}
use once_mesh.Runtime.Decision.{
  authorization_failure, candidate_outputs, is_allowed_tier, latest_trusted_freshness,
}
use once_mesh.Runtime.Deterministic.{execute_and_record, trust_policy}
use once_mesh.Runtime.Outcome.{ExecutionOutcome, Setting, substituted_outcome, substitute_event}
use once_mesh.Runtime.Conditional.{Web, is_validator, conditional_response}
use once_mesh.Runtime.Http.{http_operation}
use once_mesh.Runtime.Stale.{execute_full, substitute_http}
use once_mesh.Runtime.Rules.{Yields, Yields-weaken, Yields-then, Yields-call, Yields-returns}
use once_mesh.Runtime.Executed.{execute_and_record-IsExecuted}

module _ (setting : Setting) (web : Web) (action : Value) where
  -- Artifacts that come from the source: by a fetch, or by the answer to a conditional request.
  unfoldable pub IsFetched : Artifacts → Type 0
  IsFetched artifacts =
      (execute_http_fetch web.python web.transport action ≡ ok artifacts)
      ⊎ ((validators : Value × Value) × (response : FetchResponse) × (conditional_response setting
              web action validators
            ≡ ok response)
          × (response_to_artifacts web.python action response ≡ ok artifacts))

  -- Why a candidate may be served now. Under the mode "stale-while-revalidate": it is fresh by its newest
  -- trusted boundary, or it is within the policy's window after that and this runtime's producer is
  -- trusted to refresh it. Under the mode "conditional-substitute", and also under "exact-substitute": the
  -- source has just answered that it is not modified. No constructor asks for a receipt.
  pub data IsCurrent (policy : OperationPolicy) (candidate : LookupOutcome) : Type 0 where
    is_fresh :
        (boundary : ℕ)
        → policy.mode ≡ "stale-while-revalidate"
        → latest_trusted_freshness setting.hexdigest candidate setting.stores policy
          ≡ ok (some boundary, false)
        → setting.now ≤ boundary
        → IsCurrent policy candidate
    is_within_window :
        (boundary : ℕ)
        → policy.mode ≡ "stale-while-revalidate"
        → latest_trusted_freshness setting.hexdigest candidate setting.stores policy
          ≡ ok (some boundary, false)
        → setting.now ≤ boundary + seconds policy.max_stale_seconds
        → contains policy.trusted_validation_producers setting.producer ≡ true
        → contains policy.trusted_result_producers setting.producer ≡ true
        → IsCurrent policy candidate
    is_confirmed :
        (validators : Value × Value) (response : FetchResponse)
        → (policy.mode ≡ "conditional-substitute") ⊎ (policy.mode ≡ "exact-substitute")
        → is_validator validators ≡ true
        → conditional_response setting web action validators ≡ ok response
        → response.status ≡ 304
        → contains policy.trusted_validation_producers setting.producer ≡ true
        → IsCurrent policy candidate

  -- Why a candidate may replace an execution of http.fetch/1.
  pub record IsServable (environment : Dict String) (loaded : Option Value) (caller : Option String)
      (artifacts : Artifacts) : Type 0 where
    pub resolution : PolicyResolution
    pub policy : OperationPolicy
    pub candidate : LookupOutcome
    pub requested : String
    pub granted : IsGranted environment loaded http_operation resolution policy
    pub is_partitioned : authorization_failure action policy caller ≡ ok none
    pub is_requested : action_digest setting.hexdigest action ≡ ok requested
    pub is_hit :
        IsHit setting.hexdigest
          (trust_policy setting.now policy)
          setting.stores
          requested
          true
          candidate
    pub is_allowed : is_allowed_tier candidate.tier policy.allowed_tiers ≡ true
    pub is_current : IsCurrent policy candidate
    pub is_outputs : candidate_outputs candidate ≡ ok artifacts

module _ (setting : Setting) (web : Web) (environment : Dict String) (loaded : Option Value)
    (caller : Option String) (action : Value) where
  -- What a run may return: what comes from the source, or what may be served instead.
  unfoldable pub IsServed : ExecutionOutcome → Type 0
  IsServed outcome =
      ((outcome.substituted ≡ false) × IsFetched setting web action outcome.artifacts)
      ⊎ ((outcome.substituted ≡ true)
          × IsServable setting web action environment loaded caller outcome.artifacts)

  -- Either of the two, by what a fetch returns.
  pub execute_full-IsServed :
      (fresh_until : ℕ) (kill_switch_active : Bool) (reason : String)
      (lookup : Option LookupOutcome)
      → Yields IsServed
          (execute_full setting web action fresh_until kill_switch_active reason lookup)
  unfolding execute_full IsServed IsFetched
  execute_full-IsServed fresh_until kill_switch_active reason lookup =
      Yields-weaken
        (execute_and_record setting (execute_http_fetch web.python web.transport action) action
          fresh_until kill_switch_active reason lookup)
        (execute_and_record-IsExecuted setting (execute_http_fetch web.python web.transport action)
          action fresh_until kill_switch_active reason lookup)
        (λ outcome (same, executed). inl (same, inl executed))

  pub substitute_http-IsServed :
      (reason : String) (candidate : LookupOutcome) (changed : EvaluationEvent → EvaluationEvent)
      → ((artifacts : Artifacts)
          → candidate_outputs candidate ≡ ok artifacts
          → IsServable setting web action environment loaded caller artifacts)
      → Yields IsServed (substitute_http setting web action reason candidate changed)
  unfolding substitute_http IsServed
  substitute_http-IsServed reason candidate changed servable =
      Yields-call IsServed (candidate_outputs candidate) _ λ artifacts is_outputs.
        Yields-call IsServed (action_digest setting.hexdigest action) _ λ digest _.
          Yields-then IsServed
            (record_event
              (changed (substitute_event setting digest (str "http.fetch") candidate reason)))
            (returns (substituted_outcome artifacts reason candidate))
            (Yields-returns IsServed _ (inr (refl, servable artifacts is_outputs)))

  -- A candidate of which only the currency is open.
  abbrev pub Servable : OperationPolicy → LookupOutcome → Type 0
  Servable policy candidate =
      IsCurrent setting web action policy candidate
      → (artifacts : Artifacts) → candidate_outputs candidate ≡ ok artifacts
      → IsServable setting web action environment loaded caller artifacts
