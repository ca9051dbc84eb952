-- ===== src/Runtime/Fetched.antt =====
-- `run_conditional_http_shadow` of src/oncemesh/conditional.py returns what comes from the source.
use once_mesh.Base.{
  ℕ, ◌≡◌, inl, inr, String, Bool, true, false, Option, none, some, nat_eq, Bool-cases,
}
use once_mesh.Base.Result.{ok}
use once_mesh.Json.{Value}
use once_mesh.Canonical.Action.{action_digest}
use once_mesh.Records.{Manifest}
use once_mesh.Store.{Bytes}
use once_mesh.Http.{FetchResponse, execute_http_fetch}
use once_mesh.Cache.{Policy}
use once_mesh.Cache.Lookup.{LookupOutcome, candidate_for_revalidation}
use once_mesh.Cache.Publish.{Artifacts}
use once_mesh.Runtime.{returns, record_event}
use once_mesh.Runtime.Deterministic.{run_shadow}
use once_mesh.Runtime.Outcome.{Setting, operation_name}
use once_mesh.Runtime.Conditional.{
  Web, read_validators, is_validator, conditional_response, actual_output, record_or_publish,
  conditional_shadow_event, compare_conditional, shadow_execution, shadow_candidate,
  run_conditional_http_shadow,
}
use once_mesh.Runtime.Rules.{
  Yields, Yields-weaken, Yields-then, Yields-bind, Yields-call, Yields-returns, Yields-if,
}
use once_mesh.Runtime.Executed.{run_shadow-IsExecuted}
use once_mesh.Shadow.{candidate_matches}
use once_mesh.Runtime.Servable.{IsFetched}

module _ (setting : Setting) (web : Web) (action : Value) where
  actual_output-IsFetched :
      (validators : Value × Value) (response : FetchResponse) (artifacts : Artifacts)
      → conditional_response setting web action validators ≡ ok response
      → actual_output setting web action response ≡ ok artifacts
      → IsFetched setting web action artifacts
  unfolding actual_output IsFetched
  actual_output-IsFetched validators response artifacts answered h =
      elim (Bool-cases (nat_eq response.status 304)) [
        | inl unmodified ↦ inl (rw unmodified at h)
        | inr other ↦ elim (Bool-cases (nat_eq response.status 200)) [
          | inl changed ↦ inr (validators, response, answered, rw (other, changed) at h)
          | inr unexpected ↦ cc (rw (other, unexpected) at h)
        ]
      ]

  -- Runs that return artifacts which come from the source.
  abbrev pub FromSource : Artifacts × LookupOutcome → Type 0
  FromSource shadow = IsFetched setting web action shadow.0

  compare_conditional-FromSource :
      (m : Manifest) (candidate : LookupOutcome) (fresh_until : ℕ) (reason : String)
      (validators : Value × Value)
      → Yields FromSource
          (compare_conditional setting web action m candidate fresh_until reason validators)
  unfolding compare_conditional
  compare_conditional-FromSource m candidate fresh_until reason validators =
      Yields-call FromSource (conditional_response setting web action validators) _
        λ response answered.
          Yields-call FromSource (actual_output setting web action response) _ λ actual is_output.
            Yields-bind FromSource
              (record_or_publish setting web action m fresh_until validators response actual
                (candidate_matches actual candidate))
              _
              λ recorded.
                Yields-call FromSource (action_digest setting.hexdigest action) _ λ digest _.
                  Yields-call FromSource (operation_name action) _ λ operation _.
                    Yields-then FromSource
                      (record_event (
                        conditional_shadow_event setting web action digest operation candidate
                          response actual (candidate_matches actual candidate) recorded reason))
                      (returns (actual, candidate))
                      (Yields-returns FromSource _
                        (actual_output-IsFetched validators response actual answered is_output))

  shadow_execution-FromSource :
      (policy : Policy) (fresh_until : ℕ)
      → Yields FromSource (shadow_execution setting web action policy fresh_until)
  unfolding shadow_execution IsFetched
  shadow_execution-FromSource policy fresh_until =
      Yields-weaken
        (run_shadow setting (execute_http_fetch web.python web.transport action) action policy
          fresh_until)
        (run_shadow-IsExecuted setting (execute_http_fetch web.python web.transport action) action
          policy fresh_until)
        (λ shadow executed. inl executed)

  shadow_candidate-FromSource :
      (policy : Policy) (fresh_until : ℕ) (reason : String) (candidate : LookupOutcome) (hit : Bool)
      (m : Option Manifest) (metadata : Option Bytes)
      → Yields FromSource
          (shadow_candidate setting web action policy fresh_until reason candidate hit m metadata)
  unfolding shadow_candidate
  shadow_candidate-FromSource policy fresh_until reason candidate true (some m) (some metadata) =
      Yields-call FromSource (read_validators web candidate) _ λ validators _.
        Yields-if FromSource (is_validator validators) _ _
          (λ _. compare_conditional-FromSource m candidate fresh_until reason validators)
          (λ _. shadow_execution-FromSource policy fresh_until)
  shadow_candidate-FromSource policy fresh_until reason candidate true (some m) none =
      shadow_execution-FromSource policy fresh_until
  shadow_candidate-FromSource policy fresh_until reason candidate true none metadata =
      shadow_execution-FromSource policy fresh_until
  shadow_candidate-FromSource policy fresh_until reason candidate false m metadata =
      shadow_execution-FromSource policy fresh_until

  pub run_conditional_http_shadow-FromSource :
      (policy : Policy) (fresh_until : ℕ) (reason : String)
      → Yields FromSource (run_conditional_http_shadow setting web action policy fresh_until reason)
  unfolding run_conditional_http_shadow
  run_conditional_http_shadow-FromSource policy fresh_until reason =
      Yields-call FromSource
        (candidate_for_revalidation setting.hexdigest action setting.stores policy) _
        λ candidate _.
          shadow_candidate-FromSource policy fresh_until reason candidate candidate.hit
            candidate.manifest _
