-- ===== src/Runtime/Substituted.antt =====
-- When `execute_deterministic_with_policy` of src/oncemesh/runtime.py replaces an execution.
use once_mesh.Base.{
  ℕ, ◌≡◌, refl, ap, ◌∙◌, ◌⊎◌, inl, inr, String, Bool, true, false, not, Option, none, some, ◌==◌,
  eq_iff, nat_eq,
}
use once_mesh.Base.Dict.{Dict}
use once_mesh.Base.Result.{Result, ok, require}
use once_mesh.Json.{Value}
use once_mesh.Canonical.Action.{action_digest}
use once_mesh.Policy.{OperationPolicy}
use once_mesh.Policy.Registry.{PolicyResolution, resolve}
use once_mesh.Policy.Granted.{IsGranted, resolve-IsGranted}
use once_mesh.Cache.Lookup.{LookupOutcome, reuse}
use once_mesh.Cache.Reuse.{IsHit, reuse-IsHit}
use once_mesh.Cache.Publish.{Artifacts}
use once_mesh.Runtime.{World, returns, record_event}
use once_mesh.Runtime.Decision.{authorization_failure, candidate_outputs, is_allowed_tier}
use once_mesh.Runtime.Attested.{IsAttested, required_receipt_failure-IsAttested}
use once_mesh.Runtime.Deterministic.{
  trust_policy, pdf_operation, run_shadow, execute_and_record, substitute, or_substitute,
  receipt_failure, is_candidate, decide_candidate, decide_mode, decide, require_approved,
  execute_deterministic_with_policy,
}
use once_mesh.Runtime.Outcome.{
  ExecutionOutcome, Setting, substituted_outcome, substitute_event, operation_name,
}
use once_mesh.Runtime.Executed.{
  execute_and_record-IsExecuted, run_shadow-IsExecuted, is_candidate-hit,
}
use once_mesh.Runtime.Rules.{
  Yields-weaken, Yields, Yields-after, Yields-then, Yields-call, Yields-returns, Yields-if,
  Yields-unless,
}

-- Why a candidate may replace an execution: the policy file grants the operation a policy whose mode
-- is to substitute, the action's authorization partition is as the policy asks, the lookup has found
-- an admissible result in an allowed tier, and there is a receipt if the policy asks for one.
pub record IsAuthorized (setting : Setting) (environment : Dict String) (loaded : Option Value)
    (keys : Option (Option Value)) (caller : Option String) (action : Value) (artifacts : Artifacts)
    : Type 0 where
  pub resolution : PolicyResolution
  pub policy : OperationPolicy
  pub candidate : LookupOutcome
  pub requested : String
  pub granted : IsGranted environment loaded pdf_operation resolution policy
  pub substitutes : policy.mode ≡ "exact-substitute"
  pub is_partitioned : authorization_failure action policy caller ≡ ok none
  pub is_requested : action_digest setting.hexdigest action ≡ ok requested
  pub is_hit :
      IsHit setting.hexdigest
        (trust_policy setting.now policy)
        setting.stores
        requested
        false
        candidate
  pub is_allowed : is_allowed_tier candidate.tier policy.allowed_tiers ≡ true
  pub attested :
      policy.receipt_requirement ≡ "required"
      → (ring : Option Value) × (keys ≡ some ring)
        × IsAttested setting.hexdigest setting.ed25519 candidate setting.stores policy ring
  pub is_outputs : candidate_outputs candidate ≡ ok artifacts

module _ (setting : Setting) (environment : Dict String) (loaded : Option Value)
    (keys : Option (Option Value)) (caller : Option String) (execute : Result Artifacts)
    (action : Value) where
  -- What a run may return: what the execution returned, or what may replace it.
  pub IsJustified : ExecutionOutcome → Type 0
  IsJustified outcome =
      ((outcome.substituted ≡ false) × (execute ≡ ok outcome.artifacts))
      ⊎ ((outcome.substituted ≡ true)
          × IsAuthorized setting environment loaded keys caller action outcome.artifacts)

  execute_and_record-IsJustified :
      (fresh_until : ℕ) (kill_switch_active : Bool) (reason : String)
      (lookup : Option LookupOutcome)
      → Yields IsJustified
          (execute_and_record setting execute action fresh_until kill_switch_active reason lookup)
  unfolding IsJustified
  execute_and_record-IsJustified fresh_until kill_switch_active reason lookup =
      Yields-weaken
        (execute_and_record setting execute action fresh_until kill_switch_active reason lookup)
        (execute_and_record-IsExecuted setting execute action fresh_until kill_switch_active reason
          lookup)
        (λ outcome executed. inl executed)

  substitute-IsJustified :
      (reason : String) (candidate : LookupOutcome)
      → ((artifacts : Artifacts)
          → candidate_outputs candidate ≡ ok artifacts
          → IsAuthorized setting environment loaded keys caller action artifacts)
      → Yields IsJustified (substitute setting execute action reason candidate)
  unfolding substitute IsJustified
  substitute-IsJustified reason candidate authorized =
      Yields-call IsJustified (candidate_outputs candidate) _ λ artifacts is_outputs.
        Yields-call IsJustified (action_digest setting.hexdigest action) _ λ digest _.
          Yields-call IsJustified (operation_name action) _ λ operation _.
            Yields-then IsJustified
              (record_event (substitute_event setting digest operation candidate reason))
              (returns (substituted_outcome artifacts reason candidate))
              (Yields-returns IsJustified _ (inr (refl, authorized artifacts is_outputs)))

  or_substitute-IsJustified :
      (fresh_until : ℕ) (kill_switch_active : Bool) (candidate : LookupOutcome)
      (failure : Option String)
      → (failure ≡ none
          → (artifacts : Artifacts) → candidate_outputs candidate ≡ ok artifacts
          → IsAuthorized setting environment loaded keys caller action artifacts)
      → Yields IsJustified
          (or_substitute setting execute action fresh_until kill_switch_active candidate failure)
  or_substitute-IsJustified fresh_until kill_switch_active candidate (some reason) authorized =
      execute_and_record-IsJustified fresh_until kill_switch_active reason (some candidate)
  or_substitute-IsJustified fresh_until kill_switch_active candidate none authorized =
      substitute-IsJustified "exact_fresh_hit" candidate (authorized refl)

  receipt_failure-IsAttested :
      (policy : OperationPolicy) (candidate : LookupOutcome)
      → receipt_failure setting execute action policy keys candidate ≡ ok none
      → policy.receipt_requirement ≡ "required"
      → (ring : Option Value) × (keys ≡ some ring)
        × IsAttested setting.hexdigest setting.ed25519 candidate setting.stores policy ring
  unfolding receipt_failure
  receipt_failure-IsAttested policy candidate h required =
      required_receipt_failure-IsAttested setting.hexdigest setting.ed25519 candidate setting.stores
        policy keys (rw ((eq_iff policy.receipt_requirement "required").1 required) at h)

  module _ (resolution : PolicyResolution) (policy : OperationPolicy)
      (granted : IsGranted environment loaded pdf_operation resolution policy) where
    decide_candidate-IsJustified :
        (fresh_until : ℕ) (kill_switch_active : Bool) (candidate : LookupOutcome)
        → policy.mode ≡ "exact-substitute"
        → authorization_failure action policy caller ≡ ok none
        → reuse setting.hexdigest action setting.stores (trust_policy setting.now policy)
          ≡ ok candidate
        → Yields IsJustified (
            decide_candidate setting execute action policy keys fresh_until kill_switch_active
              candidate)
    unfolding decide_candidate
    decide_candidate-IsJustified fresh_until kill_switch_active candidate substitutes partitioned
          found =
        Yields-unless IsJustified (is_candidate setting execute action candidate) _ _
          (λ _. execute_and_record-IsJustified fresh_until kill_switch_active _ _)
          λ is_hit.
            Yields-unless IsJustified (is_allowed_tier candidate.tier policy.allowed_tiers) _ _
              (λ _. execute_and_record-IsJustified fresh_until kill_switch_active _ _)
              λ is_allowed.
                Yields-call IsJustified
                  (receipt_failure setting execute action policy keys candidate) _
                  λ failure attested.
                    or_substitute-IsJustified fresh_until kill_switch_active candidate failure
                      λ nothing artifacts is_outputs.
                        let (requested, is_requested, hit) =
                          reuse-IsHit setting.hexdigest action setting.stores
                            (trust_policy setting.now policy) candidate found
                            (is_candidate-hit setting execute action candidate candidate.manifest
                              refl is_hit) in
                        record {
                          resolution = resolution;
                          policy = policy;
                          candidate = candidate;
                          requested = requested;
                          granted = granted;
                          substitutes = substitutes;
                          is_partitioned = partitioned;
                          is_requested = is_requested;
                          is_hit = hit;
                          is_allowed = is_allowed;
                          attested =
                              receipt_failure-IsAttested policy candidate
                                (attested ∙ ap ok nothing);
                          is_outputs = is_outputs;
                        }

    decide_mode-IsJustified :
        (fresh_until : ℕ) (kill_switch_active : Bool) (failure : Option String)
        → authorization_failure action policy caller ≡ ok failure
        → Yields IsJustified
            (decide_mode setting execute action policy keys fresh_until kill_switch_active failure)
    unfolding decide_mode IsJustified
    decide_mode-IsJustified fresh_until kill_switch_active (some failure) partitioned =
        execute_and_record-IsJustified fresh_until kill_switch_active failure none
    decide_mode-IsJustified fresh_until kill_switch_active none partitioned =
        Yields-if IsJustified (policy.mode == "shadow") _ _
          (λ _.
            Yields-after IsJustified
              (run_shadow setting execute action (trust_policy setting.now policy) fresh_until) _
              (run_shadow-IsExecuted setting execute action (trust_policy setting.now policy)
                fresh_until)
              λ shadow executed. Yields-returns IsJustified _ (inl (refl, executed)))
          λ _.
            Yields-unless IsJustified (policy.mode == "exact-substitute") _ _
              (λ _. execute_and_record-IsJustified fresh_until kill_switch_active _ none)
              λ substitutes.
                Yields-call IsJustified
                  (reuse setting.hexdigest action setting.stores (trust_policy setting.now policy))
                  _
                  λ candidate found.
                    decide_candidate-IsJustified fresh_until kill_switch_active candidate
                      ((eq_iff policy.mode "exact-substitute").0 substitutes) partitioned found

  decide-IsJustified :
      (fresh_until : ℕ) (resolution : PolicyResolution) (o : Option OperationPolicy)
      → resolution.policy ≡ o
      → resolve environment loaded pdf_operation ≡ ok resolution
      → Yields IsJustified (decide setting execute action keys caller fresh_until resolution o)
  unfolding decide
  decide-IsJustified fresh_until resolution none is_policy resolved =
      execute_and_record-IsJustified fresh_until resolution.kill_switch_active resolution.reason
        none
  decide-IsJustified fresh_until resolution (some policy) is_policy resolved =
      Yields-call IsJustified (authorization_failure action policy caller) _ λ failure partitioned.
        decide_mode-IsJustified resolution policy
          (resolve-IsGranted environment loaded pdf_operation resolution policy resolved is_policy)
          fresh_until resolution.kill_switch_active failure partitioned

  -- Whatever `execute_deterministic_with_policy` returns is either what the execution returned, with
  -- `substituted` false, or it is authorized, with `substituted` true: the policy file grants the
  -- operation a sound policy whose mode is "exact-substitute", the caller's authorization partition
  -- is as the policy asks, the lookup under the policy's producers has found an admissible result in
  -- an allowed tier, the store of that tier has an authentic receipt by a trusted and active key if
  -- the policy requires one, and the artifacts are those of that result. The run may raise.
  pub execute_deterministic_with_policy-IsJustified :
      (freshness_seconds : ℕ) (w : World) (outcome : ExecutionOutcome)
      → (execute_deterministic_with_policy setting execute action environment loaded keys caller
          freshness_seconds w).0
        ≡ ok outcome
      → IsJustified outcome
  unfolding execute_deterministic_with_policy
  execute_deterministic_with_policy-IsJustified freshness_seconds =
      Yields-call IsJustified (require_approved setting execute action) _ λ _ _.
        Yields-call IsJustified (require (not (nat_eq freshness_seconds 0)) _) _ λ _ _.
          Yields-call IsJustified (resolve environment loaded pdf_operation) _
            λ resolution resolved. decide-IsJustified _ resolution resolution.policy refl resolved
