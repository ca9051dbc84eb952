-- ===== src/Runtime/Deterministic.antt =====
-- `execute_deterministic_with_policy` of src/oncemesh/runtime.py, and `run_shadow` of
-- src/oncemesh/shadow.py.
use once_mesh.Base.{
  ℕ, ◌+◌, String, Bool, false, not, ◌&&◌, Option, none, some, ◌==◌, leb, nat_eq, if◌then◌else◌,
}
use once_mesh.Base.Dict.{Dict}
use once_mesh.Base.Result
use once_mesh.Base.Result.{Result, ok, raise, value_error, require}
use once_mesh.Json.{Value, item}
use once_mesh.Canonical.Action.{action_digest}
use once_mesh.Policy.{OperationPolicy}
use once_mesh.Policy.Registry.{PolicyResolution, resolve}
use once_mesh.Shadow.{candidate_matches}
use once_mesh.Cache.{Policy}
use once_mesh.Cache.Lookup.{LookupOutcome, reuse}
use once_mesh.Cache.Publish.{Artifacts}
use once_mesh.Runtime.{Run, returns, ◌>>=◌, ◌>>◌, call, record_event, publish, seconds, total_bytes}
use once_mesh.Runtime.Decision.{authorization_failure, candidate_outputs, is_allowed_tier, is_shown}
use once_mesh.Runtime.Receipts.{required_receipt_failure}
use once_mesh.Runtime.Outcome.{
  ExecutionOutcome, executed_outcome, substituted_outcome, Setting, operation_name, execute_event,
  substitute_event, verified_bytes, shadow_event,
}

-- `Policy(now=…, trusted_producers=…, trusted_validation_producers=…)`
abbrev pub trust_policy : ℕ → OperationPolicy → Policy
trust_policy now policy = record {
  now = now;
  trusted_producers = some policy.trusted_result_producers;
  trusted_validation_producers = some policy.trusted_validation_producers;
  trusted_invalidation_producers = none;
  permit_no_expiry = false;
  require_lineage = false;
  max_dependency_depth = 8;
  max_dependency_count = 64;
}

-- `min(seconds, policy.max_validation_ttl_seconds if policy else seconds)`
abbrev pub ttl_of : ℕ → Option OperationPolicy → ℕ
ttl_of n none = n
ttl_of n (some policy) =
    if leb n policy.max_validation_ttl_seconds then n else policy.max_validation_ttl_seconds

-- `operation_key in EXACT_SUBSTITUTION_OPERATIONS`
abbrev pub pdf_operation : String
pdf_operation = "document.pdf-to-text/1"

module _ (setting : Setting) (execute : Result Artifacts) (action : Value) where
  -- `run_shadow`; the outcome has the artifacts and the lookup.
  unfoldable pub run_shadow : Policy → ℕ → Run (Artifacts × LookupOutcome)
  unfolding reuse candidate_matches record_event publish verified_bytes
  run_shadow policy fresh_until = do
    lookup ← call (reuse setting.hexdigest action setting.stores policy)
    actual ← call execute
    digest ← call (action_digest setting.hexdigest action)
    operation ← call (operation_name action)
    record_event (shadow_event setting digest operation actual lookup)
    publish setting.hexdigest action actual setting.producer setting.now fresh_until
    returns (actual, lookup)

  -- `execute_and_record`
  unfoldable pub execute_and_record :
      ℕ → Bool → String → Option LookupOutcome → Run ExecutionOutcome
  unfolding record_event publish candidate_matches
  execute_and_record fresh_until kill_switch_active reason lookup = do
    artifacts ← call execute
    publish setting.hexdigest action artifacts setting.producer setting.now fresh_until
    digest ← call (action_digest setting.hexdigest action)
    operation ← call (operation_name action)
    record_event (execute_event setting digest operation artifacts lookup reason kill_switch_active)
    returns (executed_outcome artifacts reason lookup)

  -- The end of the function, where the candidate replaces the execution.
  unfoldable pub substitute : String → LookupOutcome → Run ExecutionOutcome
  unfolding candidate_outputs record_event total_bytes
  substitute reason candidate = do
    artifacts ← call (candidate_outputs candidate)
    digest ← call (action_digest setting.hexdigest action)
    operation ← call (operation_name action)
    record_event (substitute_event setting digest operation candidate reason)
    returns (substituted_outcome artifacts reason candidate)

  abbrev pub or_substitute : ℕ → Bool → LookupOutcome → Option String → Run ExecutionOutcome
  or_substitute fresh_until kill_switch_active candidate (some reason) =
      execute_and_record fresh_until kill_switch_active reason (some candidate)
  or_substitute fresh_until kill_switch_active candidate none =
      substitute "exact_fresh_hit" candidate

  -- `if policy.receipt_requirement == "required": …`
  unfoldable pub receipt_failure :
      OperationPolicy → Option (Option Value) → LookupOutcome → Result (Option String)
  unfolding required_receipt_failure
  receipt_failure policy keys candidate =
      if policy.receipt_requirement == "required"
      then required_receipt_failure setting.hexdigest setting.ed25519 candidate setting.stores
          policy keys
      else ok none

  abbrev pub is_candidate : LookupOutcome → Bool
  is_candidate candidate = elim candidate.manifest [ none ↦ false | some m ↦ candidate.hit ]

  -- What follows the lookup.
  unfoldable pub decide_candidate :
      OperationPolicy → Option (Option Value) → ℕ → Bool → LookupOutcome → Run ExecutionOutcome
  unfolding execute_and_record substitute receipt_failure
  decide_candidate policy keys fresh_until kill_switch_active candidate =
      if not (is_candidate candidate)
      then execute_and_record fresh_until kill_switch_active "candidate_missing" (some candidate)
      else if not (is_allowed_tier candidate.tier policy.allowed_tiers)
      then execute_and_record fresh_until kill_switch_active "tier_denied" (some candidate)
      else call (receipt_failure policy keys candidate)
        >>= or_substitute fresh_until kill_switch_active candidate

  abbrev pub shadow_outcome : Artifacts × LookupOutcome → ExecutionOutcome
  shadow_outcome (artifacts, lookup) = executed_outcome artifacts "shadow" (some lookup)

  -- What follows the check of the authorization.
  unfoldable pub decide_mode :
      OperationPolicy → Option (Option Value) → ℕ → Bool → Option String → Run ExecutionOutcome
  unfolding run_shadow decide_candidate reuse
  decide_mode policy keys fresh_until kill_switch_active (some failure) =
      execute_and_record fresh_until kill_switch_active failure none
  decide_mode policy keys fresh_until kill_switch_active none =
      if policy.mode == "shadow"
      then run_shadow (trust_policy setting.now policy) fresh_until
        >>= (λ shadow. returns (shadow_outcome shadow))
      else if not (policy.mode == "exact-substitute")
      then execute_and_record fresh_until kill_switch_active "policy_mode_incompatible" none
      else call (reuse setting.hexdigest action setting.stores (trust_policy setting.now policy))
        >>= decide_candidate policy keys fresh_until kill_switch_active

  -- What follows the resolution of the policy.
  unfoldable pub decide :
      Option (Option Value)
      → Option String
      → ℕ
      → PolicyResolution
      → Option OperationPolicy
      → Run ExecutionOutcome
  unfolding authorization_failure decide_mode
  decide keys caller fresh_until resolution none =
      execute_and_record fresh_until resolution.kill_switch_active resolution.reason none
  decide keys caller fresh_until resolution (some policy) =
      call (authorization_failure action policy caller)
      >>= decide_mode policy keys fresh_until resolution.kill_switch_active

  -- The test of the operation.
  unfoldable pub require_approved : Result (Unit {0})
  unfolding is_shown
  require_approved = Result.◌>>=◌ (item action "operation") λ operation.
      Result.◌>>=◌ (item operation "name") λ name.
        Result.◌>>=◌ (item operation "version") λ version.
          require (is_shown name "document.pdf-to-text" && is_shown version "1")
            "operation is not approved for exact deterministic substitution"

  -- `execute_deterministic_with_policy`. The policy registry has an environment and what it loads; so
  -- has the key registry, if there is one.
  unfoldable pub execute_deterministic_with_policy :
      Dict String → Option Value → Option (Option Value) → Option String → ℕ → Run ExecutionOutcome
  unfolding require_approved decide resolve
  execute_deterministic_with_policy environment loaded keys caller freshness_seconds = do
    call require_approved
    call (require (not (nat_eq freshness_seconds 0)) "freshness_seconds must be positive")
    resolution ← call (resolve environment loaded pdf_operation)
    decide keys caller (setting.now + seconds (ttl_of freshness_seconds resolution.policy))
        resolution resolution.policy
