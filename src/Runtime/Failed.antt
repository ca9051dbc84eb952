-- ===== src/Runtime/Failed.antt =====
-- `execute_deterministic_with_policy` of src/oncemesh/runtime.py where the execution raises.
use once_mesh.Base.{
  ℕ, ◌+◌, ◌≡◌, refl, String, Bool, true, false, not, ◌==◌, Option, none, some, nat_eq,
  if◌then◌else◌,
}
use once_mesh.Base.Dict.{Dict}
use once_mesh.Base.Result.{Error, Result, ok, raise, require}
use once_mesh.Json.{Value}
use once_mesh.Canonical.Action.{action_digest}
use once_mesh.Policy.{OperationPolicy}
use once_mesh.Policy.Registry.{PolicyResolution, resolve}
use once_mesh.Cache.{Policy}
use once_mesh.Cache.Lookup.{LookupOutcome, reuse}
use once_mesh.Cache.Publish.{Artifacts}
use once_mesh.Runtime.{seconds, World, Run, ◌>>=◌, call, record_event}
use once_mesh.Runtime.Decision.{authorization_failure, candidate_outputs, is_allowed_tier}
use once_mesh.Runtime.Outcome.{ExecutionOutcome, Setting, operation_name}
use once_mesh.Runtime.Deterministic.{
  ttl_of, trust_policy, pdf_operation, run_shadow, execute_and_record, substitute, or_substitute,
  receipt_failure, is_candidate, decide_candidate, decide_mode, decide, require_approved,
  execute_deterministic_with_policy,
}

-- The run has returned a substitution, or has raised and changed nothing.
pub LeavesNoTrace : World → Result ExecutionOutcome × World → Type 0
LeavesNoTrace w (ok outcome, t) = outcome.substituted ≡ true
LeavesNoTrace w (raise e, t) = t ≡ w

call-LeavesNoTrace :
    {A : Type 0} (w : World) (r : Result A) (f : A → Run ExecutionOutcome)
    → ((a : A) → LeavesNoTrace w (f a w))
    → LeavesNoTrace w ((call r >>= f) w)
unfolding LeavesNoTrace
call-LeavesNoTrace w (ok a) f next = next a
call-LeavesNoTrace w (raise e) f next = refl

if-LeavesNoTrace :
    (w : World) (b : Bool) (m n : Run ExecutionOutcome)
    → LeavesNoTrace w (m w)
    → LeavesNoTrace w (n w)
    → LeavesNoTrace w ((if b then m else n) w)
if-LeavesNoTrace w true m n first second = first
if-LeavesNoTrace w false m n first second = second

module _ (setting : Setting) (action : Value) (e : Error) (w : World) where
  execute_and_record-LeavesNoTrace :
      (fresh_until : ℕ) (kill_switch_active : Bool) (reason : String)
      (lookup : Option LookupOutcome)
      → LeavesNoTrace w (
          execute_and_record setting
            (raise e)
            action
            fresh_until
            kill_switch_active
            reason
            lookup
            w)
  unfolding execute_and_record LeavesNoTrace
  execute_and_record-LeavesNoTrace fresh_until kill_switch_active reason lookup = refl

  run_shadow-LeavesNoTrace :
      (policy : Policy) (fresh_until : ℕ) (o : Result LookupOutcome)
      (f : Artifacts × LookupOutcome → Run ExecutionOutcome)
      → reuse setting.hexdigest action setting.stores policy ≡ o
      → LeavesNoTrace w ((run_shadow setting (raise e) action policy fresh_until >>= f) w)
  unfolding run_shadow LeavesNoTrace
  run_shadow-LeavesNoTrace policy fresh_until (ok lookup) f found = rw found refl
  run_shadow-LeavesNoTrace policy fresh_until (raise error) f found = rw found refl

  substitute-LeavesNoTrace :
      (reason : String) (candidate : LookupOutcome)
      → LeavesNoTrace w (substitute setting (raise e) action reason candidate w)
  unfolding substitute record_event LeavesNoTrace
  substitute-LeavesNoTrace reason candidate =
      call-LeavesNoTrace w (candidate_outputs candidate) _ λ artifacts.
        call-LeavesNoTrace w (action_digest setting.hexdigest action) _
          λ digest. call-LeavesNoTrace w (operation_name action) _ λ operation. refl

  or_substitute-LeavesNoTrace :
      (fresh_until : ℕ) (kill_switch_active : Bool) (candidate : LookupOutcome)
      (failure : Option String)
      → LeavesNoTrace w (
          or_substitute setting (raise e) action fresh_until kill_switch_active candidate failure w)
  or_substitute-LeavesNoTrace fresh_until kill_switch_active candidate (some reason) =
      execute_and_record-LeavesNoTrace fresh_until kill_switch_active reason (some candidate)
  or_substitute-LeavesNoTrace fresh_until kill_switch_active candidate none =
      substitute-LeavesNoTrace "exact_fresh_hit" candidate

  decide_mode-LeavesNoTrace :
      (policy : OperationPolicy) (keys : Option (Option Value)) (fresh_until : ℕ)
      (kill_switch_active : Bool) (failure : Option String)
      → LeavesNoTrace w (
          decide_mode setting (raise e) action policy keys fresh_until kill_switch_active failure w)
  unfolding decide_mode decide_candidate
  decide_mode-LeavesNoTrace policy keys fresh_until kill_switch_active (some failure) =
      execute_and_record-LeavesNoTrace fresh_until kill_switch_active failure none
  decide_mode-LeavesNoTrace policy keys fresh_until kill_switch_active none =
      if-LeavesNoTrace w (policy.mode == "shadow") _ _
        (run_shadow-LeavesNoTrace (trust_policy setting.now policy) fresh_until _ _ refl)
        (if-LeavesNoTrace w (not (policy.mode == "exact-substitute")) _ _
          (execute_and_record-LeavesNoTrace fresh_until kill_switch_active
            "policy_mode_incompatible" none)
          (call-LeavesNoTrace w
            (reuse setting.hexdigest action setting.stores (trust_policy setting.now policy)) _
            λ candidate.
              if-LeavesNoTrace w (not (is_candidate setting (raise e) action candidate)) _ _
                (execute_and_record-LeavesNoTrace fresh_until kill_switch_active "candidate_missing"
                  (some candidate))
                (if-LeavesNoTrace w (not (is_allowed_tier candidate.tier policy.allowed_tiers)) _ _
                  (execute_and_record-LeavesNoTrace fresh_until kill_switch_active "tier_denied"
                    (some candidate))
                  (call-LeavesNoTrace w
                    (receipt_failure setting (raise e) action policy keys candidate) _
                    λ failure.
                      or_substitute-LeavesNoTrace fresh_until kill_switch_active candidate
                        failure))))

  decide-LeavesNoTrace :
      (keys : Option (Option Value)) (caller : Option String) (fresh_until : ℕ)
      (resolution : PolicyResolution) (o : Option OperationPolicy)
      → LeavesNoTrace w (decide setting (raise e) action keys caller fresh_until resolution o w)
  unfolding decide
  decide-LeavesNoTrace keys caller fresh_until resolution none =
      execute_and_record-LeavesNoTrace fresh_until resolution.kill_switch_active resolution.reason
        none
  decide-LeavesNoTrace keys caller fresh_until resolution (some policy) =
      call-LeavesNoTrace w (authorization_failure action policy caller) _ λ failure.
        decide_mode-LeavesNoTrace policy keys fresh_until resolution.kill_switch_active failure

  -- Where the execution raises, `execute_deterministic_with_policy` returns a substitution, or it raises
  -- too and neither publishes nor records anything.
  pub execute_deterministic_with_policy-LeavesNoTrace :
      (environment : Dict String) (loaded : Option Value) (keys : Option (Option Value))
      (caller : Option String) (freshness_seconds : ℕ)
      → LeavesNoTrace w (
          execute_deterministic_with_policy setting
            (raise e)
            action
            environment
            loaded
            keys
            caller
            freshness_seconds
            w)
  unfolding execute_deterministic_with_policy
  execute_deterministic_with_policy-LeavesNoTrace environment loaded keys caller freshness_seconds =
      call-LeavesNoTrace w (require_approved setting (raise e) action) _ λ _.
        call-LeavesNoTrace w (require (not (nat_eq freshness_seconds 0)) _) _ λ _.
          call-LeavesNoTrace w (resolve environment loaded pdf_operation) _ λ resolution.
            decide-LeavesNoTrace keys caller
              (setting.now + seconds (ttl_of freshness_seconds resolution.policy)) resolution
              resolution.policy
