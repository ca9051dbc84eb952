-- ===== src/Runtime/Executed.antt =====
-- The runs of src/oncemesh/runtime.py and src/oncemesh/shadow.py that return what an execution returned.
use once_mesh.Base.{ℕ, ◌≡◌, refl, String, Bool, true, false, Option, none, some}
use once_mesh.Base.Result.{Result, ok}
use once_mesh.Json.{Value}
use once_mesh.Canonical.Action.{action_digest}
use once_mesh.Records.{Manifest}
use once_mesh.Cache.{Policy}
use once_mesh.Cache.Lookup.{LookupOutcome, reuse}
use once_mesh.Cache.Publish.{Artifacts}
use once_mesh.Runtime.{returns, ◌>>◌, record_event, publish}
use once_mesh.Runtime.Deterministic.{run_shadow, execute_and_record, is_candidate}
use once_mesh.Runtime.Outcome.{
  ExecutionOutcome, Setting, executed_outcome, execute_event, shadow_event, operation_name,
}
use once_mesh.Runtime.Rules.{Yields, Yields-then, Yields-call, Yields-returns}

module _ (setting : Setting) (execute : Result Artifacts) (action : Value) where
  abbrev pub IsExecuted : ExecutionOutcome → Type 0
  IsExecuted outcome = (outcome.substituted ≡ false) × (execute ≡ ok outcome.artifacts)

  pub execute_and_record-IsExecuted :
      (fresh_until : ℕ) (kill_switch_active : Bool) (reason : String)
      (lookup : Option LookupOutcome)
      → Yields IsExecuted
          (execute_and_record setting execute action fresh_until kill_switch_active reason lookup)
  unfolding execute_and_record
  execute_and_record-IsExecuted fresh_until kill_switch_active reason lookup =
      Yields-call IsExecuted execute _ λ artifacts executed.
        Yields-then IsExecuted
          (publish setting.hexdigest action artifacts setting.producer setting.now fresh_until) _
          (Yields-call IsExecuted (action_digest setting.hexdigest action) _ λ digest _.
            Yields-call IsExecuted (operation_name action) _ λ operation _.
              Yields-then IsExecuted
                (record_event (
                  execute_event setting digest operation artifacts lookup reason
                    kill_switch_active))
                (returns (executed_outcome artifacts reason lookup))
                (Yields-returns IsExecuted _ (refl, executed)))

  pub run_shadow-IsExecuted :
      (policy : Policy) (fresh_until : ℕ)
      → Yields
          (λ shadow. execute ≡ ok shadow.0)
          (run_shadow setting execute action policy fresh_until)
  unfolding run_shadow
  run_shadow-IsExecuted policy fresh_until =
      Yields-call P (reuse setting.hexdigest action setting.stores policy) _ λ lookup _.
        Yields-call P execute _ λ actual executed.
          Yields-call P (action_digest setting.hexdigest action) _ λ digest _.
            Yields-call P (operation_name action) _ λ operation _.
              Yields-then P (record_event (shadow_event setting digest operation actual lookup))
                (publish setting.hexdigest action actual setting.producer setting.now fresh_until
                  >> returns (actual, lookup))
                (Yields-then P
                  (publish setting.hexdigest action actual setting.producer setting.now fresh_until)
                  (returns (actual, lookup)) (Yields-returns P _ executed))
    where
      P : Artifacts × LookupOutcome → Type 0
      P shadow = execute ≡ ok shadow.0

  pub is_candidate-hit :
      (candidate : LookupOutcome) (o : Option Manifest)
      → candidate.manifest ≡ o
      → is_candidate setting execute action candidate ≡ true
      → candidate.hit ≡ true
  is_candidate-hit candidate none e h = cc (rw e at h)
  is_candidate-hit candidate (some m) e h = rw e at h
