-- ===== src/Runtime/Outcome.antt =====
-- The outcomes of the runs of src/oncemesh/runtime.py, the arguments that their helpers share, and the events
-- that they record.
use once_mesh.Base.{ℕ, ◌+◌, String, Bool, true, false, List, [], ◌∷◌, Option, none, some}
use once_mesh.Base.Result
use once_mesh.Base.Result.{Result, ok, raise, value_error, require}
use once_mesh.Json.{Value, item}
use once_mesh.Canonical.Action.{Hexdigest}
use once_mesh.Receipt.{Ed25519}
use once_mesh.Store.{Store}
use once_mesh.Shadow.{candidate_matches}
use once_mesh.Cache.Lookup.{LookupOutcome}
use once_mesh.Cache.Publish.{Artifacts}
use once_mesh.Runtime.{EvaluationEvent, total_bytes}

-- `DeterministicExecutionOutcome`, and `HttpExecutionOutcome`, which has the same fields
pub record ExecutionOutcome : Type 0 where
  pub artifacts : Artifacts
  pub substituted : Bool
  pub decision_reason : String
  pub lookup : Option LookupOutcome

abbrev pub executed_outcome : Artifacts → String → Option LookupOutcome → ExecutionOutcome
executed_outcome artifacts reason lookup = record {
  artifacts = artifacts;
  substituted = false;
  decision_reason = reason;
  lookup = lookup;
}

abbrev pub substituted_outcome : Artifacts → String → LookupOutcome → ExecutionOutcome
substituted_outcome artifacts reason candidate = record {
  artifacts = artifacts;
  substituted = true;
  decision_reason = reason;
  lookup = some candidate;
}

-- The arguments of a run that its helpers share.
pub record Setting : Type 0 where
  pub hexdigest : Hexdigest
  pub ed25519 : Ed25519
  pub stores : List Store
  pub producer : String
  pub now : ℕ
  pub evaluation_id : Option String

abbrev pub hit_of_lookup : Option LookupOutcome → Bool
hit_of_lookup none = false
hit_of_lookup (some lookup) = lookup.hit

abbrev pub tier_of_lookup : Option LookupOutcome → Option String
tier_of_lookup none = none
tier_of_lookup (some lookup) = lookup.tier

abbrev pub match_of_lookup : Artifacts → Option LookupOutcome → Option Bool
match_of_lookup artifacts none = none
match_of_lookup artifacts (some lookup) = candidate_matches artifacts lookup

abbrev pub rejections_of_lookup : Option LookupOutcome → List String
rejections_of_lookup none = []
rejections_of_lookup (some lookup) = lookup.rejections

-- `action["operation"]["name"]`
abbrev pub operation_name : Value → Result Value
operation_name action = Result.◌>>=◌ (item action "operation") (λ operation. item operation "name")

-- The event of an execution that nothing replaced.
abbrev pub execute_event :
    Setting → String → Value → Artifacts → Option LookupOutcome → String → Bool → EvaluationEvent
execute_event setting digest operation artifacts lookup reason kill_switch_active = record {
  mode = "execute";
  action_digest = digest;
  operation = operation;
  candidate_hit = hit_of_lookup lookup;
  tier = tier_of_lookup lookup;
  artifact_match = match_of_lookup artifacts lookup;
  rejections = rejections_of_lookup lookup;
  reusable_bytes = 0;
  evaluation_id = setting.evaluation_id;
  validation_method = none;
  validation_status = none;
  validation_recorded = false;
  substituted = false;
  decision_reason = some reason;
  kill_switch_active = kill_switch_active;
  background_revalidation_scheduled = false;
  background_revalidation_coalesced = false;
}

-- The event of a substitution.
abbrev pub substitute_event : Setting → String → Value → LookupOutcome → String → EvaluationEvent
substitute_event setting digest operation candidate reason = record {
  mode = "substitute";
  action_digest = digest;
  operation = operation;
  candidate_hit = true;
  tier = candidate.tier;
  artifact_match = none;
  rejections = candidate.rejections;
  reusable_bytes = total_bytes candidate.artifacts;
  evaluation_id = setting.evaluation_id;
  validation_method = none;
  validation_status = none;
  validation_recorded = false;
  substituted = true;
  decision_reason = some reason;
  kill_switch_active = false;
  background_revalidation_scheduled = false;
  background_revalidation_coalesced = false;
}

-- `sum(len(data) for data, _ in actual.values()) if verified else 0`
unfoldable pub verified_bytes : Option Bool → Artifacts → ℕ
verified_bytes (some true) [] = 0
verified_bytes (some true) ((name, (bytes, media_type)) ∷ rest) =
    total_bytes ((name, bytes) ∷ []) + verified_bytes (some true) rest
verified_bytes (some false) artifacts = 0
verified_bytes none artifacts = 0

abbrev pub shadow_event : Setting → String → Value → Artifacts → LookupOutcome → EvaluationEvent
shadow_event setting digest operation actual lookup = record {
  mode = "shadow";
  action_digest = digest;
  operation = operation;
  candidate_hit = lookup.hit;
  tier = lookup.tier;
  artifact_match = candidate_matches actual lookup;
  rejections = lookup.rejections;
  reusable_bytes = verified_bytes (candidate_matches actual lookup) actual;
  evaluation_id = setting.evaluation_id;
  validation_method = none;
  validation_status = none;
  validation_recorded = false;
  substituted = false;
  decision_reason = none;
  kill_switch_active = false;
  background_revalidation_scheduled = false;
  background_revalidation_coalesced = false;
}
