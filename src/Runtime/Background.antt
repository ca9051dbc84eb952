-- ===== src/Runtime/Background.antt =====
-- `revalidate_http_candidate` of src/oncemesh/revalidation.py, as the executor runs it for a job. The clock
-- is an argument.
pub mod Contained
use once_mesh.Base.{
  ℕ, ◌+◌, String, Bool, true, false, not, List, [], ◌∷◌, Option, none, some, nat_eq, if◌then◌else◌,
}
use once_mesh.Base.Result
use once_mesh.Base.Result.{Error, Result, ok, raise, value_error, require}
use once_mesh.Json.{Value, str}
use once_mesh.Canonical.Action.{action_digest}
use once_mesh.Records.{Manifest}
use once_mesh.Http.{FetchResponse, response_to_artifacts}
use once_mesh.Revalidation.{Job}
use once_mesh.Shadow.{candidate_matches}
use once_mesh.Cache.Lookup.{LookupOutcome}
use once_mesh.Cache.Publish.{Artifacts}
use once_mesh.Runtime.{
  EvaluationEvent, World, Run, returns, and_then, ◌>>=◌, ◌>>◌, call, record_event, publish, seconds,
}
use once_mesh.Runtime.Outcome.{Setting}
use once_mesh.Runtime.Conditional.{
  Web, read_validators, is_validator, conditional_response, record_validation,
}

-- The local variables that the event reports.
pub record Report : Type 0 where
  pub status : Option ℕ
  pub recorded : Bool
  pub reason : String
  pub artifact_match : Option Bool

abbrev pub failed_with : Option ℕ → Option Bool → Report
failed_with status artifact_match = record {
  status = status;
  recorded = false;
  reason = "background_failed";
  artifact_match = artifact_match;
}

-- `except Exception: reason = "background_failed"`, with the variables as they are by then.
abbrev pub or_failed : Report → Result Report × World → Report × World
or_failed report (ok success, w) = (success, w)
or_failed report (raise e, w) = (report, w)

module _ (setting : Setting) (web : Web) (job : Job) where
  -- The branches on the status; an exception leaves `status` and `artifact_match` set.
  unfoldable pub not_modified : Manifest → ℕ → Value × Value → World → Report × World
  unfolding record_validation
  not_modified m now validators w = or_failed (failed_with (some 304) none) (
      (record_validation setting web job.action m now (now + seconds job.validation_ttl_seconds)
            job.producer validators
          >> returns (record {
            status = some 304;
            recorded = true;
            reason = "background_not_modified";
            artifact_match = none;
          }))
        w)

  unfoldable pub source_changed : ℕ → Result Artifacts → World → Report × World
  unfolding candidate_matches publish
  source_changed now (raise e) w = (failed_with (some 200) none, w)
  source_changed now (ok artifacts) w =
      or_failed (failed_with (some 200) (candidate_matches artifacts job.candidate)) (
        (publish setting.hexdigest job.action artifacts job.producer now
              (now + seconds job.validation_ttl_seconds)
            >> returns (record {
              status = some 200;
              recorded = false;
              reason = "background_source_changed";
              artifact_match = candidate_matches artifacts job.candidate;
            }))
          w)

  unfoldable pub after_status :
      Manifest → ℕ → Value × Value → FetchResponse → World → Report × World
  unfolding not_modified source_changed
  after_status m now validators response w =
      if nat_eq response.status 304
      then not_modified m now validators w
      else if nat_eq response.status 200
      then source_changed now (response_to_artifacts web.python job.action response) w
      else (failed_with (some response.status) none, w)

  -- The candidate's validators and the response to them.
  unfoldable pub requested : Result ((Value × Value) × FetchResponse)
  unfolding read_validators conditional_response
  requested = Result.◌>>=◌ (read_validators web job.candidate) λ validators.
      Result.◌>>◌ (require (is_validator validators) "background candidate has no validator") (
        Result.◌>>=◌ (conditional_response setting web job.action validators)
          λ response. ok (validators, response))

  abbrev pub after_request :
      Manifest → ℕ → Result ((Value × Value) × FetchResponse) → World → Report × World
  after_request m now (ok (validators, response)) w = after_status m now validators response w
  after_request m now (raise e) w = (failed_with none none, w)

  -- The `try` statement.
  unfoldable pub refresh : ℕ → Option Manifest → World → Report × World
  unfolding requested after_status
  refresh now none w = (failed_with none none, w)
  refresh now (some m) w = after_request m now requested w

  abbrev pub background_event : String → Report → EvaluationEvent
  background_event digest report = record {
    mode = "background-revalidate";
    action_digest = digest;
    operation = str "http.fetch";
    candidate_hit = true;
    tier = job.candidate.tier;
    artifact_match = report.artifact_match;
    rejections = job.candidate.rejections;
    reusable_bytes = 0;
    evaluation_id = job.evaluation_id;
    validation_method = some "http.conditional/1";
    validation_status = report.status;
    validation_recorded = report.recorded;
    substituted = false;
    decision_reason = some report.reason;
    kill_switch_active = false;
    background_revalidation_scheduled = false;
    background_revalidation_coalesced = false;
  }

  abbrev pub with_event : Report × World → Result (Unit {0}) × World
  with_event (report, w) =
      (call (action_digest setting.hexdigest job.action)
          >>= (λ digest. record_event (background_event digest report)))
        w

  unfoldable pub revalidate_http_candidate : ℕ → Run (Unit {0})
  unfolding refresh record_event
  revalidate_http_candidate now w = with_event (refresh now job.candidate.manifest w)
