-- ===== src/Runtime/Background/Contained.antt =====
-- What a background revalidation of src/oncemesh/revalidation.py leaves, whatever fails in it.
use once_mesh.Base.{
  ℕ, ◌+◌, ◌≡◌, refl, String, Bool, true, [], ◌∷◌, ◌++◌, Option, none, some, nat_eq, nat_eq_iff, inl,
  inr, Bool-cases,
}
use once_mesh.Base.Result.{Result, ok, raise}
use once_mesh.Json.{Value}
use once_mesh.Canonical.Action.{Hexdigest, action_digest}
use once_mesh.Records.{Manifest}
use once_mesh.Store.Memory.{MemoryStore}
use once_mesh.Http.{FetchResponse, response_to_artifacts}
use once_mesh.Revalidation.{Job}
use once_mesh.Cache.Publish.{Artifacts}
use once_mesh.Runtime.{
  World, Run, EvaluationEvent, returns, ◌>>◌, stored_in, publish, record_event, seconds,
}
use once_mesh.Runtime.Outcome.{Setting}
use once_mesh.Runtime.Conditional.{
  Web, validated_in, recorded_in, put_validation_of, record_validation,
}
use once_mesh.Runtime.Background.{
  Report, or_failed, failed_with, not_modified, source_changed, after_status, requested,
  after_request, refresh, background_event, with_event, revalidate_http_candidate,
}

-- Nothing but the store is another.
abbrev KeepsEvents : World → World → Type 0
KeepsEvents w t = (t.events ≡ w.events) × (t.coordinator ≡ w.coordinator)

stored_in-KeepsEvents :
    {A : Type 0} (w : World) (o : Result A × MemoryStore) → KeepsEvents w (stored_in w o).1
stored_in-KeepsEvents w (ok a, s) = (refl, refl)
stored_in-KeepsEvents w (raise e, s) = (refl, refl)

validated_in-KeepsEvents : (w : World) (o : Result MemoryStore) → KeepsEvents w (validated_in w o).1
validated_in-KeepsEvents w (ok s) = (refl, refl)
validated_in-KeepsEvents w (raise e) = (refl, refl)

publish-KeepsEvents :
    (hexdigest : Hexdigest) (action : Value) (artifacts : Artifacts) (producer : String)
    (produced_at fresh_until : ℕ) (w : World) (o : Option MemoryStore)
    → w.publish_to ≡ o
    → KeepsEvents w (publish hexdigest action artifacts producer produced_at fresh_until w).1
unfolding publish
publish-KeepsEvents hexdigest action artifacts producer produced_at fresh_until w none e =
    rw e (refl, refl)
publish-KeepsEvents hexdigest action artifacts producer produced_at fresh_until w (some s) e =
    rw e (stored_in-KeepsEvents w _)

record_validation-KeepsEvents :
    (setting : Setting) (web : Web) (action : Value) (m : Manifest) (now fresh_until : ℕ)
    (producer : String) (validators : Value × Value) (w : World)
    → KeepsEvents w (record_validation setting web action m now fresh_until producer validators w).1
unfolding record_validation
record_validation-KeepsEvents setting web action m now fresh_until producer validators w =
    at_store w.publish_to
  where
    at_store :
        (o : Option MemoryStore)
        → KeepsEvents w
            (recorded_in w
              (put_validation_of setting web action m now fresh_until producer validators)
              o).1
    at_store none = (refl, refl)
    at_store (some s) =
        validated_in-KeepsEvents w
          (put_validation_of setting web action m now fresh_until producer validators s)

module _ (setting : Setting) (web : Web) (job : Job) where
  -- A report says that a validation was recorded only after a response with status 304.
  pub IsHonest : Report → Type 0
  IsHonest report =
      report.recorded ≡ true
      → (validators : Value × Value) × (response : FetchResponse) × (requested setting web job
          ≡ ok (validators, response))
        × (response.status ≡ 304)

  -- The end of a refresh.
  Ends : World → Report × World → Type 0
  Ends w (report, t) = KeepsEvents w t × IsHonest report

  or_failed-Ends :
      (w : World) (status : Option ℕ) (artifact_match : Option Bool) (success : Report)
      (o : Result (Unit {0}) × World)
      → KeepsEvents w o.1
      → IsHonest success
      → Ends w (
          or_failed
            (failed_with status artifact_match)
            (once_mesh.Runtime.and_then o (λ done. returns success)))
  unfolding Ends IsHonest
  or_failed-Ends w status artifact_match success (ok done, t) kept honest = (kept, honest)
  or_failed-Ends w status artifact_match success (raise e, t) kept honest = (kept, λ h. cc)

  source_changed-Ends :
      (now : ℕ) (o : Result Artifacts) (w : World) → Ends w (source_changed setting web job now o w)
  unfolding source_changed Ends IsHonest
  source_changed-Ends now (raise e) w = ((refl, refl), λ h. cc)
  source_changed-Ends now (ok artifacts) w =
      or_failed-Ends w _ _ _ _ (publish-KeepsEvents _ _ _ _ _ _ w w.publish_to refl) (λ h. cc)

  not_modified-Ends :
      (m : Manifest) (now : ℕ) (validators : Value × Value) (response : FetchResponse) (w : World)
      → requested setting web job ≡ ok (validators, response)
      → response.status ≡ 304
      → Ends w (not_modified setting web job m now validators w)
  unfolding not_modified IsHonest
  not_modified-Ends m now validators response w answered unmodified =
      or_failed-Ends w (some 304) none
        (record {
          status = some 304;
          recorded = true;
          reason = "background_not_modified";
          artifact_match = none;
        })
        (record_validation setting web job.action m now (now + seconds job.validation_ttl_seconds)
          job.producer validators w)
        (record_validation-KeepsEvents setting web job.action m now
          (now + seconds job.validation_ttl_seconds) job.producer validators w)
        (λ h. (validators, response, answered, unmodified))

  after_status-Ends :
      (m : Manifest) (now : ℕ) (validators : Value × Value) (response : FetchResponse) (w : World)
      → requested setting web job ≡ ok (validators, response)
      → Ends w (after_status setting web job m now validators response w)
  unfolding after_status Ends IsHonest
  after_status-Ends m now validators response w answered =
      elim (Bool-cases (nat_eq response.status 304)) [
        | inl unmodified ↦ rw unmodified (
            not_modified-Ends m now validators response w answered
              ((nat_eq_iff response.status 304).0 unmodified))
        | inr other ↦ elim (Bool-cases (nat_eq response.status 200)) [
          | inl changed ↦
              rw (other, changed)
                (source_changed-Ends now (response_to_artifacts web.python job.action response) w)
          | inr unexpected ↦ rw (other, unexpected) ((refl, refl), λ h. cc)
        ]
      ]

  refresh-Ends :
      (now : ℕ) (o : Option Manifest) (w : World) → Ends w (refresh setting web job now o w)
  unfolding refresh Ends IsHonest
  refresh-Ends now none w = ((refl, refl), λ h. cc)
  refresh-Ends now (some m) w = with_request (requested setting web job) refl
    where
      with_request :
          (o : Result ((Value × Value) × FetchResponse))
          → requested setting web job ≡ o
          → Ends w (after_request setting web job m now o w)
      with_request (ok (validators, response)) answered =
          after_status-Ends m now validators response w answered
      with_request (raise e) answered = ((refl, refl), λ h. cc)

  with_event-Returns :
      (w : World) (o : Report × World) (digest : String)
      → Ends w o
      → action_digest setting.hexdigest job.action ≡ ok digest
      → (report : Report) × IsHonest report
        × ((with_event setting web job o).0 ≡ ok tt)
        × ((with_event setting web job o).1.events
            ≡ w.events ++ background_event setting web job digest report ∷ [])
        × ((with_event setting web job o).1.coordinator ≡ w.coordinator)
  unfolding Ends record_event
  with_event-Returns w (report, t) digest ((same_events, same_coordinator), honest) digested = (
    report,
    honest,
    rw digested refl,
    rw (digested, same_events) refl,
    rw (digested, same_coordinator) refl,
  )

  -- A background revalidation never raises where the action has a digest, whatever the candidate, the
  -- network, the metadata or the store do: it returns, adds exactly one event to the metrics, which
  -- is that of its report, and leaves the coordinator as it was. The report says that a validation was
  -- recorded only if the conditional request was answered with status 304.
  pub revalidate_http_candidate-Returns :
      (now : ℕ) (w : World) (digest : String)
      → action_digest setting.hexdigest job.action ≡ ok digest
      → (report : Report) × IsHonest report
        × ((revalidate_http_candidate setting web job now w).0 ≡ ok tt)
        × ((revalidate_http_candidate setting web job now w).1.events
            ≡ w.events ++ background_event setting web job digest report ∷ [])
        × ((revalidate_http_candidate setting web job now w).1.coordinator ≡ w.coordinator)
  unfolding revalidate_http_candidate
  revalidate_http_candidate-Returns now w digest digested =
      with_event-Returns w (refresh setting web job now job.candidate.manifest w) digest
        (refresh-Ends now job.candidate.manifest w) digested
