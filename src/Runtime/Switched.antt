-- ===== src/Runtime/Switched.antt =====
-- The kill switch of src/oncemesh/policy.py in the runs of src/oncemesh/runtime.py.
use once_mesh.Base.{
  ℕ, ◌+◌, ◌≡◌, refl, ap, ◌⊎◌, inl, inr, String, true, false, not, [], ◌∷◌, ◌++◌, Option, none, some,
  nat_eq,
}
use once_mesh.Base.Dict.{Dict}
use once_mesh.Base.Result.{Result, ok, raise, require}
use once_mesh.Json.{Value}
use once_mesh.Canonical.Action.{action_digest}
use once_mesh.Records.{Manifest}
use once_mesh.Store.Memory.{MemoryStore}
use once_mesh.Http.{require_http_fetch, execute_http_fetch}
use once_mesh.Policy.Registry.{kill_switch, resolve}
use once_mesh.Cache.Publish.{Artifacts, publish_result}
use once_mesh.Runtime.{
  World, Run, EvaluationEvent, ◌>>=◌, ◌>>◌, call, and_then, stored_in, returns, record_event,
  publish, seconds,
}
use once_mesh.Runtime.Deterministic.{
  execute_and_record, decide, require_approved, execute_deterministic_with_policy,
}
use once_mesh.Runtime.Outcome.{
  ExecutionOutcome, Setting, operation_name, execute_event, executed_outcome,
}
use once_mesh.Runtime.Conditional.{Web}
use once_mesh.Runtime.Http.{decide_http, execute_http_with_policy}
use once_mesh.Runtime.Stale.{execute_full}

module _ (setting : Setting) (action : Value) where
  -- The store has the artifacts as the result of the action, fresh for so many seconds, if there is a store.
  abbrev pub IsPublished : Artifacts → ℕ → World → World → Type 0
  IsPublished artifacts ttl w t =
      ((w.publish_to ≡ none) × (t.publish_to ≡ none))
      ⊎ ((s : MemoryStore) × (m : Manifest) × (stored : MemoryStore) × (w.publish_to ≡ some s)
          × (publish_result setting.hexdigest action artifacts setting.producer setting.now
                (some (setting.now + seconds ttl)) none s
              ≡ (ok m, stored))
          × (t.publish_to ≡ some stored))

  -- The event of an execution while the switch is on.
  pub record IsSwitchedEvent (event : EvaluationEvent) : Type 0 where
    pub is_execution : event.mode ≡ "execute"
    pub is_action : action_digest setting.hexdigest action ≡ ok event.action_digest
    pub is_no_hit : event.candidate_hit ≡ false
    pub is_no_substitution : event.substituted ≡ false
    pub is_reason : event.decision_reason ≡ some "kill_switch"
    pub is_switched : event.kill_switch_active ≡ true

  -- What a run from the world `w` has done: it has returned what the execution returned, published it
  -- and recorded one event; or it has raised and recorded nothing.
  pub IsPlain : Result Artifacts → ℕ → World → Result ExecutionOutcome × World → Type 0
  IsPlain execute ttl w (ok outcome, t) =
      (execute ≡ ok outcome.artifacts)
      × (outcome.substituted ≡ false)
      × (outcome.lookup ≡ none)
      × (outcome.decision_reason ≡ "kill_switch")
      × IsPublished outcome.artifacts ttl w t
      × ((event : EvaluationEvent) × IsSwitchedEvent event × (t.events ≡ w.events ++ event ∷ []))
      × (t.coordinator ≡ w.coordinator)
  IsPlain execute ttl w (raise e, t) = (t.events ≡ w.events) × (t.coordinator ≡ w.coordinator)

  module _ (artifacts : Artifacts) (ttl : ℕ) (w t : World)
      (published : IsPublished artifacts ttl w t) (same_events : t.events ≡ w.events)
      (same_coordinator : t.coordinator ≡ w.coordinator) where
    -- The part of `execute_and_record` after the publication.
    recorded-IsPlain :
        (digest : Result String) (operation : Result Value)
        → action_digest setting.hexdigest action ≡ digest
        → IsPlain (ok artifacts) ttl w (
            (call digest >>= λ d. call operation >>= λ o.
            record_event (execute_event setting d o artifacts none "kill_switch" true)
            >> returns (executed_outcome artifacts "kill_switch" none))
              t)
    unfolding record_event IsPlain
    recorded-IsPlain (raise e) operation h = (same_events, same_coordinator)
    recorded-IsPlain (ok d) (raise e) h = (same_events, same_coordinator)
    recorded-IsPlain (ok d) (ok o) h = (
      refl,
      refl,
      refl,
      refl,
      published,
      (
        execute_event setting d o artifacts none "kill_switch" true,
        record {
          is_execution = refl;
          is_action = h;
          is_no_hit = refl;
          is_no_substitution = refl;
          is_reason = refl;
          is_switched = refl;
        },
        ap (λ events. events ++ execute_event setting d o artifacts none "kill_switch" true ∷ [])
            same_events,
      ),
      same_coordinator,
    )

  rest_of : Artifacts → Run ExecutionOutcome
  rest_of artifacts = call (action_digest setting.hexdigest action) >>= λ d.
      call (operation_name action) >>= λ o.
      record_event (execute_event setting d o artifacts none "kill_switch" true)
      >> returns (executed_outcome artifacts "kill_switch" none)

  stored-IsPlain :
      (artifacts : Artifacts) (ttl : ℕ) (w : World) (s : MemoryStore)
      (o : Result Manifest × MemoryStore)
      → w.publish_to ≡ some s
      → publish_result setting.hexdigest action artifacts setting.producer setting.now
          (some (setting.now + seconds ttl))
          none
          s
        ≡ o
      → IsPlain (ok artifacts) ttl w (and_then (stored_in w o) (λ _. rest_of artifacts))
  unfolding IsPlain rest_of
  stored-IsPlain artifacts ttl w s (raise e, stored) is_store h = (refl, refl)
  stored-IsPlain artifacts ttl w s (ok m, stored) is_store h =
      recorded-IsPlain artifacts ttl w (record w { publish_to = some stored })
        (inr (s, m, stored, is_store, h, refl)) refl refl (action_digest setting.hexdigest action)
        (operation_name action) refl

  published-IsPlain :
      (artifacts : Artifacts) (ttl : ℕ) (w : World) (o : Option MemoryStore)
      → w.publish_to ≡ o
      → IsPlain (ok artifacts) ttl w (
          and_then {A = Unit {0}}
            (elim o [
              | none ↦ (ok tt, w)
              | some s ↦ stored_in w (
                  publish_result setting.hexdigest action artifacts setting.producer setting.now
                    (some (setting.now + seconds ttl))
                    none
                    s)
            ])
            (λ _. rest_of artifacts))
  unfolding rest_of
  published-IsPlain artifacts ttl w none is_store =
      recorded-IsPlain artifacts ttl w w (inl (is_store, is_store)) refl refl
        (action_digest setting.hexdigest action) (operation_name action) refl
  published-IsPlain artifacts ttl w (some s) is_store =
      stored-IsPlain artifacts ttl w s _ is_store refl

  execute_and_record-IsPlain :
      (execute : Result Artifacts) (ttl : ℕ) (w : World)
      → IsPlain execute ttl w (
          execute_and_record setting execute action
            (setting.now + seconds ttl)
            true
            "kill_switch"
            none
            w)
  unfolding execute_and_record publish IsPlain rest_of
  execute_and_record-IsPlain (raise e) ttl w = (refl, refl)
  execute_and_record-IsPlain (ok artifacts) ttl w =
      published-IsPlain artifacts ttl w w.publish_to refl

  -- A test that raises changes nothing.
  call-IsPlain :
      (execute : Result Artifacts) (ttl : ℕ) (w : World) {A : Type 0} (r : Result A)
      (f : A → Run ExecutionOutcome)
      → ((a : A) → IsPlain execute ttl w (f a w))
      → IsPlain execute ttl w ((call r >>= f) w)
  unfolding IsPlain
  call-IsPlain execute ttl w (ok a) f next = next a
  call-IsPlain execute ttl w (raise e) f next = (refl, refl)

  -- While the kill switch is on, `execute_deterministic_with_policy` substitutes nothing, whatever the
  -- policy file, the keys, the stores and the caller's partition are. Either it returns what the execution
  -- returned, with the reason "kill_switch" and no lookup, has published it to the store, if there is one,
  -- as fresh for the requested seconds, and has added exactly one event, that of an execution while the
  -- switch is on; or it raises and adds no event. The coordinator stays as it was.
  pub execute_deterministic_with_policy-IsPlain :
      (environment : Dict String) (loaded : Option Value) (keys : Option (Option Value))
      (caller : Option String) (execute : Result Artifacts) (freshness_seconds : ℕ) (w : World)
      → kill_switch environment ≡ true
      → IsPlain execute freshness_seconds w (
          execute_deterministic_with_policy setting execute action environment loaded keys caller
            freshness_seconds w)
  unfolding execute_deterministic_with_policy decide resolve
  execute_deterministic_with_policy-IsPlain environment loaded keys caller execute freshness_seconds
        w switched =
      call-IsPlain execute freshness_seconds w (require_approved setting execute action) _ λ _.
        call-IsPlain execute freshness_seconds w (require (not (nat_eq freshness_seconds 0)) _) _
          λ _. rw switched (execute_and_record-IsPlain execute freshness_seconds w)

  -- While the kill switch is on, `execute_http_with_policy` substitutes nothing, whatever the policy file,
  -- the stores, the answers to conditional requests and the caller's partition are. Either it returns what a
  -- full fetch returned, with the reason "kill_switch" and no lookup, has published it to the store, if
  -- there is one, as fresh for the requested seconds, and has added exactly one event, that of an
  -- execution while the switch is on; or it raises and adds no event. The coordinator stays as it was.
  pub execute_http_with_policy-IsPlain :
      (web : Web) (environment : Dict String) (loaded : Option Value) (caller : Option String)
      (validation_ttl_seconds : ℕ) (w : World)
      → kill_switch environment ≡ true
      → IsPlain (execute_http_fetch web.python web.transport action) validation_ttl_seconds w (
          execute_http_with_policy setting web action environment loaded caller
            validation_ttl_seconds w)
  unfolding execute_http_with_policy decide_http resolve execute_full
  execute_http_with_policy-IsPlain web environment loaded caller validation_ttl_seconds w switched =
      let fetch = execute_http_fetch web.python web.transport action in
      call-IsPlain fetch validation_ttl_seconds w (require_http_fetch action _) _ λ _.
        call-IsPlain fetch validation_ttl_seconds w
          (require (not (nat_eq validation_ttl_seconds 0)) _) _
          λ _. rw switched (execute_and_record-IsPlain fetch validation_ttl_seconds w)
