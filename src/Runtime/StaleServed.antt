-- ===== src/Runtime/StaleServed.antt =====
-- What the mode "stale-while-revalidate" of src/oncemesh/runtime.py serves.
use once_mesh.Base.{
  ℕ, ◌+◌, ◌≤◌, ◌≡◌, refl, ap, ◌∙◌, inl, inr, String, Bool, true, false, Option, none, some,
  contains, leb, ltb, arith, Bool-cases, leb→le,
}
use once_mesh.Base.Dict.{Dict}
use once_mesh.Base.Result.{Result, ok, raise}
use once_mesh.Json.{Value}
use once_mesh.Store.Memory.{MemoryStore}
use once_mesh.Policy.{OperationPolicy}
use once_mesh.Revalidation.{SingleFlightRevalidator}
use once_mesh.Cache.Lookup.{LookupOutcome}
use once_mesh.Runtime.{World, seconds}
use once_mesh.Runtime.Decision.{latest_trusted_freshness}
use once_mesh.Runtime.Outcome.{ExecutionOutcome, Setting}
use once_mesh.Runtime.Conditional.{Web, is_validator}
use once_mesh.Runtime.Stale.{
  Freshness, fresh, stale_within_window, unusable, freshness_at, freshness_of, validators_or_null,
  schedule_with, scheduled_event, same_event, after_submission, schedule, serve_stale,
  serve_by_freshness, stale_while_revalidate,
}
use once_mesh.Runtime.Rules.{Yields, Yields-call, Yields-unless}
use once_mesh.Runtime.Servable.{
  IsCurrent, is_fresh, is_within_window, IsServed, execute_full-IsServed, substitute_http-IsServed,
  Servable,
}

ltb-false : (a b : ℕ) → ltb a b ≡ false → b ≤ a
ltb-false a b h = ground arith

freshness_of-eq-fresh :
    (now max_stale_seconds : ℕ) (found : Option ℕ × Bool)
    → freshness_of now max_stale_seconds found ≡ fresh
    → (boundary : ℕ) × (found ≡ (some boundary, false)) × (now ≤ boundary)
unfolding freshness_of freshness_at
freshness_of-eq-fresh now max_stale_seconds (boundary, true) h = cc
freshness_of-eq-fresh now max_stale_seconds (none, false) h = cc
freshness_of-eq-fresh now max_stale_seconds (some boundary, false) h =
    elim (Bool-cases (leb now boundary)) [
      | inl not_after ↦ (boundary, refl, leb→le now boundary not_after)
      | inr after ↦ elim (Bool-cases (ltb (boundary + seconds max_stale_seconds) now)) [
        | inl exceeded ↦ cc (rw (after, exceeded) at h)
        | inr within ↦ cc (rw (after, within) at h)
      ]
    ]

freshness_of-eq-stale :
    (now max_stale_seconds : ℕ) (found : Option ℕ × Bool)
    → freshness_of now max_stale_seconds found ≡ stale_within_window
    → (boundary : ℕ) × (found ≡ (some boundary, false))
      × (now ≤ boundary + seconds max_stale_seconds)
unfolding freshness_of freshness_at
freshness_of-eq-stale now max_stale_seconds (boundary, true) h = cc
freshness_of-eq-stale now max_stale_seconds (none, false) h = cc
freshness_of-eq-stale now max_stale_seconds (some boundary, false) h =
    elim (Bool-cases (leb now boundary)) [
      | inl not_after ↦ cc (rw not_after at h)
      | inr after ↦ elim (Bool-cases (ltb (boundary + seconds max_stale_seconds) now)) [
        | inl exceeded ↦ cc (rw (after, exceeded) at h)
        | inr within ↦ (boundary, refl, ltb-false (boundary + seconds max_stale_seconds) now within)
      ]
    ]

module _ (setting : Setting) (web : Web) (environment : Dict String) (loaded : Option Value)
    (caller : Option String) (action : Value) where
  abbrev Served : ExecutionOutcome → Type 0
  Served = IsServed setting web environment loaded caller action

  module _ (policy : OperationPolicy) (ttl fresh_until : ℕ) (candidate : LookupOutcome)
      (servable : Servable setting web environment loaded caller action policy candidate) where
    after_submission-IsServed :
        (current : IsCurrent setting web action policy candidate) (w : World)
        (o : Result Bool × SingleFlightRevalidator) (outcome : ExecutionOutcome)
        → (after_submission setting web action fresh_until candidate w o).0 ≡ ok outcome
        → Served outcome
    unfolding after_submission
    after_submission-IsServed current w (ok scheduled, coordinator) outcome h =
        substitute_http-IsServed setting web environment loaded caller action
          "stale_while_revalidate" candidate (scheduled_event setting web action scheduled)
          (servable current) _ outcome h
    after_submission-IsServed current w (raise e, coordinator) outcome h =
        execute_full-IsServed setting web environment loaded caller action fresh_until false _ _ _
          outcome h

    schedule_with-IsServed :
        IsCurrent setting web action policy candidate
        → (coordinator : Option SingleFlightRevalidator) (publish_to : Option MemoryStore)
        → Yields Served
            (schedule_with setting web action ttl fresh_until candidate coordinator publish_to)
    unfolding schedule_with
    schedule_with-IsServed current none publish_to w outcome h =
        execute_full-IsServed setting web environment loaded caller action fresh_until false _ _ w
          outcome h
    schedule_with-IsServed current (some coordinator) none w outcome h =
        execute_full-IsServed setting web environment loaded caller action fresh_until false _ _ w
          outcome h
    schedule_with-IsServed current (some coordinator) (some s) w outcome h =
        after_submission-IsServed current w _ outcome h

    schedule-IsServed :
        IsCurrent setting web action policy candidate
        → Yields Served (schedule setting web action ttl fresh_until candidate)
    unfolding schedule
    schedule-IsServed current w outcome h =
        schedule_with-IsServed current w.coordinator w.publish_to w outcome h

    serve_stale-IsServed :
        (validators : Value × Value)
        → (contains policy.trusted_validation_producers setting.producer ≡ true
            → contains policy.trusted_result_producers setting.producer ≡ true
            → IsCurrent setting web action policy candidate)
        → Yields Served (serve_stale setting web action policy ttl fresh_until candidate validators)
    unfolding serve_stale
    serve_stale-IsServed validators current =
        Yields-unless Served (is_validator validators) _ _
          (λ _.
            execute_full-IsServed setting web environment loaded caller action fresh_until false _
              _)
          λ _.
            Yields-unless Served (contains policy.trusted_validation_producers setting.producer) _ _
              (λ _.
                execute_full-IsServed setting web environment loaded caller action fresh_until false
                  _ _)
              λ validates.
                Yields-unless Served (contains policy.trusted_result_producers setting.producer) _ _
                  (λ _.
                    execute_full-IsServed setting web environment loaded caller action fresh_until
                      false _ _)
                  λ refreshes. schedule-IsServed (current validates refreshes)

    serve_by_freshness-IsServed :
        (freshness : Freshness)
        → (freshness ≡ fresh → IsCurrent setting web action policy candidate)
        → (freshness ≡ stale_within_window
            → contains policy.trusted_validation_producers setting.producer ≡ true
            → contains policy.trusted_result_producers setting.producer ≡ true
            → IsCurrent setting web action policy candidate)
        → Yields Served
            (serve_by_freshness setting web action policy ttl fresh_until candidate freshness)
    unfolding serve_by_freshness
    serve_by_freshness-IsServed fresh when_fresh when_stale =
        substitute_http-IsServed setting web environment loaded caller action "fresh_hit" candidate
          (same_event setting web action) (servable (when_fresh refl))
    serve_by_freshness-IsServed (unusable reason) when_fresh when_stale =
        execute_full-IsServed setting web environment loaded caller action fresh_until false reason
          (some candidate)
    serve_by_freshness-IsServed stale_within_window when_fresh when_stale =
        Yields-call Served (validators_or_null web candidate) _
          λ validators _. serve_stale-IsServed validators (when_stale refl)

    pub stale_while_revalidate-IsServed :
        policy.mode ≡ "stale-while-revalidate"
        → Yields Served (stale_while_revalidate setting web action policy ttl fresh_until candidate)
    unfolding stale_while_revalidate
    stale_while_revalidate-IsServed is_mode =
        Yields-call Served
          (latest_trusted_freshness setting.hexdigest candidate setting.stores policy) _
          λ found read.
            serve_by_freshness-IsServed (freshness_of setting.now policy.max_stale_seconds found)
              (λ fresh_now.
                let (boundary, e, not_after) =
                  freshness_of-eq-fresh setting.now policy.max_stale_seconds found fresh_now in
                is_fresh boundary is_mode (read ∙ ap ok e) not_after)
              λ stale_now validates refreshes.
                let (boundary, e, within) =
                  freshness_of-eq-stale setting.now policy.max_stale_seconds found stale_now in
                is_within_window boundary is_mode (read ∙ ap ok e) within validates refreshes
