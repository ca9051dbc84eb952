-- ===== src/Revalidation/Alone.antt =====
-- A call of `submit` of src/oncemesh/revalidation.py with no other thread between its parts, as the model of
-- src/oncemesh/runtime.py makes it.
use once_mesh.Base.{
  ◌≡◌, refl, ap, subst, Bool, true, false, List, [], ◌∷◌, ◌++◌, contains, if◌then◌else◌,
}
use once_mesh.Base.Result.{Result, ok, raise, runtime_error}
use once_mesh.Revalidation.{
  Job, SingleFlightRevalidator, reserve, enqueue, withdraw, hand_over, after_reserve, submit,
}
use once_mesh.Revalidation.Flights.{
  Threads, Reachable, stepped, after_reservation, reserved, enqueued, raised, withdrawn,
}

append-nothing : (jobs : List Job) → jobs ++ [] ≡ jobs
append-nothing [] = refl
append-nothing (job ∷ jobs) = ap (λ more. job ∷ more) (append-nothing jobs)

module _ (job : Job) (t : Threads) where
  -- The coordinator and the threads after the key was reserved.
  abbrev reserved_in : SingleFlightRevalidator
  reserved_in = record t.coordinator { inflight = t.coordinator.inflight ++ job.key ∷ [] }

  abbrev with_reservation : Threads
  with_reservation = record t { coordinator = reserved_in; submitting = t.submitting ++ job ∷ [] }

  handed_over :
      (accepts : Bool)
      → t.coordinator.accepts ≡ accepts
      → Reachable with_reservation
      → Reachable (record t {
        coordinator =
            (if◌then◌else◌ {A = Result Bool × SingleFlightRevalidator} accepts
              (ok true, enqueue job reserved_in)
              (
                raise (runtime_error "cannot schedule new futures after shutdown"),
                withdraw job.key reserved_in,
              )).1;
      })
  handed_over true accepting r =
      subst
        (λ jobs. Reachable (record t { coordinator = enqueue job reserved_in; submitting = jobs }))
        (append-nothing t.submitting)
        (stepped r (enqueued t.submitting job [] with_reservation refl accepting))
  handed_over false refusing r =
      let failed = stepped r (raised t.submitting job [] with_reservation refl) in
      let gone = stepped failed (withdrawn t.refused job [] _ refl) in
      subst
        (λ jobs.
          Reachable (record t { coordinator = withdraw job.key reserved_in; submitting = jobs }))
        (append-nothing t.submitting)
        (subst
          (λ jobs. Reachable (record t {
            coordinator = withdraw job.key reserved_in;
            submitting = t.submitting ++ [];
            refused = jobs;
          }))
          (append-nothing t.refused) gone)

  after_reserve-Reachable :
      (present : Bool)
      → Reachable (
          after_reservation t job (if present then (false, t.coordinator) else (true, reserved_in)))
      → Reachable (record t {
        coordinator =
            (after_reserve job (if present then (false, t.coordinator) else (true, reserved_in))).1;
      })
  unfolding hand_over
  after_reserve-Reachable true r = r
  after_reserve-Reachable false r = handed_over t.coordinator.accepts refl r

  -- A call of `submit` on its own is one order of the steps of the threads: it leads from a state that they
  -- reach to one that they reach.
  submit-Reachable :
      Reachable t → Reachable (record t { coordinator = (submit job t.coordinator).1 })
  unfolding submit reserve
  submit-Reachable r =
      after_reserve-Reachable (contains t.coordinator.inflight job.key) (stepped r (reserved job t))
