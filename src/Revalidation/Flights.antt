-- ===== src/Revalidation/Flights.antt =====
-- The threads that use one `SingleFlightRevalidator` of src/oncemesh/revalidation.py, and the states that
-- they reach. The executor is concurrent.futures.ThreadPoolExecutor: a submission to it may raise at
-- any time, and then it does not hold the work; it does not raise only before it is shut down.
use once_mesh.Base.{◌+◌, ◌≤◌, ◌≡◌, String, Bool, true, false, List, [], ◌∷◌, ◌++◌}
use once_mesh.Revalidation.Counts.{count, count_jobs}
use once_mesh.Revalidation.{Job, SingleFlightRevalidator, reserve, enqueue, withdraw, shutdown}

-- The coordinator, and the threads that use it: those in `submit` between the first critical section and
-- the executor, those between a submission that raised and the critical section of the handler, and those
-- of the executor between the last critical section of `guarded` and its end.
pub record Threads : Type 0 where
  pub coordinator : SingleFlightRevalidator
  pub submitting : List Job
  pub refused : List Job
  pub leaving : List Job

abbrev pub after_reservation : Threads → Job → Bool × SingleFlightRevalidator → Threads
after_reservation t job (true, s) = record t {
  coordinator = s;
  submitting = t.submitting ++ job ∷ [];
}
after_reservation t job (false, s) = record t { coordinator = s }

-- One critical section of a thread, or one call of the executor outside the lock.
pub data Step : Threads → Threads → Type 0 where
  -- the first critical section of `submit`: a key in flight is coalesced, another is added
  reserved :
      (job : Job) (t : Threads) → Step t (after_reservation t job (reserve job.key t.coordinator))
  -- `self._executor.submit(guarded)`, where it takes the work
  enqueued :
      (before : List Job) (job : Job) (after : List Job) (t : Threads)
      → t.submitting ≡ before ++ job ∷ after
      → t.coordinator.accepts ≡ true
      → Step t (record t { coordinator = enqueue job t.coordinator; submitting = before ++ after })
  -- `self._executor.submit(guarded)`, where it raises
  raised :
      (before : List Job) (job : Job) (after : List Job) (t : Threads)
      → t.submitting ≡ before ++ job ∷ after
      → Step t (record t { submitting = before ++ after; refused = t.refused ++ job ∷ [] })
  -- the critical section of the handler
  withdrawn :
      (before : List Job) (job : Job) (after : List Job) (t : Threads)
      → t.refused ≡ before ++ job ∷ after
      → Step t
          (record t { coordinator = withdraw job.key t.coordinator; refused = before ++ after })
  -- the `finally` block of `guarded`, after the work has returned or raised
  finished :
      (before : List Job) (job : Job) (after : List Job) (t : Threads)
      → t.coordinator.scheduled ≡ before ++ job ∷ after
      → Step t (record t {
        coordinator = record (withdraw job.key t.coordinator) { scheduled = before ++ after };
        leaving = t.leaving ++ job ∷ [];
      })
  -- the end of `guarded`, where the worker is free again
  left :
      (before : List Job) (job : Job) (after : List Job) (t : Threads)
      → t.leaving ≡ before ++ job ∷ after
      → Step t (record t { leaving = before ++ after })
  shut_down : (t : Threads) → Step t (record t { coordinator = shutdown t.coordinator })

abbrev pub no_threads : Threads
no_threads = record {
  coordinator = record { inflight = []; scheduled = []; accepts = true };
  submitting = [];
  refused = [];
  leaving = [];
}

pub data Reachable : Threads → Type 0 where
  started : Reachable no_threads
  stepped : {t u : Threads} → Reachable t → Step t u → Reachable u

-- A key is in flight at most once, and as often as there are calls of `submit` or jobs of the executor
-- that have reserved it and have not withdrawn it.
pub record IsSingleFlight (t : Threads) (key : String) : Type 0 where
  pub is_held :
      count key t.coordinator.inflight
      ≡ count_jobs key t.submitting
        + count_jobs key t.coordinator.scheduled
        + count_jobs key t.refused
  pub at_most_one : count key t.coordinator.inflight ≤ 1
