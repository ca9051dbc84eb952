-- ===== src/Revalidation.antt =====
-- `SingleFlightRevalidator` of src/oncemesh/revalidation.py: at most one revalidation of a key at a
-- time. The thread pool is the list of the jobs that it holds and whose keys are in flight. Each critical
-- section of the lock and each call of the executor is a function; Revalidation/Flights interleaves them.
pub mod Counts
pub mod Flights
pub mod Alone
use once_mesh.Base.{
  ℕ, String, Bool, true, false, not, List, [], ◌∷◌, ◌++◌, Option, none, some, ◌==◌, contains,
  nat_eq, if◌then◌else◌,
}
use once_mesh.Base.Result.{Result, ok, raise, runtime_error, require, ◌>>◌}
use once_mesh.Json.{Value, int, pos}
use once_mesh.Cache.Lookup.{LookupOutcome}

-- The arguments of `revalidate_http_candidate` that the work of a key closes over.
pub record Job : Type 0 where
  pub key : String
  pub action : Value
  pub candidate : LookupOutcome
  pub producer : String
  pub validation_ttl_seconds : ℕ
  pub evaluation_id : Option String

-- `scheduled` is what the executor holds, which accepts work until it is shut down.
pub record SingleFlightRevalidator : Type 0 where
  pub inflight : List String
  pub scheduled : List Job
  pub accepts : Bool

-- An integer that is positive and is no Boolean.
abbrev pub is_positive : Value → Bool
is_positive (int (pos n)) = not (nat_eq n 0)
is_positive _ = false

-- `SingleFlightRevalidator(max_workers=…)`
unfoldable pub new_revalidator : Value → Result SingleFlightRevalidator
new_revalidator max_workers = do
  require (is_positive max_workers) "max_workers must be a positive integer"
  ok (record { inflight = []; scheduled = []; accepts = true })

-- `set.discard`, of a set that is a list
unfoldable pub discard : String → List String → List String
discard key [] = []
discard key (k ∷ ks) = let rest = discard key ks in if k == key then rest else k ∷ rest

-- The first critical section of `submit`: whether the key is new, and then it is in the set.
unfoldable pub reserve : String → SingleFlightRevalidator → Bool × SingleFlightRevalidator
reserve key s =
    if contains s.inflight key
    then (false, s)
    else (true, record s { inflight = s.inflight ++ key ∷ [] })

-- `self._executor.submit(guarded)`, where it does not raise
unfoldable pub enqueue : Job → SingleFlightRevalidator → SingleFlightRevalidator
enqueue job s = record s { scheduled = s.scheduled ++ job ∷ [] }

-- The critical section in the handler of `submit`, and the one in the `finally` block of `guarded`.
unfoldable pub withdraw : String → SingleFlightRevalidator → SingleFlightRevalidator
unfolding discard
withdraw key s = record s { inflight = discard key s.inflight }

-- The call of the executor and its handler, with no other thread between them.
unfoldable pub hand_over : Job → SingleFlightRevalidator → Result Bool × SingleFlightRevalidator
unfolding enqueue withdraw
hand_over job s =
    if s.accepts
    then (ok true, enqueue job s)
    else (raise (runtime_error "cannot schedule new futures after shutdown"), withdraw job.key s)

abbrev pub after_reserve :
    Job → Bool × SingleFlightRevalidator → Result Bool × SingleFlightRevalidator
after_reserve job (true, s) = hand_over job s
after_reserve job (false, s) = (ok false, s)

-- A call of `submit` with no other thread between its parts.
unfoldable pub submit : Job → SingleFlightRevalidator → Result Bool × SingleFlightRevalidator
unfolding reserve hand_over
submit job s = after_reserve job (reserve job.key s)

-- What `wait_for_idle` waits for.
abbrev pub is_idle : SingleFlightRevalidator → Bool
is_idle s = elim s.inflight [ [] ↦ true | k ∷ ks ↦ false ]

unfoldable pub shutdown : SingleFlightRevalidator → SingleFlightRevalidator
shutdown s = record s { accepts = false }
