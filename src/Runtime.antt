-- ===== src/Runtime.antt =====
-- src/oncemesh/runtime.py: execution of an action under a policy. This file has the state that a run
-- changes, which is the store to publish to and the sink of metrics, and what the runs share.
pub mod Decision
pub mod Receipts
pub mod Outcome
pub mod Deterministic
pub mod Rules
pub mod Attested
pub mod Conditional
pub mod Stale
pub mod Http
pub mod Background
pub mod Servable
pub mod Fetched
pub mod StaleServed
pub mod Served
pub mod Switched
pub mod Failed
pub mod Partitioned
pub mod Executed
pub mod Substituted
use once_mesh.Base.{
  ℕ, ◌+◌, ◌*◌, ◌≡◌, String, Bool, true, false, List, [], ◌∷◌, ◌++◌, Option, none, some, length,
}
use once_mesh.Base.Dict.{Dict}
use once_mesh.Base.Result.{Error, Result, ok, raise}
use once_mesh.Json.{Value}
use once_mesh.Canonical.Action.{Hexdigest}
use once_mesh.Records.{Manifest, SourceValidation}
use once_mesh.Store.{Bytes}
use once_mesh.Store.Memory.{MemoryStore, put_validation}
use once_mesh.Cache.Lookup.{LookupOutcome}
use once_mesh.Revalidation.{SingleFlightRevalidator}
use once_mesh.Cache.Publish.{Artifacts, publish_result}

-- `EvaluationEvent` of metrics.py, without its durations and costs, which are floats.
pub record EvaluationEvent : Type 0 where
  pub mode : String
  pub action_digest : String
  pub operation : Value
  pub candidate_hit : Bool
  pub tier : Option String
  pub artifact_match : Option Bool
  pub rejections : List String
  pub reusable_bytes : ℕ
  pub evaluation_id : Option String
  pub validation_method : Option String
  pub validation_status : Option ℕ
  pub validation_recorded : Bool
  pub substituted : Bool
  pub decision_reason : Option String
  pub kill_switch_active : Bool
  pub background_revalidation_scheduled : Bool
  pub background_revalidation_coalesced : Bool

-- What a run changes: `publish_to`, the events of `InMemoryMetrics`, and the coordinator of
-- revalidations.
pub record World : Type 0 where
  pub publish_to : Option MemoryStore
  pub events : List EvaluationEvent
  pub coordinator : Option SingleFlightRevalidator

-- A run may raise; the world keeps what was written until then.
abbrev pub Run : Type 0 → Type 0
Run A = World → Result A × World

abbrev pub returns : {A : Type 0} → A → Run A
returns a w = (ok a, w)

abbrev pub and_then : {A B : Type 0} → Result A × World → (A → Run B) → Result B × World
and_then (ok a, w) f = f a w
and_then (raise e, w) f = (raise e, w)

infixl 5 ◌>>=◌ ◌>>◌
abbrev pub ◌>>=◌ : {A B : Type 0} → Run A → (A → Run B) → Run B
◌>>=◌ m f w = and_then (m w) f

abbrev pub ◌>>◌ : {B : Type 0} → Run (Unit {0}) → Run B → Run B
m >> n = m >>= λ _. n

-- A call that changes nothing.
abbrev pub call : {A : Type 0} → Result A → Run A
call r w = (r, w)

-- `metrics.record(event)`
unfoldable pub record_event : EvaluationEvent → Run (Unit {0})
record_event event w = (ok tt, record w { events = w.events ++ event ∷ [] })

abbrev pub stored_in : {A : Type 0} → World → Result A × MemoryStore → Result (Unit {0}) × World
stored_in w (ok a, s) = (ok tt, record w { publish_to = some s })
stored_in w (raise e, s) = (raise e, record w { publish_to = some s })

-- `if publish_to is not None: publish_result(publish_to, …)`
unfoldable pub publish : Hexdigest → Value → Artifacts → String → ℕ → ℕ → Run (Unit {0})
publish hexdigest action artifacts producer produced_at fresh_until w = elim w.publish_to [
  | none ↦ (ok tt, w)
  | some s ↦
      stored_in w
        (publish_result hexdigest action artifacts producer produced_at (some fresh_until) none s)
]

-- `timedelta(seconds=…)` in microseconds
abbrev pub seconds : ℕ → ℕ
seconds n = n * 1000000

-- `sum(len(value) for value in …)`
unfoldable pub total_bytes : Dict Bytes → ℕ
total_bytes [] = 0
total_bytes ((name, bytes) ∷ rest) = length bytes + total_bytes rest
