-- ===== src/Cache/Lookup.antt =====
-- `reuse` and `candidate_for_revalidation` of src/oncemesh/cache.py: the stores in order, and the
-- candidates of each in the order in which it lists them.
use once_mesh.Base.{
  suc, String, Bool, true, false, List, [], ◌∷◌, ◌++◌, Option, none, some, str_append,
}
use once_mesh.Base.Dict.{Dict}
use once_mesh.Base.Result.{Result, ok, raise, ◌>>=◌}
use once_mesh.Json.{Value}
use once_mesh.Canonical.Action.{Hexdigest, action_digest}
use once_mesh.Records.{Manifest, SourceValidation}
use once_mesh.Store.{Store, Bytes, catch_read}
use once_mesh.Cache.{Policy, new_traversal, Outcome, pass, reject, fail}
use once_mesh.Cache.Evaluate.{evaluate}

pub record LookupOutcome : Type 0 where
  pub hit : Bool
  pub tier : Option String
  pub manifest : Option Manifest
  pub artifacts : Dict Bytes
  pub rejections : List String
  pub validation : Option SourceValidation

-- f"{store.name}:{reason}"
abbrev pub tagged : Store → String → String
tagged store reason = str_append store.name (str_append ":" reason)

-- `LookupOutcome(False, None, None, {}, tuple(rejections))`
abbrev pub miss : List String → LookupOutcome
miss rejections = record {
  hit = false;
  tier = none;
  manifest = none;
  artifacts = [];
  rejections = rejections;
  validation = none;
}

-- How the loop over the candidates of a store ends: with a hit, or with the rejections so far.
pub data Scan : Type 0 where
  selected : LookupOutcome → Scan
  exhausted : List String → Scan

-- The validation that a hit reports: `candidate_for_revalidation` reports none.
abbrev pub reported : Bool → Option SourceValidation → Option SourceValidation
reported true validation = none
reported false validation = validation

-- The outcome for a candidate that passed.
abbrev pub hit_of :
    Bool → Store → Manifest → List String → Dict Bytes × Option SourceValidation → LookupOutcome
hit_of ignore_freshness store manifest rejections (artifacts, validation) = record {
  hit = true;
  tier = some store.name;
  manifest = some manifest;
  artifacts = artifacts;
  rejections = rejections;
  validation = reported ignore_freshness validation;
}

-- How the loop over the candidates goes on after the check of one.
unfoldable pub after_candidate :
    (Dict Bytes × Option SourceValidation → LookupOutcome)
    → (String → Result Scan)
    → Outcome (Dict Bytes × Option SourceValidation)
    → Result Scan
after_candidate hit next (pass admitted _) = ok (selected (hit admitted))
after_candidate hit next (reject reason _) = next reason
after_candidate hit next (fail e) = raise e

-- How the loop over the stores goes on after the candidates of one.
unfoldable pub after_store :
    (List String → Result LookupOutcome) → Result Scan → Result LookupOutcome
after_store next (ok (selected outcome)) = ok outcome
after_store next (ok (exhausted rejections)) = next rejections
after_store next (raise e) = raise e

module _ (hexdigest : Hexdigest) where
  -- `_evaluate` as the lookups call it: a new traversal, depth 0, and fuel for every depth that
  -- the policy allows and the one more at which it rejects.
  unfoldable pub evaluate_candidate :
      Policy
      → List Store
      → String
      → Manifest
      → Store
      → Bool
      → Outcome (Dict Bytes × Option SourceValidation)
  unfolding evaluate
  evaluate_candidate policy stores requested manifest store ignore_freshness =
      evaluate hexdigest (suc (suc policy.max_dependency_depth)) policy stores 0 requested manifest
        store ignore_freshness new_traversal

  module _ (policy : Policy) (stores : List Store) (requested : String)
      (ignore_freshness : Bool) where
    -- The loop over the candidates of one store.
    unfoldable pub scan_candidates : Store → List Manifest → List String → Result Scan
    unfolding after_candidate
    scan_candidates store [] rejections = ok (exhausted rejections)
    scan_candidates store (manifest ∷ rest) rejections =
        after_candidate (hit_of ignore_freshness store manifest rejections)
          (λ reason. scan_candidates store rest (rejections ++ tagged store reason ∷ []))
          (evaluate_candidate policy stores requested manifest store ignore_freshness)

    -- The loop over the stores.
    unfoldable pub scan_stores : List Store → List String → Result LookupOutcome
    unfolding after_store
    scan_stores [] rejections = ok (miss rejections)
    scan_stores (store ∷ rest) rejections =
        catch_read (store.candidates requested)
          (λ message. scan_stores rest (rejections ++ tagged store message ∷ []))
          (λ manifests. after_store (scan_stores rest) (scan_candidates store manifests rejections))

  unfoldable pub lookup_action : Bool → Value → List Store → Policy → Result LookupOutcome
  unfolding scan_stores
  lookup_action ignore_freshness action stores policy = do
    requested ← action_digest hexdigest action
    scan_stores policy stores requested ignore_freshness stores []

  unfoldable pub reuse : Value → List Store → Policy → Result LookupOutcome
  unfolding lookup_action
  reuse = lookup_action false

  unfoldable pub candidate_for_revalidation : Value → List Store → Policy → Result LookupOutcome
  unfolding lookup_action
  candidate_for_revalidation = lookup_action true
