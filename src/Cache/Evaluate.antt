-- ===== src/Cache/Evaluate.antt =====
-- `_effective_invalidated`, `_locate_result` and `_evaluate` of src/oncemesh/cache.py.
use once_mesh.Base.{
  ℕ, zero, suc, ◌+◌, String, Bool, true, false, not, ◌&&◌, ◌||◌, List, [], ◌∷◌, Option, none, some,
  str_append, ◌==◌, starts_with, ltb, leb, nat_eq, if◌then◌else◌, contains, length,
}
use once_mesh.Base.Dict.{Dict}
use once_mesh.Base.Result
use once_mesh.Base.Result.{
  Error, Result, ok, raise, value_error, key_error, type_error, store_read_error, runtime_error,
  out_of_fuel,
}
use once_mesh.Time.{parse_time}
use once_mesh.Canonical.Action.{Hexdigest, digest_bytes}
use once_mesh.Canonical.Manifest.{result_v1}
use once_mesh.Records.{
  Descriptor, Dependency, Manifest, SourceValidation, Invalidation, check_manifest, digest_of,
}
use once_mesh.Store.{Store, Bytes, catch_read}
use once_mesh.Cache.{
  Policy, trusts, Traversal, Outcome, pass, reject, fail, Check, ◌>>=◌, ◌>>◌, reject_if,
  reject_some, lift, or_reject, or_reject_read,
}

-- `special if special is not None else policy.trusted_producers`
abbrev pub trust_or : Option (List String) → Option (List String) → Option (List String)
trust_or none fallback = fallback
trust_or (some producers) fallback = some producers

-- The loop over the records of `_effective_invalidated`.
unfoldable pub find_invalidation :
    Option (List String) → ℕ → List Invalidation → Result (Option String)
find_invalidation trust now [] = ok none
find_invalidation trust now (signal ∷ rest) =
    let later = find_invalidation trust now rest in
    if trusts trust signal.producer
    then Result.◌>>=◌ (parse_time signal.invalidated_at)
        (λ at. if leb at now then ok (some "invalidated") else later)
    else later

-- The loop over the validations of `_evaluate`: the first that is trusted and not over.
unfoldable pub find_validation :
    Option (List String) → ℕ → List SourceValidation → Result (Option SourceValidation)
find_validation trust now [] = ok none
find_validation trust now (validation ∷ rest) =
    let later = find_validation trust now rest in
    if trusts trust validation.producer
    then Result.◌>>=◌ (parse_time validation.fresh_until)
        (λ until. if leb now until then ok (some validation) else later)
    else later

-- `fresh_until is not None and _parse_time(fresh_until) >= now`
unfoldable pub manifest_is_fresh : Option String → ℕ → Result Bool
manifest_is_fresh none now = ok false
manifest_is_fresh (some text) now = Result.◌>>=◌ (parse_time text) (λ until. ok (leb now until))

-- The end of the freshness block, where nothing makes the manifest fresh.
unfoldable pub stale : Option String → Bool → Check (Option SourceValidation)
stale none true = pass none
stale none false = reject "missing_freshness_rule"
stale (some text) permit_no_expiry = reject "expired"

unfoldable pub or_stale :
    Option SourceValidation → Option String → Bool → Check (Option SourceValidation)
unfolding stale
or_stale (some validation) fresh_until permit_no_expiry = pass (some validation)
or_stale none fresh_until permit_no_expiry = stale fresh_until permit_no_expiry

pub data Located : Type 0 where
  found : Manifest → Store → Located
  failure : String → Located

-- The comparison in `_locate_result`, under its `try`.
unfoldable pub compare_exact : String → Manifest → Store → Result String → Result Located
compare_exact result_digest manifest store (ok exact) =
    ok (
      if exact == result_digest then found manifest store else failure "dependency_digest_mismatch")
compare_exact result_digest manifest store (raise (value_error _)) =
    ok (failure "dependency_invalid_manifest")
compare_exact result_digest manifest store (raise e) = raise e

-- `dependency_failure` with its prefix
unfoldable pub propagated : String → String
propagated reason =
    if starts_with reason "dependency_" then reason else str_append "dependency_" reason

abbrev pub Evaluator : Type 0
Evaluator = Manifest → Store → Check (Dict Bytes × Option SourceValidation)

-- `traversal.edges += 1` and its test
unfoldable pub count_edge : Policy → Check (Unit {0})
count_edge policy traversal =
    let edges = traversal.edges + 1 in
    reject_if (ltb policy.max_dependency_count edges) "dependency_count_exceeded"
      (record traversal { edges = edges })

-- How the end of a dependency's `_evaluate` ends the round of the loop.
unfoldable pub enter {ℓ} : {A : Type ℓ} → Outcome A → Outcome (Unit {0})
enter (pass _ traversal) = pass tt traversal
enter (reject reason traversal) = reject (propagated reason) traversal
enter (fail e) = fail e

unfoldable pub check_found : Evaluator → Located → Check (Unit {0})
unfolding enter
check_found evaluate_one (failure reason) traversal = reject reason traversal
check_found evaluate_one (found manifest store) traversal =
    enter (evaluate_one manifest store traversal)

-- `set.remove`
unfoldable pub remove_active : String → List String → List String
remove_active exact [] = []
remove_active exact (d ∷ ds) = if d == exact then ds else d ∷ remove_active exact ds

unfoldable pub deactivate : String → Traversal → Traversal
deactivate exact traversal = record traversal { active = remove_active exact traversal.active }

-- `finally: traversal.active.remove(exact)`
unfoldable pub finally_deactivate {ℓ} : {A : Type ℓ} → String → Outcome A → Outcome A
unfolding remove_active deactivate
finally_deactivate exact (pass a traversal) = pass a (deactivate exact traversal)
finally_deactivate exact (reject reason traversal) = reject reason (deactivate exact traversal)
finally_deactivate exact (fail e) = fail e

-- `manifest["dependencies"]`, which a validated v1 manifest has.
abbrev pub listed : Option (List Dependency) → List Dependency
listed none = []
listed (some ds) = ds

-- `traversal.active`
unfoldable pub active_digests : Check (List String)
active_digests traversal = pass traversal.active traversal

module _ (hexdigest : Hexdigest) where
  unfoldable pub effective_invalidated : Manifest → Store → Policy → Bool → Result (Option String)
  effective_invalidated manifest store policy required = elim store.invalidations [
    | none ↦ ok (if required then some "invalidation_lookup_unsupported" else none)
    | some reader ↦
        catch_read (Result.◌>>=◌ (digest_of hexdigest manifest) reader)
          (λ _. ok (some "invalidation_read_failed"))
          (find_invalidation
            (trust_or policy.trusted_invalidation_producers policy.trusted_producers) policy.now)
  ]

  -- The checks on a manifest that a store returned for the digest.
  unfoldable pub check_located : String → Manifest → Store → Result Located
  unfolding compare_exact
  check_located result_digest manifest store =
      compare_exact result_digest manifest store
        (Result.◌>>=◌ (check_manifest manifest) (λ _. digest_of hexdigest manifest))

  -- `_locate_result`, with the values of `read_failed` and `supported` so far.
  unfoldable pub locate_from : Bool → Bool → String → List Store → Result Located
  unfolding check_located
  locate_from read_failed supported result_digest [] = ok (
      if read_failed
      then failure "dependency_read_failed"
      else if not supported
      then failure "dependency_lookup_unsupported"
      else failure "dependency_missing")
  locate_from read_failed supported result_digest (store ∷ rest) = elim store.result [
    | none ↦ locate_from read_failed supported result_digest rest
    | some reader ↦
        catch_read (reader result_digest) (λ _. locate_from true true result_digest rest)
          (λ answer. elim answer [
            | none ↦ locate_from read_failed true result_digest rest
            | some manifest ↦ check_located result_digest manifest store
          ])
  ]

  unfoldable pub locate_result : String → List Store → Result Located
  unfolding locate_from
  locate_result = locate_from false false

  -- The checks of `_evaluate` up to the producer; the result is the exact digest.
  unfoldable pub gate : ℕ → String → Manifest → Policy → Check String
  unfolding active_digests
  gate depth requested manifest policy = do
    or_reject (check_manifest manifest) "invalid_manifest"
    reject_if (not (manifest.action_digest == requested)) "action_digest_mismatch"
    reject_if (policy.require_lineage && not (manifest.spec_version == result_v1))
        "lineage_required"
    exact ← lift (digest_of hexdigest manifest)
    reject_if (ltb policy.max_dependency_depth depth) "dependency_depth_exceeded"
    active ← active_digests
    reject_if (contains active exact) "dependency_cycle"
    reject_if (not (trusts policy.trusted_producers manifest.producer)) "untrusted_producer"
    pass exact

  unfoldable pub check_invalidation_state : ℕ → Manifest → Store → Policy → Check (Unit {0})
  check_invalidation_state depth manifest store policy = do
    invalidation ← lift (
        effective_invalidated manifest store policy
          (manifest.spec_version == result_v1 || ltb 0 depth))
    reject_some invalidation

  -- The freshness block, after the test of the manifest's own `fresh_until`.
  unfoldable pub after_test : Manifest → Store → Policy → Bool → Check (Option SourceValidation)
  unfolding or_stale
  after_test manifest store policy true = pass none
  after_test manifest store policy false = do
    validations ←
        or_reject_read (Result.◌>>=◌ (digest_of hexdigest manifest) store.validations)
          "validation_read_failed"
    selected ← lift (
        find_validation (trust_or policy.trusted_validation_producers policy.trusted_producers)
          policy.now validations)
    or_stale selected manifest.fresh_until policy.permit_no_expiry

  -- The freshness block, skipped where freshness is ignored.
  unfoldable pub check_freshness :
      Manifest → Store → Policy → Bool → Check (Option SourceValidation)
  unfolding after_test
  check_freshness manifest store policy true = pass none
  check_freshness manifest store policy false = do
    fresh ← lift (manifest_is_fresh manifest.fresh_until policy.now)
    after_test manifest store policy fresh

  -- What the loop over the artifacts does with what the store returned for one of them.
  unfoldable pub check_blob : Descriptor → Option Bytes → Check Bytes
  check_blob descriptor none = reject "artifact_missing"
  check_blob descriptor (some blob) = do
    reject_if
        (not (nat_eq (length blob) descriptor.size)
          || not (digest_bytes hexdigest blob == descriptor.digest))
        "artifact_integrity_failure"
    pass blob

  -- The loop over the artifacts. A name is new when it is added, so the dict grows at its end.
  unfoldable pub collect_artifacts : Store → List String → List Descriptor → Check (Dict Bytes)
  unfolding check_blob
  collect_artifacts store names [] = pass []
  collect_artifacts store names (descriptor ∷ rest) = do
    reject_if (contains names descriptor.name) "invalid_artifact_name"
    value ← lift (store.get_blob descriptor.digest)
    blob ← check_blob descriptor value
    artifacts ← collect_artifacts store (descriptor.name ∷ names) rest
    pass ((descriptor.name, blob) ∷ artifacts)

  -- The loop over the dependencies; `evaluate_one` is `_evaluate` one level deeper.
  unfoldable pub check_dependencies :
      Evaluator → Policy → List Store → List Dependency → Check (Unit {0})
  unfolding count_edge check_found
  check_dependencies evaluate_one policy stores [] = pass tt
  check_dependencies evaluate_one policy stores (dependency ∷ rest) = do
    count_edge policy
    located ← lift (locate_result dependency.result_digest stores)
    check_found evaluate_one located
    check_dependencies evaluate_one policy stores rest

  -- The block under `if manifest["spec_version"] == "oncemesh.result/v1"`.
  unfoldable pub check_lineage :
      Evaluator → String → Manifest → Policy → List Store → Check (Unit {0})
  unfolding finally_deactivate
  check_lineage evaluate_one exact manifest policy stores traversal =
      if manifest.spec_version == result_v1
      then finally_deactivate exact (
          check_dependencies evaluate_one policy stores (listed manifest.dependencies)
            (record traversal { active = exact ∷ traversal.active }))
      else pass tt traversal

  -- `_evaluate`. The fuel bounds the depth of the recursion.
  unfoldable pub evaluate :
      ℕ
      → Policy
      → List Store
      → ℕ
      → String
      → Manifest
      → Store
      → Bool
      → Check (Dict Bytes × Option SourceValidation)
  evaluate zero policy stores depth requested manifest store ignore_freshness =
      λ traversal. fail out_of_fuel
  evaluate (suc fuel) policy stores depth requested manifest store ignore_freshness = do
    exact ← gate depth requested manifest policy
    check_invalidation_state depth manifest store policy
    selected ← check_freshness manifest store policy ignore_freshness
    artifacts ← collect_artifacts store [] manifest.artifacts
    check_lineage (λ m s. evaluate fuel policy stores (suc depth) m.action_digest m s false) exact
        manifest policy stores
    pass (artifacts, selected)
