-- ===== src/Tests.antt =====
-- The theorems at a concrete store, action and policy, and runs of the lookup on them.
pub mod Policies
pub mod Keys
pub mod Receipts
pub mod Deterministic
pub mod Fetches
pub mod Executions
pub mod Partitions
use once_mesh.Base.{
  ℕ, zero, suc, ◌+◌, ◌≡◌, refl, inl, inr, ◌⊎◌, String, Bool, true, false, List, [], ◌∷◌, Option,
  none, some, In, here, All, length, nat_eq, if◌then◌else◌, arith,
}
use once_mesh.Base.Dict.{Dict}
use once_mesh.Base.Result.{Result, ok}
use once_mesh.Json.{Value, str, obj, field, end}
use once_mesh.Time.{instant}
use once_mesh.Time.Format.{format_time}
use once_mesh.Canonical.Action.{Hexdigest, action_digest}
use once_mesh.Records.{Manifest, digest_of}
use once_mesh.Store.{Store, Bytes}
use once_mesh.Store.Memory.{MemoryStore, empty, as_store, invalidations}
use once_mesh.Cache.{Policy, Traversal, new_traversal}
use once_mesh.Cache.Publish.{Artifacts, publish_result, publish_invalidation}
use once_mesh.Cache.Lookup.{
  LookupOutcome, miss, reuse, candidate_for_revalidation, evaluate_candidate,
}
use once_mesh.Cache.Evaluate.{evaluate}
use once_mesh.Cache.Reuse.{
  IsHit, IsRejected, reuse-IsHit, candidate_for_revalidation-IsHit, reuse-misses-IsRejected,
}
use once_mesh.Cache.Depth.{evaluate_candidate-fuel}
use once_mesh.Cache.Edges.{Ends, evaluate-Ends}
use once_mesh.Cache.Roundtrip.{fresh_hit, reuse-publish_result}
use once_mesh.Cache.Revoked.{reuse-publish_invalidation}
use once_mesh.Cache.Publish.{publish_invalidation}
use once_mesh.Records.{digest_of}
use once_mesh.Index.{publish_and_activate, activate, delete, active_revision, clear_all}
use once_mesh.Index.Entries.{NativeKey, EntryTable, IndexEntry, blank}
use once_mesh.Index.{clear_namespace}
use once_mesh.Index.Entries.{entry_at, same_namespace}
use once_mesh.Index.Clear.{IsRetired, entry_at-clear_namespace}
use once_mesh.Index.Moves.{
  Reach, here as stays, next, published as published_step, deleted, AreLater, Reach-AreLater,
  delete-IsFinal, by_clear_namespace,
}

-- A digest that tells the bytes of the page from longer texts.
abbrev toy_hexdigest : Hexdigest
toy_hexdigest bytes =
    if nat_eq (length bytes) 2
    then "0000000000000000000000000000000000000000000000000000000000000002"
    else "000000000000000000000000000000000000000000000000000000000000000f"

abbrev fetch_action : Value
fetch_action = obj (
    field "spec_version" (str "oncemesh.action/v0") (
      field "operation" (obj (field "name" (str "fetch") (field "version" (str "1") end))) (
        field "inputs" (obj end) (
          field "executor"
            (obj (
              field "name" (str "http") (field "version" (str "1") (field "config" (obj end) end))))
            (field "output_schema" (str "bytes") (field "vary" (obj end) end))))))

abbrev page : Artifacts
page = ("body", (104 ∷ 105 ∷ [], "text/plain")) ∷ []

abbrev monday : ℕ
monday = 63800000000000000

abbrev policy : Policy
policy = record {
  now = monday;
  trusted_producers = some ("alice" ∷ []);
  trusted_validation_producers = none;
  trusted_invalidation_producers = none;
  permit_no_expiry = false;
  require_lineage = false;
  max_dependency_depth = 4;
  max_dependency_count = 16;
}

abbrev published : Result Manifest × MemoryStore
published =
    publish_result toy_hexdigest fetch_action page "alice" monday (some monday) none (empty "local")

program : Unit {0}
unfolding once_mesh.Cache.trusts once_mesh.Cache.Evaluate.find_invalidation
    once_mesh.Cache.Evaluate.find_validation once_mesh.Cache.Evaluate.manifest_is_fresh
    once_mesh.Cache.Evaluate.stale once_mesh.Cache.Evaluate.or_stale
    once_mesh.Cache.Evaluate.compare_exact once_mesh.Cache.Evaluate.propagated
    once_mesh.Cache.Evaluate.count_edge once_mesh.Cache.Evaluate.enter
    once_mesh.Cache.Evaluate.check_found once_mesh.Cache.Evaluate.remove_active
    once_mesh.Cache.Evaluate.deactivate once_mesh.Cache.Evaluate.finally_deactivate
    once_mesh.Cache.Evaluate.active_digests once_mesh.Cache.Evaluate.effective_invalidated
    once_mesh.Cache.Evaluate.check_located once_mesh.Cache.Evaluate.locate_from
    once_mesh.Cache.Evaluate.locate_result once_mesh.Cache.Evaluate.gate
    once_mesh.Cache.Evaluate.check_invalidation_state once_mesh.Cache.Evaluate.after_test
    once_mesh.Cache.Evaluate.check_freshness once_mesh.Cache.Evaluate.check_blob
    once_mesh.Cache.Evaluate.collect_artifacts once_mesh.Cache.Evaluate.check_dependencies
    once_mesh.Cache.Evaluate.check_lineage once_mesh.Cache.Evaluate.evaluate
    once_mesh.Cache.Lookup.after_candidate once_mesh.Cache.Lookup.after_store
    once_mesh.Cache.Lookup.evaluate_candidate once_mesh.Cache.Lookup.scan_candidates
    once_mesh.Cache.Lookup.scan_stores once_mesh.Cache.Lookup.lookup_action
    once_mesh.Cache.Lookup.reuse once_mesh.Cache.Lookup.candidate_for_revalidation
    once_mesh.Cache.Publish.publish_artifacts once_mesh.Cache.Publish.publish_manifest
    once_mesh.Cache.Publish.publish_described once_mesh.Cache.Publish.publish_result
    once_mesh.Cache.Publish.publish_invalidation once_mesh.Canonical.Action.digest_bytes
    once_mesh.Canonical.Action.object_digest once_mesh.Canonical.Action.validate_action
    once_mesh.Canonical.Action.action_digest once_mesh.Canonical.Checks.is_prefixed_hex
    once_mesh.Canonical.Checks.is_digest once_mesh.Canonical.Checks.same_keys
    once_mesh.Canonical.Checks.require_exact_keys once_mesh.Canonical.Checks.require_nonempty_string
    once_mesh.Canonical.Checks.require_utc_timestamp once_mesh.Canonical.Encode.codes_lt
    once_mesh.Canonical.Encode.text_lt once_mesh.Canonical.Encode.insert_by_key
    once_mesh.Canonical.Encode.sort_by_key once_mesh.Canonical.Encode.encode_utf8
    once_mesh.Canonical.Encode.canonical_json once_mesh.Canonical.Manifest.validate_manifest
    once_mesh.Canonical.Manifest.manifest_digest
    once_mesh.Canonical.Records.validate_source_validation
    once_mesh.Canonical.Records.validate_invalidation once_mesh.Canonical.Records.validation_digest
    once_mesh.Canonical.Records.invalidation_digest once_mesh.Index.validate_native
    once_mesh.Index.generation once_mesh.Index.is_active once_mesh.Index.active_revision
    once_mesh.Index.prepare_put once_mesh.Index.activate once_mesh.Index.publish_and_activate
    once_mesh.Index.delete once_mesh.Index.retire_where once_mesh.Index.clear_namespace
    once_mesh.Index.clear_all once_mesh.Index.listed_keys once_mesh.Index.active_keys
    once_mesh.Index.Entries.same_namespace once_mesh.Index.Entries.same_native
    once_mesh.Index.Entries.entry_at once_mesh.Index.Entries.write_entry
    once_mesh.Records.encode_manifest once_mesh.Records.encode_validation
    once_mesh.Records.encode_invalidation once_mesh.Records.check_manifest
    once_mesh.Records.check_validation once_mesh.Records.check_invalidation
    once_mesh.Records.digest_of once_mesh.Store.Memory.listed_at once_mesh.Store.Memory.append_at
    once_mesh.Store.Memory.put_blob once_mesh.Store.Memory.put_result
    once_mesh.Store.Memory.put_validation once_mesh.Store.Memory.put_invalidation
    once_mesh.Store.Memory.get_blob once_mesh.Store.Memory.candidates once_mesh.Store.Memory.result
    once_mesh.Store.Memory.validations once_mesh.Store.Memory.invalidations
    once_mesh.Store.Memory.as_store once_mesh.Time.instant once_mesh.Time.parse_time
    once_mesh.Time.Format.format_time once_mesh.Base.Dict.lookup once_mesh.Base.Dict.insert
    once_mesh.Base.contains once_mesh.Base.all_distinct
program = tt

abbrev body_manifest : Manifest
body_manifest = record {
  spec_version = "oncemesh.result/v0";
  action_digest = "sha256:000000000000000000000000000000000000000000000000000000000000000f";
  artifacts =
      record {
        name = "body";
        digest = "sha256:0000000000000000000000000000000000000000000000000000000000000002";
        size = 2;
        media_type = "text/plain";
      }
      ∷ [];
  produced_at = "2022-09-28T22:13:20Z";
  fresh_until = some "2022-09-28T22:13:20Z";
  producer = "alice";
  dependencies = none;
}

abbrev stored : MemoryStore
stored = record (empty "local") {
  blobs =
      ("sha256:0000000000000000000000000000000000000000000000000000000000000002", 104 ∷ 105 ∷ [])
      ∷ [];
  results =
      (
        "sha256:000000000000000000000000000000000000000000000000000000000000000f",
        body_manifest ∷ [],
      )
      ∷ [];
  results_by_digest =
      ("sha256:000000000000000000000000000000000000000000000000000000000000000f", body_manifest)
      ∷ [];
}

publish_page : published ≡ (ok body_manifest, stored)
unfolding program
publish_page = refl

abbrev tiers : List Store
tiers = as_store stored ∷ []

abbrev body_hit : LookupOutcome
body_hit = fresh_hit "local" body_manifest (("body", 104 ∷ 105 ∷ []) ∷ [])

reuse_page : reuse toy_hexdigest fetch_action tiers policy ≡ ok body_hit
unfolding program
reuse_page = refl

-- one microsecond later the result has expired, and may still be revalidated
abbrev later : Policy
later = record policy { now = monday + 1 }

expired_run :
    (reuse toy_hexdigest fetch_action tiers later ≡ ok (miss ("local:expired" ∷ [])))
    × (candidate_for_revalidation toy_hexdigest fetch_action tiers later ≡ ok body_hit)
unfolding program
expired_run = (refl, refl)

abbrev wary : Policy
wary = record policy { trusted_producers = some ("bob" ∷ []) }

untrusted_run :
    reuse toy_hexdigest fetch_action tiers wary ≡ ok (miss ("local:untrusted_producer" ∷ []))
unfolding program
untrusted_run = refl

reuse-IsHit_example :
    (requested : String) × (action_digest toy_hexdigest fetch_action ≡ ok requested)
    × IsHit toy_hexdigest policy tiers requested false body_hit
reuse-IsHit_example = reuse-IsHit toy_hexdigest fetch_action tiers policy body_hit reuse_page refl

candidate_for_revalidation-IsHit_example :
    (requested : String) × (action_digest toy_hexdigest fetch_action ≡ ok requested)
    × IsHit toy_hexdigest later tiers requested true body_hit
candidate_for_revalidation-IsHit_example =
    candidate_for_revalidation-IsHit toy_hexdigest fetch_action tiers later body_hit expired_run.1
      refl

reuse-misses-IsRejected_example :
    IsRejected toy_hexdigest wary tiers body_manifest.action_digest false
      (as_store stored)
      body_manifest
unfolding program
reuse-misses-IsRejected_example =
    reuse-misses-IsRejected toy_hexdigest fetch_action tiers wary
      (miss ("local:untrusted_producer" ∷ [])) body_manifest.action_digest (as_store stored)
      (body_manifest ∷ []) body_manifest untrusted_run refl refl here refl here

evaluate_candidate-fuel_example :
    evaluate toy_hexdigest 9 policy tiers 0 body_manifest.action_digest body_manifest
      (as_store stored)
      false
      new_traversal
    ≡ evaluate_candidate toy_hexdigest policy tiers body_manifest.action_digest body_manifest
        (as_store stored)
        false
evaluate_candidate-fuel_example =
    evaluate_candidate-fuel toy_hexdigest policy tiers body_manifest.action_digest body_manifest
      (as_store stored) false 9 (omega arith)

evaluate-Ends_example : Ends policy new_traversal (
    evaluate toy_hexdigest 6 policy tiers 0 body_manifest.action_digest body_manifest
      (as_store stored)
      false
      new_traversal)
evaluate-Ends_example =
    evaluate-Ends toy_hexdigest policy 6 tiers 0 body_manifest.action_digest body_manifest
      (as_store stored) false new_traversal

reuse-publish_result_example : reuse toy_hexdigest fetch_action tiers policy ≡ ok body_hit
unfolding program
reuse-publish_result_example =
    reuse-publish_result toy_hexdigest fetch_action page "alice" monday monday (empty "local")
      stored [] policy body_manifest refl (((λ _. refl), tt), tt) (λ exact h. refl) here refl
      (omega arith) refl publish_page

abbrev native_key : NativeKey
native_key = ("tenant" ∷ [], "answer")

abbrev with_answer : EntryTable
with_answer =
    (native_key, record { generation = 0; active = true; publication_id = some "p0" }) ∷ []

abbrev without_answer : EntryTable
without_answer = (native_key, record { generation = 1; active = false; publication_id = none }) ∷ []

abbrev answered_again : EntryTable
answered_again =
    (native_key, record { generation = 1; active = true; publication_id = some "p1" }) ∷ []

abbrev accept : ℕ → String → Result (Unit {0})
accept generation publication_id = ok tt

index_runs :
    (publish_and_activate native_key accept "p0" [] ≡ ok (0, with_answer))
    × (delete native_key with_answer ≡ ok (true, without_answer))
    × (publish_and_activate native_key accept "p1" without_answer ≡ ok (1, answered_again))
unfolding program
index_runs = (refl, refl, refl)

again : Reach without_answer answered_again
again = next stays (published_step native_key accept "p1" 1 index_runs.2)

Reach-AreLater_example : AreLater with_answer answered_again
Reach-AreLater_example = Reach-AreLater (
    next (next stays (deleted native_key true index_runs.1))
      (published_step native_key accept "p1" 1 index_runs.2))

delete-IsFinal_example : ¬ active_revision native_key answered_again ≡ ok (some (0, some "p0"))
unfolding program
delete-IsFinal_example =
    delete-IsFinal native_key (0, some "p0") with_answer without_answer answered_again refl
      (by_clear_namespace refl) again

entry_at-clear_namespace_example :
    IsRetired
      (native_key.0 ≡ "tenant" ∷ [])
      (entry_at native_key with_answer)
      (entry_at native_key (clear_namespace ("tenant" ∷ []) with_answer).1)
    × IsRetired
        (Unit {0})
        (entry_at native_key with_answer)
        (entry_at native_key (clear_all with_answer).1)
entry_at-clear_namespace_example = entry_at-clear_namespace native_key ("tenant" ∷ []) with_answer

abbrev page_digest : String
page_digest = "sha256:000000000000000000000000000000000000000000000000000000000000000f"

abbrev other_digest : String
other_digest = "sha256:0000000000000000000000000000000000000000000000000000000000000001"

abbrev with_signal : String → MemoryStore
with_signal digest = record stored {
  invalidations =
      (
        digest,
        record {
          result_digest = digest;
          invalidated_at = "2022-09-28T22:13:20Z";
          producer = "alice";
          reason = "wrong";
        }
            ∷ [],
      )
      ∷ [];
}

signal_runs :
    (publish_invalidation page_digest "alice" monday "wrong" stored ≡ ok (with_signal page_digest))
    × (reuse toy_hexdigest fetch_action (as_store (with_signal page_digest) ∷ []) policy
        ≡ ok (miss ("local:invalidated" ∷ [])))
    × (publish_invalidation other_digest "alice" monday "wrong" stored
        ≡ ok (with_signal other_digest))
    × (reuse toy_hexdigest fetch_action (as_store (with_signal other_digest) ∷ []) policy
        ≡ ok body_hit)
unfolding program
signal_runs = (refl, refl, refl, refl)

reuse-publish_invalidation_example : ¬ digest_of toy_hexdigest body_manifest ≡ ok other_digest
unfolding program
reuse-publish_invalidation_example =
    reuse-publish_invalidation toy_hexdigest fetch_action policy other_digest "alice" "wrong" monday
      stored (with_signal other_digest) body_hit body_manifest signal_runs.2 here refl (omega arith)
      signal_runs.3 refl refl
