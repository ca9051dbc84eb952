-- ===== src/Tests/Deterministic.antt =====
-- Runs of `execute_deterministic_with_policy` of src/oncemesh/runtime.py, and its theorems at them.
use once_mesh.Base.{
  ℕ, ◌+◌, ◌*◌, ◌≡◌, ◌≢◌, ◌⊎◌, inl, inr, refl, String, Bool, true, false, List, [], ◌∷◌, ◌++◌,
  Option, none, some, same_codes, arith,
}
use once_mesh.Base.Dict.{Dict}
use once_mesh.Base.Result.{ok, raise, runtime_error}
use once_mesh.Json.{Value, str, int, bool, arr, obj, nil, cons, end, field, pos}
use once_mesh.Canonical.Action.{Hexdigest, action_digest}
use once_mesh.Records.{Manifest, SourceValidation}
use once_mesh.Receipt.{Signature, Receipt, Ed25519}
use once_mesh.Store.{Store}
use once_mesh.Store.Memory.{MemoryStore, empty, as_store}
use once_mesh.Cache.Lookup.{LookupOutcome}
use once_mesh.Cache.Publish.{Artifacts}
use once_mesh.Revalidation.{Job}
use once_mesh.Runtime.{World}
use once_mesh.Runtime.Deterministic.{execute_and_record, execute_deterministic_with_policy}
use once_mesh.Runtime.Outcome.{
  ExecutionOutcome, Setting, executed_outcome, execute_event, substitute_event,
}
use once_mesh.Runtime.Substituted.{IsJustified, execute_deterministic_with_policy-IsJustified}
use once_mesh.Runtime.Failed.{LeavesNoTrace, execute_deterministic_with_policy-LeavesNoTrace}
use once_mesh.Runtime.Switched.{IsPlain, execute_deterministic_with_policy-IsPlain}
use once_mesh.Policy.Registry.{kill_switch}

program : Unit {0}
unfolding once_mesh.Base64.sextet_code once_mesh.Base64.code_sextet once_mesh.Base64.is_code
    once_mesh.Base64.is_key_text once_mesh.Base64.decode_groups once_mesh.Base64.encode_groups
    once_mesh.Base64.char_of once_mesh.Base64.text_from once_mesh.Base64.encode_text
    once_mesh.Receipt.is_signature_text once_mesh.Receipt.decode_signature
    once_mesh.Receipt.validate_signature once_mesh.Receipt.check_signature
    once_mesh.Receipt.validate_receipt once_mesh.Receipt.encode_receipt
    once_mesh.Receipt.check_receipt once_mesh.Receipt.signing_input once_mesh.Receipt.receipt_digest
    once_mesh.Receipt.raw_public_key once_mesh.Receipt.sign_receipt
    once_mesh.Receipt.verify_signature once_mesh.Receipt.verify_receipt
    once_mesh.Receipt.Verify.verify_receipt_for_manifest once_mesh.Canonical.Action.digest_bytes
    once_mesh.Canonical.Action.object_digest once_mesh.Canonical.Action.validate_action
    once_mesh.Canonical.Action.action_digest once_mesh.Canonical.Checks.is_prefixed_hex
    once_mesh.Canonical.Checks.is_digest once_mesh.Canonical.Checks.same_keys
    once_mesh.Canonical.Checks.require_exact_keys once_mesh.Canonical.Checks.require_nonempty_string
    once_mesh.Canonical.Checks.require_utc_timestamp once_mesh.Canonical.Encode.dump_int
    once_mesh.Canonical.Encode.codes_lt once_mesh.Canonical.Encode.text_lt
    once_mesh.Canonical.Encode.insert_by_key once_mesh.Canonical.Encode.sort_by_key
    once_mesh.Canonical.Encode.encode_utf8 once_mesh.Canonical.Encode.canonical_json
    once_mesh.Canonical.Manifest.validate_manifest once_mesh.Canonical.Manifest.manifest_digest
    once_mesh.Canonical.Records.validate_source_validation
    once_mesh.Canonical.Records.validate_invalidation once_mesh.Canonical.Records.validation_digest
    once_mesh.Canonical.Records.invalidation_digest once_mesh.Records.encode_manifest
    once_mesh.Records.encode_validation once_mesh.Records.encode_invalidation
    once_mesh.Records.check_manifest once_mesh.Records.check_validation
    once_mesh.Records.check_invalidation once_mesh.Records.digest_of
    once_mesh.Store.Memory.listed_at once_mesh.Store.Memory.append_at
    once_mesh.Store.Memory.put_blob once_mesh.Store.Memory.put_result
    once_mesh.Store.Memory.put_validation once_mesh.Store.Memory.put_invalidation
    once_mesh.Store.Memory.put_receipt once_mesh.Store.Memory.get_blob
    once_mesh.Store.Memory.candidates once_mesh.Store.Memory.result
    once_mesh.Store.Memory.validations once_mesh.Store.Memory.invalidations
    once_mesh.Store.Memory.receipts once_mesh.Store.Memory.as_store once_mesh.Cache.trusts
    once_mesh.Cache.Evaluate.find_invalidation once_mesh.Cache.Evaluate.find_validation
    once_mesh.Cache.Evaluate.manifest_is_fresh once_mesh.Cache.Evaluate.stale
    once_mesh.Cache.Evaluate.or_stale once_mesh.Cache.Evaluate.compare_exact
    once_mesh.Cache.Evaluate.propagated once_mesh.Cache.Evaluate.count_edge
    once_mesh.Cache.Evaluate.enter once_mesh.Cache.Evaluate.check_found
    once_mesh.Cache.Evaluate.remove_active once_mesh.Cache.Evaluate.deactivate
    once_mesh.Cache.Evaluate.finally_deactivate once_mesh.Cache.Evaluate.active_digests
    once_mesh.Cache.Evaluate.effective_invalidated once_mesh.Cache.Evaluate.check_located
    once_mesh.Cache.Evaluate.locate_from once_mesh.Cache.Evaluate.locate_result
    once_mesh.Cache.Evaluate.gate once_mesh.Cache.Evaluate.check_invalidation_state
    once_mesh.Cache.Evaluate.after_test once_mesh.Cache.Evaluate.check_freshness
    once_mesh.Cache.Evaluate.check_blob once_mesh.Cache.Evaluate.collect_artifacts
    once_mesh.Cache.Evaluate.check_dependencies once_mesh.Cache.Evaluate.check_lineage
    once_mesh.Cache.Evaluate.evaluate once_mesh.Cache.Lookup.after_candidate
    once_mesh.Cache.Lookup.after_store once_mesh.Cache.Lookup.evaluate_candidate
    once_mesh.Cache.Lookup.scan_candidates once_mesh.Cache.Lookup.scan_stores
    once_mesh.Cache.Lookup.lookup_action once_mesh.Cache.Lookup.reuse
    once_mesh.Cache.Lookup.candidate_for_revalidation once_mesh.Cache.Publish.publish_artifacts
    once_mesh.Cache.Publish.publish_manifest once_mesh.Cache.Publish.publish_described
    once_mesh.Cache.Publish.publish_result once_mesh.Cache.Publish.publish_invalidation
    once_mesh.Cache.Publish.Signed.sign_and_put once_mesh.Cache.Publish.Signed.publish_signed_result
    once_mesh.Time.instant once_mesh.Time.parse_time once_mesh.Time.Format.format_time
    once_mesh.Policy.is_member once_mesh.Policy.choice once_mesh.Policy.bounded
    once_mesh.Policy.strings once_mesh.Policy.check_receipts once_mesh.Policy.check_partition
    once_mesh.Policy.check_stale once_mesh.Policy.validate_operation
    once_mesh.Policy.validate_operations once_mesh.Policy.validate_policy_document
    once_mesh.Policy.Registry.is_space once_mesh.Policy.Registry.strip_left
    once_mesh.Policy.Registry.strip once_mesh.Policy.Registry.lower
    once_mesh.Policy.Registry.kill_switch once_mesh.Policy.Registry.resolve_policy
    once_mesh.Policy.Registry.resolve_document once_mesh.Policy.Registry.resolve_loaded
    once_mesh.Policy.Registry.resolve once_mesh.KeyRegistry.require_canonical
    once_mesh.KeyRegistry.decode_public_key once_mesh.KeyRegistry.encode_public_key
    once_mesh.KeyRegistry.producers_of once_mesh.KeyRegistry.resolve_record
    once_mesh.KeyRegistry.validate_key once_mesh.KeyRegistry.validate_keys
    once_mesh.KeyRegistry.validate_key_registry once_mesh.KeyRegistry.resolve_key
    once_mesh.Authorization.is_partition once_mesh.Authorization.validate_authorization_partition
    once_mesh.Authorization.sorted once_mesh.Authorization.derive_authorization_partition
    once_mesh.Authorization.authorization_partitions_match once_mesh.Shadow.media_types
    once_mesh.Shadow.entries_match once_mesh.Shadow.matches_manifest
    once_mesh.Shadow.candidate_matches once_mesh.Http.is_authority once_mesh.Http.is_numeric_host
    once_mesh.Http.netloc_of once_mesh.Http.require_http_fetch once_mesh.Http.normalize_https_url
    once_mesh.Http.build_http_fetch_action once_mesh.Http.is_longer_than once_mesh.Http.lower_keys
    once_mesh.Http.response_to_artifacts once_mesh.Http.execute_http_fetch
    once_mesh.Revalidation.new_revalidator once_mesh.Revalidation.discard
    once_mesh.Revalidation.reserve once_mesh.Revalidation.enqueue once_mesh.Revalidation.withdraw
    once_mesh.Revalidation.hand_over once_mesh.Revalidation.submit once_mesh.Revalidation.shutdown
    once_mesh.Runtime.record_event once_mesh.Runtime.publish once_mesh.Runtime.total_bytes
    once_mesh.Runtime.Decision.outputs_of once_mesh.Runtime.Decision.candidate_outputs
    once_mesh.Runtime.Decision.action_partition once_mesh.Runtime.Decision.match_failure
    once_mesh.Runtime.Decision.partition_failure once_mesh.Runtime.Decision.authorization_failure
    once_mesh.Runtime.Decision.find_store once_mesh.Runtime.Decision.with_validation
    once_mesh.Runtime.Decision.latest_boundary once_mesh.Runtime.Decision.store_boundary
    once_mesh.Runtime.Decision.latest_trusted_freshness once_mesh.Runtime.Decision.is_shown
    once_mesh.Runtime.Receipts.first_failure once_mesh.Runtime.Receipts.check_resolved
    once_mesh.Runtime.Receipts.check_key once_mesh.Runtime.Receipts.check_one
    once_mesh.Runtime.Receipts.check_receipts_from once_mesh.Runtime.Receipts.check_source
    once_mesh.Runtime.Receipts.check_candidate once_mesh.Runtime.Receipts.required_receipt_failure
    once_mesh.Runtime.Outcome.verified_bytes once_mesh.Runtime.Deterministic.run_shadow
    once_mesh.Runtime.Deterministic.execute_and_record once_mesh.Runtime.Deterministic.substitute
    once_mesh.Runtime.Deterministic.receipt_failure once_mesh.Runtime.Deterministic.decide_candidate
    once_mesh.Runtime.Deterministic.decide_mode once_mesh.Runtime.Deterministic.decide
    once_mesh.Runtime.Deterministic.require_approved
    once_mesh.Runtime.Deterministic.execute_deterministic_with_policy
    once_mesh.Runtime.Conditional.is_truthy once_mesh.Runtime.Conditional.validators_of
    once_mesh.Runtime.Conditional.read_validators once_mesh.Runtime.Conditional.validation_of
    once_mesh.Runtime.Conditional.conditional_response
    once_mesh.Runtime.Conditional.put_validation_of once_mesh.Runtime.Conditional.record_validation
    once_mesh.Runtime.Conditional.actual_output once_mesh.Runtime.Conditional.record_or_publish
    once_mesh.Runtime.Conditional.compare_conditional once_mesh.Runtime.Conditional.shadow_execution
    once_mesh.Runtime.Conditional.shadow_candidate
    once_mesh.Runtime.Conditional.run_conditional_http_shadow once_mesh.Runtime.Stale.freshness_at
    once_mesh.Runtime.Stale.freshness_of once_mesh.Runtime.Stale.validators_or_null
    once_mesh.Runtime.Stale.execute_full once_mesh.Runtime.Stale.substitute_http
    once_mesh.Runtime.Stale.submit_digest once_mesh.Runtime.Stale.after_submission
    once_mesh.Runtime.Stale.schedule_with once_mesh.Runtime.Stale.schedule
    once_mesh.Runtime.Stale.serve_stale once_mesh.Runtime.Stale.serve_by_freshness
    once_mesh.Runtime.Stale.stale_while_revalidate once_mesh.Runtime.Http.replace_source
    once_mesh.Runtime.Http.confirm_source once_mesh.Runtime.Http.after_response
    once_mesh.Runtime.Http.validate_source once_mesh.Runtime.Http.conditional_substitute
    once_mesh.Runtime.Http.with_candidate once_mesh.Runtime.Http.decide_http_mode
    once_mesh.Runtime.Http.decide_http once_mesh.Runtime.Http.execute_http_with_policy
    once_mesh.Runtime.Background.not_modified once_mesh.Runtime.Background.source_changed
    once_mesh.Runtime.Background.after_status once_mesh.Runtime.Background.requested
    once_mesh.Runtime.Background.refresh once_mesh.Runtime.Background.revalidate_http_candidate
    once_mesh.Base.same_codes once_mesh.Base.Dict.lookup once_mesh.Base.Dict.insert
    once_mesh.Base.contains once_mesh.Base.all_distinct
program = tt

abbrev toy_digest : Hexdigest
toy_digest bytes = "000000000000000000000000000000000000000000000000000000000000000f"

abbrev toy_name : String
toy_name = "sha256:000000000000000000000000000000000000000000000000000000000000000f"

abbrev toy_key : List ℕ
toy_key =
    0 ∷ 0 ∷ 0 ∷ 0 ∷ 0 ∷ 0 ∷ 0 ∷ 0 ∷ 0 ∷ 0 ∷ 0 ∷ 0 ∷ 0 ∷ 0 ∷ 0 ∷ 0 ∷ 0 ∷ 0 ∷ 0 ∷ 0 ∷ 0 ∷ 0 ∷ 0 ∷ 0
    ∷ 0 ∷ 0 ∷ 0 ∷ 0 ∷ 0 ∷ 0 ∷ 0 ∷ 0 ∷ []

abbrev toy_signature : List ℕ
toy_signature =
    0 ∷ 0 ∷ 0 ∷ 0 ∷ 0 ∷ 0 ∷ 0 ∷ 0 ∷ 0 ∷ 0 ∷ 0 ∷ 0 ∷ 0 ∷ 0 ∷ 0 ∷ 0 ∷ 0 ∷ 0 ∷ 0 ∷ 0 ∷ 0 ∷ 0 ∷ 0 ∷ 0
    ∷ 0 ∷ 0 ∷ 0 ∷ 0 ∷ 0 ∷ 0 ∷ 0 ∷ 0 ∷ 0 ∷ 0 ∷ 0 ∷ 0 ∷ 0 ∷ 0 ∷ 0 ∷ 0 ∷ 0 ∷ 0 ∷ 0 ∷ 0 ∷ 0 ∷ 0 ∷ 0 ∷ 0
    ∷ 0 ∷ 0 ∷ 0 ∷ 0 ∷ 0 ∷ 0 ∷ 0 ∷ 0 ∷ 0 ∷ 0 ∷ 0 ∷ 0 ∷ 0 ∷ 0 ∷ 0 ∷ 0 ∷ []

abbrev toy_scheme : Ed25519
toy_scheme = record {
  public_key = λ s. toy_key;
  sign = λ s message. toy_signature;
  verify = λ key signature message. same_codes signature toy_signature;
}

abbrev pdf_action : Value
pdf_action = obj (
    field "spec_version" (str "oncemesh.action/v0") (
      field "operation"
        (obj (field "name" (str "document.pdf-to-text") (field "version" (str "1") (end))))
        (field "inputs" (obj end) (
          field "executor"
            (obj (
              field "name" (str "tool")
                (field "version" (str "1") (field "config" (obj end) (end)))))
            (field "output_schema" (str "text") (field "vary" (obj end) (end)))))))

-- A policy that substitutes and requires a receipt by the toy key.
abbrev pdf_document : Value
pdf_document = obj (
    field "spec_version" (str "oncemesh.policy/v0") (
      field "enabled" (bool true) (
        field "operations"
          (obj (
            field "document.pdf-to-text/1"
              (obj (
                field "mode" (str "exact-substitute") (
                  field "trusted_result_producers" (arr (cons (str "alice") nil)) (
                    field "trusted_validation_producers" (arr nil) (
                      field "allowed_tiers" (arr (cons (str "local") nil)) (
                        field "max_validation_ttl_seconds" (int (pos 60)) (
                          field "receipt_requirement" (str "required") (
                            field "trusted_receipt_keys" (arr (cons (str toy_name) nil)) (
                              field "authorization_partition" (str "public")
                                (field "max_stale_seconds" (int (pos 0)) (end)))))))))))
              (end)))
          (end))))

abbrev toy_keys : Value
toy_keys = obj (
    field "spec_version" (str "oncemesh.key-registry/v0") (
      field "keys"
        (obj (
          field "sha256:000000000000000000000000000000000000000000000000000000000000000f"
            (obj (
              field "profile" (str "oncemesh.ed25519/v1") (
                field "public_key" (str "AAAAAAAAAAAAAAAAAAAAAAAAAAAAAAAAAAAAAAAAAAA") (
                  field "status" (str "active")
                    (field "producers" (arr (cons (str "alice") nil)) (end))))))
            (end)))
        (end)))

abbrev text_manifest : Manifest
text_manifest = record {
  spec_version = "oncemesh.result/v0";
  action_digest = toy_name;
  artifacts = record { name = "body"; digest = toy_name; size = 1; media_type = "text/plain" } ∷ [];
  produced_at = "2022-09-28T22:13:20Z";
  fresh_until = some "2022-09-28T22:13:20Z";
  producer = "alice";
  dependencies = none;
}

abbrev text_receipt : Receipt
text_receipt = record {
  result_digest = toy_name;
  producer = "alice";
  executor_environment = end;
  signature = some (record {
    profile = "oncemesh.ed25519/v1";
    key_id = toy_name;
    value =
        "AAAAAAAAAAAAAAAAAAAAAAAAAAAAAAAAAAAAAAAAAAAAAAAAAAAAAAAAAAAAAAAAAAAAAAAAAAAAAAAAAAAAAA";
  });
}

-- A store with a result of the action, without and with a receipt.
abbrev bare_store : MemoryStore
bare_store = record (empty "local") {
  blobs = (toy_name, 104 ∷ []) ∷ [];
  results = (toy_name, text_manifest ∷ []) ∷ [];
  results_by_digest = (toy_name, text_manifest) ∷ [];
}

abbrev signed_store : MemoryStore
signed_store = record bare_store { receipts = (toy_name, text_receipt ∷ []) ∷ [] }

abbrev setting_of : MemoryStore → Setting
setting_of s = record {
  hexdigest = toy_digest;
  ed25519 = toy_scheme;
  stores = as_store s ∷ [];
  producer = "carol";
  now = 63800000000000000;
  evaluation_id = none;
}

abbrev text_outputs : Artifacts
text_outputs = ("body", (104 ∷ [], "text/plain")) ∷ []

abbrev other_outputs : Artifacts
other_outputs = ("body", (105 ∷ [], "text/plain")) ∷ []

abbrev text_hit : LookupOutcome
text_hit = record {
  hit = true;
  tier = some "local";
  manifest = some text_manifest;
  artifacts = ("body", 104 ∷ []) ∷ [];
  rejections = [];
  validation = none;
}

abbrev start : World
start = record { publish_to = none; events = []; coordinator = none }

abbrev text_outcome : ExecutionOutcome
text_outcome = record {
  artifacts = text_outputs;
  substituted = true;
  decision_reason = "exact_fresh_hit";
  lookup = some text_hit;
}

-- An execution that would raise is replaced.
substituted_run :
    execute_deterministic_with_policy
      (setting_of signed_store)
      (raise (runtime_error "no parser"))
      pdf_action
      []
      (some pdf_document)
      (some (some toy_keys))
      none
      60
      start
    ≡ (
      ok text_outcome,
      record start {
        events =
            substitute_event
              (setting_of signed_store)
              toy_name
              (str "document.pdf-to-text")
              text_hit
              "exact_fresh_hit"
            ∷ [];
      },
    )
unfolding program
substituted_run = refl

-- Without the receipt, without the key registry and with the switch on, the action is executed.
refused_runs :
    (execute_deterministic_with_policy
        (setting_of bare_store)
        (ok other_outputs)
        pdf_action
        []
        (some pdf_document)
        (some (some toy_keys))
        none
        60
        start).0
      ≡ ok (executed_outcome other_outputs "receipt_missing" (some text_hit))
    × ((execute_deterministic_with_policy
          (setting_of signed_store)
          (ok other_outputs)
          pdf_action
          []
          (some pdf_document)
          none
          none
          60
          start).0
        ≡ ok (executed_outcome other_outputs "receipt_registry_missing" (some text_hit)))
    × ((execute_deterministic_with_policy
          (setting_of signed_store)
          (ok other_outputs)
          pdf_action
          (("ONCEMESH_DISABLE_SUBSTITUTION", "1") ∷ [])
          (some pdf_document)
          (some (some toy_keys))
          none
          60
          start).0
        ≡ ok (executed_outcome other_outputs "kill_switch" none))
unfolding program
refused_runs = (refl, refl, refl)

execute_deterministic_with_policy-IsJustified_example :
    IsJustified
      (setting_of signed_store)
      []
      (some pdf_document)
      (some (some toy_keys))
      none
      (raise (runtime_error "no parser"))
      pdf_action
      text_outcome
execute_deterministic_with_policy-IsJustified_example =
    execute_deterministic_with_policy-IsJustified (setting_of signed_store) [] (some pdf_document)
      (some (some toy_keys)) none (raise (runtime_error "no parser")) pdf_action 60 start
      text_outcome (λ i. (substituted_run i).0)

-- Of a store with a receipt, the execution is what is returned while the switch is on.
switched_run :
    (execute_deterministic_with_policy
      (setting_of signed_store)
      (ok other_outputs)
      pdf_action
      (("ONCEMESH_DISABLE_SUBSTITUTION", "1") ∷ [])
      (some pdf_document)
      (some (some toy_keys))
      none
      60
      start).0
    ≡ ok (executed_outcome other_outputs "kill_switch" none)
unfolding program
switched_run = refl

switched_on : kill_switch (("ONCEMESH_DISABLE_SUBSTITUTION", "1") ∷ []) ≡ true
unfolding program
switched_on = refl

execute_deterministic_with_policy-IsPlain_example :
    IsPlain (setting_of signed_store) pdf_action (ok other_outputs) 60 start (
      execute_deterministic_with_policy
        (setting_of signed_store)
        (ok other_outputs)
        pdf_action
        (("ONCEMESH_DISABLE_SUBSTITUTION", "1") ∷ [])
        (some pdf_document)
        (some (some toy_keys))
        none
        60
        start)
execute_deterministic_with_policy-IsPlain_example =
    execute_deterministic_with_policy-IsPlain (setting_of signed_store) pdf_action
      (("ONCEMESH_DISABLE_SUBSTITUTION", "1") ∷ []) (some pdf_document) (some (some toy_keys)) none
      (ok other_outputs) 60 start switched_on

-- Without the receipt the execution is tried and raises, and nothing is recorded.
failed_run :
    execute_deterministic_with_policy
      (setting_of bare_store)
      (raise (runtime_error "no parser"))
      pdf_action
      []
      (some pdf_document)
      (some (some toy_keys))
      none
      60
      start
    ≡ (raise (runtime_error "no parser"), start)
unfolding program
failed_run = refl

execute_deterministic_with_policy-LeavesNoTrace_example : LeavesNoTrace start (
    execute_deterministic_with_policy
      (setting_of bare_store)
      (raise (runtime_error "no parser"))
      pdf_action
      []
      (some pdf_document)
      (some (some toy_keys))
      none
      60
      start)
execute_deterministic_with_policy-LeavesNoTrace_example =
    execute_deterministic_with_policy-LeavesNoTrace (setting_of bare_store) pdf_action
      (runtime_error "no parser") start [] (some pdf_document) (some (some toy_keys)) none 60
