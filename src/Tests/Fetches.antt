-- ===== src/Tests/Fetches.antt =====
-- Runs of `execute_http_with_policy` of src/oncemesh/runtime.py and of src/oncemesh/revalidation.py, and their
-- theorems at them.
use once_mesh.Base.{
  ℕ, ◌+◌, ◌*◌, ◌≡◌, ◌≢◌, ◌⊎◌, inl, inr, refl, String, Bool, true, false, List, [], ◌∷◌, ◌++◌,
  Option, none, some, same_codes, arith,
}
use once_mesh.Base.Dict.{Dict}
use once_mesh.Base.Result.{ok}
use once_mesh.Json.{Value, Items, str, int, bool, arr, obj, nil, cons, end, field, pos}
use once_mesh.Canonical.Action.{Hexdigest, action_digest}
use once_mesh.Records.{Manifest, SourceValidation}
use once_mesh.Receipt.{Signature, Receipt, Ed25519}
use once_mesh.Store.{Store}
use once_mesh.Store.Memory.{MemoryStore, empty, as_store}
use once_mesh.Cache.Lookup.{LookupOutcome}
use once_mesh.Cache.Publish.{Artifacts}
use once_mesh.Revalidation.{Job}
use once_mesh.Runtime.{World}
use once_mesh.Runtime.Deterministic.{execute_and_record, execute_deterministic_with_policy}
use once_mesh.Runtime.Outcome.{ExecutionOutcome, Setting, executed_outcome, execute_event}
use once_mesh.Http.{
  FetchResponse, SplitUrl, Python, Transport, normalize_https_url, execute_http_fetch,
}
use once_mesh.Revalidation.{SingleFlightRevalidator, submit, shutdown}
use once_mesh.Revalidation.Flights.{
  Threads, no_threads, Reachable, started, stepped, reserved, enqueued, raised, withdrawn, finished,
  shut_down,
}
use once_mesh.Runtime.Conditional.{Web}
use once_mesh.Runtime.Stale.{execute_full}
use once_mesh.Runtime.Http.{execute_http_with_policy}
use once_mesh.Runtime.Background.{Report, background_event, revalidate_http_candidate}
use once_mesh.Runtime.Background.Contained.{IsHonest, revalidate_http_candidate-Returns}
use once_mesh.Runtime.Switched.{IsPlain, execute_http_with_policy-IsPlain}
use once_mesh.Policy.Registry.{kill_switch}

program : Unit {0}
unfolding once_mesh.Base64.sextet_code once_mesh.Base64.code_sextet once_mesh.Base64.is_code
    once_mesh.Base64.is_key_text once_mesh.Base64.decode_groups once_mesh.Base64.encode_groups
    once_mesh.Base64.char_of once_mesh.Base64.text_from once_mesh.Base64.encode_text
    once_mesh.Receipt.is_signature_text once_mesh.Receipt.decode_signature
    once_mesh.Receipt.validate_signature once_mesh.Receipt.check_signature
    once_mesh.Receipt.validate_receipt once_mesh.Receipt.encode_receipt
    once_mesh.Receipt.check_receipt once_mesh.Receipt.signing_input once_mesh.Receipt.receipt_digest
    once_mesh.Receipt.raw_public_key once_mesh.Receipt.sign_receipt
    once_mesh.Receipt.verify_signature once_mesh.Receipt.verify_receipt
    once_mesh.Receipt.Verify.verify_receipt_for_manifest once_mesh.Canonical.Action.digest_bytes
    once_mesh.Canonical.Action.object_digest once_mesh.Canonical.Action.validate_action
    once_mesh.Canonical.Action.action_digest once_mesh.Canonical.Checks.is_prefixed_hex
    once_mesh.Canonical.Checks.is_digest once_mesh.Canonical.Checks.same_keys
    once_mesh.Canonical.Checks.require_exact_keys once_mesh.Canonical.Checks.require_nonempty_string
    once_mesh.Canonical.Checks.require_utc_timestamp once_mesh.Canonical.Encode.dump_int
    once_mesh.Canonical.Encode.codes_lt once_mesh.Canonical.Encode.text_lt
    once_mesh.Canonical.Encode.insert_by_key once_mesh.Canonical.Encode.sort_by_key
    once_mesh.Canonical.Encode.encode_utf8 once_mesh.Canonical.Encode.canonical_json
    once_mesh.Canonical.Manifest.validate_manifest once_mesh.Canonical.Manifest.manifest_digest
    once_mesh.Canonical.Records.validate_source_validation
    once_mesh.Canonical.Records.validate_invalidation once_mesh.Canonical.Records.validation_digest
    once_mesh.Canonical.Records.invalidation_digest once_mesh.Records.encode_manifest
    once_mesh.Records.encode_validation once_mesh.Records.encode_invalidation
    once_mesh.Records.check_manifest once_mesh.Records.check_validation
    once_mesh.Records.check_invalidation once_mesh.Records.digest_of
    once_mesh.Store.Memory.listed_at once_mesh.Store.Memory.append_at
    once_mesh.Store.Memory.put_blob once_mesh.Store.Memory.put_result
    once_mesh.Store.Memory.put_validation once_mesh.Store.Memory.put_invalidation
    once_mesh.Store.Memory.put_receipt once_mesh.Store.Memory.get_blob
    once_mesh.Store.Memory.candidates once_mesh.Store.Memory.result
    once_mesh.Store.Memory.validations once_mesh.Store.Memory.invalidations
    once_mesh.Store.Memory.receipts once_mesh.Store.Memory.as_store once_mesh.Cache.trusts
    once_mesh.Cache.Evaluate.find_invalidation once_mesh.Cache.Evaluate.find_validation
    once_mesh.Cache.Evaluate.manifest_is_fresh once_mesh.Cache.Evaluate.stale
    once_mesh.Cache.Evaluate.or_stale once_mesh.Cache.Evaluate.compare_exact
    once_mesh.Cache.Evaluate.propagated once_mesh.Cache.Evaluate.count_edge
    once_mesh.Cache.Evaluate.enter once_mesh.Cache.Evaluate.check_found
    once_mesh.Cache.Evaluate.remove_active once_mesh.Cache.Evaluate.deactivate
    once_mesh.Cache.Evaluate.finally_deactivate once_mesh.Cache.Evaluate.active_digests
    once_mesh.Cache.Evaluate.effective_invalidated once_mesh.Cache.Evaluate.check_located
    once_mesh.Cache.Evaluate.locate_from once_mesh.Cache.Evaluate.locate_result
    once_mesh.Cache.Evaluate.gate once_mesh.Cache.Evaluate.check_invalidation_state
    once_mesh.Cache.Evaluate.after_test once_mesh.Cache.Evaluate.check_freshness
    once_mesh.Cache.Evaluate.check_blob once_mesh.Cache.Evaluate.collect_artifacts
    once_mesh.Cache.Evaluate.check_dependencies once_mesh.Cache.Evaluate.check_lineage
    once_mesh.Cache.Evaluate.evaluate once_mesh.Cache.Lookup.after_candidate
    once_mesh.Cache.Lookup.after_store once_mesh.Cache.Lookup.evaluate_candidate
    once_mesh.Cache.Lookup.scan_candidates once_mesh.Cache.Lookup.scan_stores
    once_mesh.Cache.Lookup.lookup_action once_mesh.Cache.Lookup.reuse
    once_mesh.Cache.Lookup.candidate_for_revalidation once_mesh.Cache.Publish.publish_artifacts
    once_mesh.Cache.Publish.publish_manifest once_mesh.Cache.Publish.publish_described
    once_mesh.Cache.Publish.publish_result once_mesh.Cache.Publish.publish_invalidation
    once_mesh.Cache.Publish.Signed.sign_and_put once_mesh.Cache.Publish.Signed.publish_signed_result
    once_mesh.Time.instant once_mesh.Time.parse_time once_mesh.Time.Format.format_time
    once_mesh.Policy.is_member once_mesh.Policy.choice once_mesh.Policy.bounded
    once_mesh.Policy.strings once_mesh.Policy.check_receipts once_mesh.Policy.check_partition
    once_mesh.Policy.check_stale once_mesh.Policy.validate_operation
    once_mesh.Policy.validate_operations once_mesh.Policy.validate_policy_document
    once_mesh.Policy.Registry.is_space once_mesh.Policy.Registry.strip_left
    once_mesh.Policy.Registry.strip once_mesh.Policy.Registry.lower
    once_mesh.Policy.Registry.kill_switch once_mesh.Policy.Registry.resolve_policy
    once_mesh.Policy.Registry.resolve_document once_mesh.Policy.Registry.resolve_loaded
    once_mesh.Policy.Registry.resolve once_mesh.KeyRegistry.require_canonical
    once_mesh.KeyRegistry.decode_public_key once_mesh.KeyRegistry.encode_public_key
    once_mesh.KeyRegistry.producers_of once_mesh.KeyRegistry.resolve_record
    once_mesh.KeyRegistry.validate_key once_mesh.KeyRegistry.validate_keys
    once_mesh.KeyRegistry.validate_key_registry once_mesh.KeyRegistry.resolve_key
    once_mesh.Authorization.is_partition once_mesh.Authorization.validate_authorization_partition
    once_mesh.Authorization.sorted once_mesh.Authorization.derive_authorization_partition
    once_mesh.Authorization.authorization_partitions_match once_mesh.Shadow.media_types
    once_mesh.Shadow.entries_match once_mesh.Shadow.matches_manifest
    once_mesh.Shadow.candidate_matches once_mesh.Http.is_authority once_mesh.Http.is_numeric_host
    once_mesh.Http.netloc_of once_mesh.Http.require_http_fetch once_mesh.Http.normalize_https_url
    once_mesh.Http.build_http_fetch_action once_mesh.Http.is_longer_than once_mesh.Http.lower_keys
    once_mesh.Http.response_to_artifacts once_mesh.Http.execute_http_fetch
    once_mesh.Revalidation.new_revalidator once_mesh.Revalidation.discard
    once_mesh.Revalidation.reserve once_mesh.Revalidation.enqueue once_mesh.Revalidation.withdraw
    once_mesh.Revalidation.hand_over once_mesh.Revalidation.submit once_mesh.Revalidation.shutdown
    once_mesh.Runtime.record_event once_mesh.Runtime.publish once_mesh.Runtime.total_bytes
    once_mesh.Runtime.Decision.outputs_of once_mesh.Runtime.Decision.candidate_outputs
    once_mesh.Runtime.Decision.action_partition once_mesh.Runtime.Decision.match_failure
    once_mesh.Runtime.Decision.partition_failure once_mesh.Runtime.Decision.authorization_failure
    once_mesh.Runtime.Decision.find_store once_mesh.Runtime.Decision.with_validation
    once_mesh.Runtime.Decision.latest_boundary once_mesh.Runtime.Decision.store_boundary
    once_mesh.Runtime.Decision.latest_trusted_freshness once_mesh.Runtime.Decision.is_shown
    once_mesh.Runtime.Receipts.first_failure once_mesh.Runtime.Receipts.check_resolved
    once_mesh.Runtime.Receipts.check_key once_mesh.Runtime.Receipts.check_one
    once_mesh.Runtime.Receipts.check_receipts_from once_mesh.Runtime.Receipts.check_source
    once_mesh.Runtime.Receipts.check_candidate once_mesh.Runtime.Receipts.required_receipt_failure
    once_mesh.Runtime.Outcome.verified_bytes once_mesh.Runtime.Deterministic.run_shadow
    once_mesh.Runtime.Deterministic.execute_and_record once_mesh.Runtime.Deterministic.substitute
    once_mesh.Runtime.Deterministic.receipt_failure once_mesh.Runtime.Deterministic.decide_candidate
    once_mesh.Runtime.Deterministic.decide_mode once_mesh.Runtime.Deterministic.decide
    once_mesh.Runtime.Deterministic.require_approved
    once_mesh.Runtime.Deterministic.execute_deterministic_with_policy
    once_mesh.Runtime.Conditional.is_truthy once_mesh.Runtime.Conditional.validators_of
    once_mesh.Runtime.Conditional.read_validators once_mesh.Runtime.Conditional.validation_of
    once_mesh.Runtime.Conditional.conditional_response
    once_mesh.Runtime.Conditional.put_validation_of once_mesh.Runtime.Conditional.record_validation
    once_mesh.Runtime.Conditional.actual_output once_mesh.Runtime.Conditional.record_or_publish
    once_mesh.Runtime.Conditional.compare_conditional once_mesh.Runtime.Conditional.shadow_execution
    once_mesh.Runtime.Conditional.shadow_candidate
    once_mesh.Runtime.Conditional.run_conditional_http_shadow once_mesh.Runtime.Stale.freshness_at
    once_mesh.Runtime.Stale.freshness_of once_mesh.Runtime.Stale.validators_or_null
    once_mesh.Runtime.Stale.execute_full once_mesh.Runtime.Stale.substitute_http
    once_mesh.Runtime.Stale.submit_digest once_mesh.Runtime.Stale.after_submission
    once_mesh.Runtime.Stale.schedule_with once_mesh.Runtime.Stale.schedule
    once_mesh.Runtime.Stale.serve_stale once_mesh.Runtime.Stale.serve_by_freshness
    once_mesh.Runtime.Stale.stale_while_revalidate once_mesh.Runtime.Http.replace_source
    once_mesh.Runtime.Http.confirm_source once_mesh.Runtime.Http.after_response
    once_mesh.Runtime.Http.validate_source once_mesh.Runtime.Http.conditional_substitute
    once_mesh.Runtime.Http.with_candidate once_mesh.Runtime.Http.decide_http_mode
    once_mesh.Runtime.Http.decide_http once_mesh.Runtime.Http.execute_http_with_policy
    once_mesh.Runtime.Background.not_modified once_mesh.Runtime.Background.source_changed
    once_mesh.Runtime.Background.after_status once_mesh.Runtime.Background.requested
    once_mesh.Runtime.Background.refresh once_mesh.Runtime.Background.revalidate_http_candidate
    once_mesh.Base.same_codes once_mesh.Base.Dict.lookup once_mesh.Base.Dict.insert
    once_mesh.Base.contains once_mesh.Base.all_distinct
program = tt

abbrev toy_digest : Hexdigest
toy_digest bytes = "000000000000000000000000000000000000000000000000000000000000000f"

abbrev toy_name : String
toy_name = "sha256:000000000000000000000000000000000000000000000000000000000000000f"

abbrev toy_key : List ℕ
toy_key =
    0 ∷ 0 ∷ 0 ∷ 0 ∷ 0 ∷ 0 ∷ 0 ∷ 0 ∷ 0 ∷ 0 ∷ 0 ∷ 0 ∷ 0 ∷ 0 ∷ 0 ∷ 0 ∷ 0 ∷ 0 ∷ 0 ∷ 0 ∷ 0 ∷ 0 ∷ 0 ∷ 0
    ∷ 0 ∷ 0 ∷ 0 ∷ 0 ∷ 0 ∷ 0 ∷ 0 ∷ 0 ∷ []

abbrev toy_signature : List ℕ
toy_signature =
    0 ∷ 0 ∷ 0 ∷ 0 ∷ 0 ∷ 0 ∷ 0 ∷ 0 ∷ 0 ∷ 0 ∷ 0 ∷ 0 ∷ 0 ∷ 0 ∷ 0 ∷ 0 ∷ 0 ∷ 0 ∷ 0 ∷ 0 ∷ 0 ∷ 0 ∷ 0 ∷ 0
    ∷ 0 ∷ 0 ∷ 0 ∷ 0 ∷ 0 ∷ 0 ∷ 0 ∷ 0 ∷ 0 ∷ 0 ∷ 0 ∷ 0 ∷ 0 ∷ 0 ∷ 0 ∷ 0 ∷ 0 ∷ 0 ∷ 0 ∷ 0 ∷ 0 ∷ 0 ∷ 0 ∷ 0
    ∷ 0 ∷ 0 ∷ 0 ∷ 0 ∷ 0 ∷ 0 ∷ 0 ∷ 0 ∷ 0 ∷ 0 ∷ 0 ∷ 0 ∷ 0 ∷ 0 ∷ 0 ∷ 0 ∷ []

abbrev toy_scheme : Ed25519
toy_scheme = record {
  public_key = λ s. toy_key;
  sign = λ s message. toy_signature;
  verify = λ key signature message. same_codes signature toy_signature;
}

-- One URL is known, with a port.
abbrev toy_python : Python
toy_python = record {
  urlsplit = λ url. ok (record {
    scheme = "https";
    hostname = some "example.org";
    username = none;
    password = none;
    port = ok (some 8443);
    path = "";
    query = "";
  });
  urlunsplit = λ scheme netloc path query fragment. netloc;
  to_idna = λ host. ok host;
  lower = λ text. text;
  is_float_below = λ bits n. false;
}

port_run : normalize_https_url toy_python "https://example.org:8443" ≡ ok "example.org:8443"
unfolding program
port_run = refl

abbrev responding : ℕ → FetchResponse
responding status = record {
  status = status;
  final_url = "https://example.org:8443";
  headers = ("etag", "x") ∷ [];
  body = 105 ∷ [];
}

-- A page that has this status for a conditional request, and a metadata with an etag.
abbrev web_of : ℕ → Web
web_of status = record {
  python = toy_python;
  transport = record {
    fetch = λ url accept follow_redirects max_bytes. ok (responding 200);
    conditional_get =
        λ url accept follow_redirects max_bytes etag last_modified. ok (responding status);
  };
  loads = λ bytes. some (obj (field "etag" (str "x") end));
}

abbrev page_action : Value
page_action = obj (
    field "spec_version" (str "oncemesh.action/v0") (
      field "operation" (obj (field "name" (str "http.fetch") (field "version" (str "1") (end)))) (
        field "inputs" (obj (field "url" (str "u") (field "accept" (str "a") (end)))) (
          field "executor"
            (obj (
              field "name" (str "tool") (
                field "version" (str "1") (
                  field "config"
                    (obj (
                      field "follow_redirects" (bool true) (field "max_bytes" (int (pos 9)) (end))))
                    (end)))))
            (field "output_schema" (str "text") (field "vary" (obj end) (end)))))))

-- A document with a policy of this mode, requirement of receipts, receipt keys and stale window.
abbrev document_with : String → String → Items → ℕ → Value
document_with mode requirement receipt_keys max_stale_seconds = obj (
    field "spec_version" (str "oncemesh.policy/v0") (
      field "enabled" (bool true) (
        field "operations"
          (obj (
            field "http.fetch/1"
              (obj (
                field "mode" (str mode) (
                  field "trusted_result_producers" (arr (cons (str "alice") nil)) (
                    field "trusted_validation_producers" (arr (cons (str "alice") nil)) (
                      field "allowed_tiers" (arr (cons (str "local") nil)) (
                        field "max_validation_ttl_seconds" (int (pos 60)) (
                          field "receipt_requirement" (str requirement) (
                            field "trusted_receipt_keys" (arr receipt_keys) (
                              field "authorization_partition" (str "public") (
                                field "max_stale_seconds" (int (pos max_stale_seconds))
                                  (end)))))))))))
              (end)))
          (end))))

abbrev document_of : String → ℕ → Value
document_of mode max_stale_seconds = document_with mode "optional" nil max_stale_seconds

abbrev page_manifest : Manifest
page_manifest = record {
  spec_version = "oncemesh.result/v0";
  action_digest = toy_name;
  artifacts =
      record { name = "body"; digest = toy_name; size = 1; media_type = "text/plain" }
      ∷ record { name = "metadata"; digest = toy_name; size = 1; media_type = "application/json" }
      ∷ [];
  produced_at = "2022-09-28T22:13:20Z";
  fresh_until = some "2022-09-28T22:13:20Z";
  producer = "alice";
  dependencies = none;
}

abbrev page_store : MemoryStore
page_store = record (empty "local") {
  blobs = (toy_name, 104 ∷ []) ∷ [];
  results = (toy_name, page_manifest ∷ []) ∷ [];
  results_by_digest = (toy_name, page_manifest) ∷ [];
}

-- One second after the result has expired.
abbrev setting : Setting
setting = record {
  hexdigest = toy_digest;
  ed25519 = toy_scheme;
  stores = as_store page_store ∷ [];
  producer = "alice";
  now = 63800000001000000;
  evaluation_id = none;
}

abbrev page_hit : LookupOutcome
page_hit = record {
  hit = true;
  tier = some "local";
  manifest = some page_manifest;
  artifacts = ("body", 104 ∷ []) ∷ ("metadata", 104 ∷ []) ∷ [];
  rejections = [];
  validation = none;
}

abbrev page_outcome : String → ExecutionOutcome
page_outcome reason = record {
  artifacts =
      ("body", (104 ∷ [], "text/plain")) ∷ ("metadata", (104 ∷ [], "application/json")) ∷ [];
  substituted = true;
  decision_reason = reason;
  lookup = some page_hit;
}

abbrev idle : SingleFlightRevalidator
idle = record { inflight = []; scheduled = []; accepts = true }

abbrev start : World
start = record { publish_to = some page_store; events = []; coordinator = some idle }

abbrev page_validation : SourceValidation
page_validation = record {
  result_digest = toy_name;
  validated_at = "2022-09-28T22:13:21Z";
  fresh_until = "2022-09-28T22:14:21Z";
  producer = "alice";
  etag = some "x";
  last_modified = none;
}

abbrev validated_store : MemoryStore
validated_store = record page_store { validations = (toy_name, page_validation ∷ []) ∷ [] }

abbrev page_job : Job
page_job = record {
  key = toy_name;
  action = page_action;
  candidate = page_hit;
  producer = "alice";
  validation_ttl_seconds = 60;
  evaluation_id = none;
}

abbrev in_flight : SingleFlightRevalidator
in_flight = record { inflight = toy_name ∷ []; scheduled = page_job ∷ []; accepts = true }

abbrev after_stale : World
after_stale =
    (execute_http_with_policy setting (web_of 304) page_action []
      (some (document_of "stale-while-revalidate" 1)) none 60 start).1

-- Within the window the result is served and its revalidation is in flight; outside, the page is
-- fetched.
stale_runs :
    ((execute_http_with_policy setting
        (web_of 304)
        page_action
        []
        (some (document_of "stale-while-revalidate" 1))
        none
        60
        start).0
      ≡ ok (page_outcome "stale_while_revalidate"))
    × (after_stale.coordinator ≡ some in_flight)
    × ((execute_http_with_policy
          (record setting { now = 63800000001000001 })
          (web_of 304)
          page_action
          []
          (some (document_of "stale-while-revalidate" 1))
          none
          60
          start).0
        ≡ ok (
            executed_outcome
              (("body", (105 ∷ [], "application/octet-stream"))
                ∷ (
                  "metadata",
                  (
                    123 ∷ 34 ∷ 99 ∷ 111 ∷ 110 ∷ 116 ∷ 101 ∷ 110 ∷ 116 ∷ 95 ∷ 116 ∷ 121 ∷ 112 ∷ 101
                        ∷ 34 ∷ 58 ∷ 110 ∷ 117 ∷ 108 ∷ 108 ∷ 44 ∷ 34 ∷ 101 ∷ 116 ∷ 97 ∷ 103 ∷ 34 ∷ 58
                        ∷ 34 ∷ 120 ∷ 34 ∷ 44 ∷ 34 ∷ 102 ∷ 105 ∷ 110 ∷ 97 ∷ 108 ∷ 95 ∷ 117 ∷ 114
                        ∷ 108 ∷ 34 ∷ 58 ∷ 34 ∷ 101 ∷ 120 ∷ 97 ∷ 109 ∷ 112 ∷ 108 ∷ 101 ∷ 46 ∷ 111
                        ∷ 114 ∷ 103 ∷ 58 ∷ 56 ∷ 52 ∷ 52 ∷ 51 ∷ 34 ∷ 44 ∷ 34 ∷ 108 ∷ 97 ∷ 115 ∷ 116
                        ∷ 95 ∷ 109 ∷ 111 ∷ 100 ∷ 105 ∷ 102 ∷ 105 ∷ 101 ∷ 100 ∷ 34 ∷ 58 ∷ 110 ∷ 117
                        ∷ 108 ∷ 108 ∷ 44 ∷ 34 ∷ 115 ∷ 116 ∷ 97 ∷ 116 ∷ 117 ∷ 115 ∷ 34 ∷ 58 ∷ 50 ∷ 48
                        ∷ 48 ∷ 125 ∷ [],
                    "application/json",
                  ),
                )
                ∷ [])
              "stale_window_exceeded"
              (some page_hit)))
unfolding program
stale_runs = (refl, refl, refl)

-- The mode "exact-substitute" with required receipts: the result is served after a 304, and the store has
-- no receipt.
exact_run :
    (execute_http_with_policy setting
      (web_of 304)
      page_action
      []
      (some (document_with "exact-substitute" "required" (cons (str toy_name) nil) 0))
      none
      60
      start).0
    ≡ ok (page_outcome "conditional_304")
unfolding program
exact_run = refl

switched_on : kill_switch (("ONCEMESH_DISABLE_SUBSTITUTION", "1") ∷ []) ≡ true
unfolding program
switched_on = refl

execute_http_with_policy-IsPlain_example :
    IsPlain setting page_action
      (execute_http_fetch (web_of 304).python (web_of 304).transport page_action)
      60
      start
      (execute_http_with_policy setting
        (web_of 304)
        page_action
        (("ONCEMESH_DISABLE_SUBSTITUTION", "1") ∷ [])
        none
        none
        60
        start)
execute_http_with_policy-IsPlain_example =
    execute_http_with_policy-IsPlain setting page_action (web_of 304)
      (("ONCEMESH_DISABLE_SUBSTITUTION", "1") ∷ []) none none 60 start switched_on

digest_run : action_digest toy_digest page_action ≡ ok toy_name
unfolding program
digest_run = refl

-- The work of the job, with a page that is not modified and with one that fails.
background_runs :
    ((revalidate_http_candidate setting (web_of 304) page_job 63800000001000000 start).1.publish_to
      ≡ some validated_store)
    × ((revalidate_http_candidate setting
          (web_of 500)
          page_job
          63800000001000000
          start).1.publish_to
        ≡ some page_store)
unfolding program
background_runs = (refl, refl)

revalidate_http_candidate-Returns_example :
    (report : Report) × IsHonest setting (web_of 500) page_job report
    × ((revalidate_http_candidate setting (web_of 500) page_job 63800000001000000 start).0 ≡ ok tt)
    × ((revalidate_http_candidate setting (web_of 500) page_job 63800000001000000 start).1.events
        ≡ [] ++ background_event setting (web_of 500) page_job toy_name report ∷ [])
    × ((revalidate_http_candidate setting
          (web_of 500)
          page_job
          63800000001000000
          start).1.coordinator
        ≡ some idle)
revalidate_http_candidate-Returns_example =
    revalidate_http_candidate-Returns setting (web_of 500) page_job 63800000001000000 start toy_name
      digest_run

flight_runs :
    ((submit page_job idle) ≡ (ok true, in_flight))
    × (submit page_job in_flight ≡ (ok false, in_flight))
    × ((submit page_job (shutdown idle)).1 ≡ shutdown idle)
unfolding program
flight_runs = (refl, refl, refl)

-- A call of `submit` that has reserved the key, and no job.
abbrev waiting : Threads
waiting = record no_threads {
  coordinator = record { inflight = toy_name ∷ []; scheduled = []; accepts = true };
  submitting = page_job ∷ [];
}

-- The same after the executor has refused the work, and after it has taken it and was shut down.
abbrev refusing : Threads
refusing = record waiting { submitting = []; refused = page_job ∷ [] }

abbrev running : Threads
running = record waiting {
  coordinator = record { inflight = toy_name ∷ []; scheduled = page_job ∷ []; accepts = false };
  submitting = [];
}

-- Two calls of one key, where the second comes before the executor has the work of the first.
coalesced : Reachable waiting
unfolding program
coalesced = stepped (stepped started (reserved page_job no_threads)) (reserved page_job waiting)

refused_after : Reachable refusing
unfolding program
refused_after = stepped coalesced (raised [] page_job [] waiting refl)

-- After the withdrawal no key is in flight.
withdrawn_after : Reachable no_threads
unfolding program
withdrawn_after = stepped refused_after (withdrawn [] page_job [] refusing refl)

ran_after : Reachable running
unfolding program
ran_after = stepped (stepped coalesced (enqueued [] page_job [] waiting refl refl)) (
    shut_down (record waiting {
      coordinator = record { inflight = toy_name ∷ []; scheduled = page_job ∷ []; accepts = true };
      submitting = [];
    }))

finished_after : Reachable (record no_threads {
  coordinator = record { inflight = []; scheduled = []; accepts = false };
  leaving = page_job ∷ [];
})
unfolding program
finished_after = stepped ran_after (finished [] page_job [] running refl)
