-- ===== src/Lib.antt =====
-- OnceMesh reuses the result of a computation, an action, only where a policy finds a stored result
-- that is exactly for that action and still admissible. This library models the core of the Python
-- package under src/oncemesh.
--
-- Parts and files
-- - Json, Canonical: JSON values and src/oncemesh/canonical.py: canonical bytes (Canonical/Encode), the
--   shared field checks (Canonical/Checks), the validators and digests of actions (Canonical/Action),
--   of result manifests (Canonical/Manifest), and of source validations and invalidations
--   (Canonical/Records). A validator raises where the source raises; the message leaves out the values
--   that the source prints in it.
-- - Time: `_parse_time` and `_format_time` of src/oncemesh/cache.py. An instant is the number of
--   microseconds since 0001-01-01, and every datetime is in UTC.
-- - Records: the dicts that pass the validators, as records. `encode_manifest` and its like turn them
--   into JSON, and the checks and digests on them are those of the JSON values.
-- - Store, Store/Memory: what a lookup reads of a store, and `MemoryStore` of src/oncemesh/store.py.
-- - Cache: src/oncemesh/cache.py. Cache has `Policy` and how a check ends; Cache/Evaluate has
--   `_effective_invalidated`, `_locate_result` and `_evaluate`, in the source's order; Cache/Lookup has
--   `reuse` and `candidate_for_revalidation`; Cache/Publish has `publish_result` and
--   `publish_invalidation`. Cache/Admissible says what is promised without the algorithm.
-- - Index: `MemoryActiveKeyIndex` of src/oncemesh/integrations/index.py, with Index/Entries for its
--   dict and Index/Moves for sequences of operations.
-- - Policy: src/oncemesh/policy.py: the check of a policy document, and in Policy/Registry
--   `FilePolicyRegistry.resolve`, on the value that `json.loads` returned, if it did.
-- - KeyRegistry: src/oncemesh/key_registry.py: the check of a registry of receipt keys and
--   `FileReceiptKeyRegistry.resolve`; Base64 is the base64url of Python's `base64`.
-- - Receipt: src/oncemesh/receipt.py: the check, the signing and the verification of receipts, with
--   `verify_receipt_for_manifest` in Receipt/Verify. Cache/Publish/Signed has `publish_signed_result`.
-- - Authorization: src/oncemesh/authorization.py.
-- - Shadow: `candidate_matches` of src/oncemesh/shadow.py.
-- - Http: src/oncemesh/adapters/http_fetch.py.
-- - Revalidation: `SingleFlightRevalidator` of src/oncemesh/revalidation.py, its critical sections and a call
--   of `submit` on its own. Revalidation/Flights interleaves the threads that use it, with the calls of the
--   executor, which are outside the lock; Revalidation/Counts has lemmas for this, and Revalidation/Alone
--   relates a call of `submit` on its own to these steps.
-- - Runtime: src/oncemesh/runtime.py. A run changes a `World`: the store to publish to, the events of
--   `InMemoryMetrics` of src/oncemesh/metrics.py, and the coordinator of revalidations. Runtime/Decision and
--   Runtime/Receipts have the functions that judge a candidate, Runtime/Deterministic has
--   `execute_deterministic_with_policy` and `run_shadow` of src/oncemesh/shadow.py, Runtime/Stale and
--   Runtime/Http have `execute_http_with_policy`, Runtime/Conditional has
--   `run_conditional_http_shadow` of src/oncemesh/conditional.py, and Runtime/Background has
--   `revalidate_http_candidate` of src/oncemesh/revalidation.py. The other files under Runtime are
--   proofs; Runtime/Rules has the rules for what a run returns.
-- - ExecutionCache: src/oncemesh/execution_cache.py: keys, envelopes and `MemoryEpochRegistry`, and in
--   ExecutionCache/Bridge `ExecutionCacheBridge` over a `MemoryStore`.
-- - Base: shared helpers. Tests: the theorems at concrete values, and runs of the code.
--
-- How the parts interact
-- A publication writes blobs and a manifest to a store under digests that Canonical computes. A lookup
-- computes the digest of the action, asks each store for candidates in order, and runs the check of
-- Cache/Evaluate on each; the check asks the stores for invalidations, validations, blobs and, for a
-- lineage, for other manifests, which it checks in the same way one level deeper. The index decides
-- under which generation an integration publishes the value of a key. The resolution of a policy document
-- says in which mode, and with which producers, an operation may substitute at all. The runs of Runtime
-- put the parts together: they resolve the policy, compare the authorization partitions, look a
-- candidate up, and then serve it, confirm it by a conditional request, hand its revalidation to the
-- coordinator, or execute and publish. Where a policy asks for receipts, those of the store must be
-- verified under a key that the policy trusts and that the key registry resolves.
--
-- Parameters, bounds and fuel
-- - SHA-256 is a parameter, `hexdigest`, of which nothing is assumed beyond what a theorem says.
-- - Ed25519 is a parameter of Receipt. The round trips assume of it what RFC 8032 says: keys of 32 bytes,
--   signatures of 64, and that a signature verifies under the key of its seed. HMAC-SHA-256 is a
--   parameter of Authorization, which returns 64 lower-case hexadecimal digits where a theorem says so.
-- - An execution is what it returns or raises. The network is a `Transport`, a function of the request; the
--   functions of Python on URLs, on the case of texts and on floats are a record `Python`; what
--   `json.loads` or a decoder makes of bytes is a function into an option. Nothing is assumed of them
--   but, for the round trip of an envelope, that the encoding of its own type tag is decoded to it.
-- - The policy registry and the key registry are what they load: the value of the file, or none. The clock
--   is an argument, and no `timedelta` overflows: times have no upper bound.
-- - The events leave out durations and costs, which are floats. The message of an error may be another
--   than that of the source where several checks of one record fail.
-- - The executor of the revalidations is third-party. A submission to it may raise at any time, and then it
--   does not hold the work; it takes work only before it is shut down. A run of Runtime calls `submit` with
--   no other thread between its parts.
-- - The specification spec/operation-policy-v0.md permits a substitution after a 304 only under the mode
--   "conditional-substitute", and asks for a required receipt. The code serves one under "exact-substitute"
--   too, without a receipt; the model has what the code does, and Tests/Fetches a run of it.
-- - A store of the lookup is any record of functions that may raise, so it stands for
--   any implementation that does not change while one lookup runs.
-- - `evaluate` recurses on fuel, which stands for the depth of the recursion. A lookup gives two more
--   than `max_dependency_depth`: one for depth 0, and one for the level at which the depth is refused.
--   `out_of_fuel` is an error of the model only.
-- - Sizes, times and bounds are natural numbers. `Policy.__post_init__` refuses bounds that are not
--   positive; the model permits 0 as well.
--
-- Not modelled
-- FilesystemStore and the other indexes; FilesystemEpochRegistry; the file lock of coordination; the
-- integrations, whose frameworks are third-party; federation and discovery, which are HTTP servers and
-- clients; the summaries of the metrics, which are floats; the transport of safe_http and the other
-- content adapters, which call sockets and parsers.Locks do not appear: each locked method is one
-- step, but for `SingleFlightRevalidator`, whose critical sections are steps of their own.
pub mod Base
pub mod Base64
pub mod Json
pub mod Time
pub mod Canonical
pub mod Records
pub mod Receipt
pub mod Store
pub mod Cache
pub mod Index
pub mod Policy
pub mod KeyRegistry
pub mod Authorization
pub mod Shadow
pub mod Http
pub mod Revalidation
pub mod Runtime
pub mod ExecutionCache
pub mod Tests
