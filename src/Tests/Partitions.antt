-- ===== src/Tests/Partitions.antt =====
-- A run of src/oncemesh/authorization.py, and the theorem on `_authorization_failure` at it.
use once_mesh.Base.{
  ℕ, ◌≡◌, ◌≢◌, ◌↔◌, refl, String, Bool, true, false, List, [], ◌∷◌, Option, none, some, ◌==◌,
  eq_iff, codes, leb, length, if◌then◌else◌, Bool-cases, inl, inr,
}
use once_mesh.Base.Result.{ok}
use once_mesh.Json.{Value, str, obj, end, field}
use once_mesh.Policy.{OperationPolicy}
use once_mesh.Authorization.{Hmac, derive_authorization_partition}
use once_mesh.Runtime.Decision.{action_partition, authorization_failure}
use once_mesh.Runtime.Partitioned.{IsHex, authorization_failure-derived}

program : Unit {0}
unfolding once_mesh.Canonical.Checks.is_lower_hex once_mesh.Canonical.Checks.is_prefixed_hex
    once_mesh.Canonical.Encode.dump_int once_mesh.Canonical.Encode.codes_lt
    once_mesh.Canonical.Encode.text_lt once_mesh.Canonical.Encode.insert_by_key
    once_mesh.Canonical.Encode.sort_by_key once_mesh.Canonical.Encode.encode_utf8
    once_mesh.Canonical.Encode.canonical_json once_mesh.Base.all_distinct once_mesh.Base.contains
    once_mesh.Authorization.is_partition once_mesh.Authorization.validate_authorization_partition
    once_mesh.Authorization.sorted once_mesh.Authorization.derive_authorization_partition
    once_mesh.Authorization.authorization_partitions_match
    once_mesh.Runtime.Decision.action_partition once_mesh.Runtime.Decision.match_failure
    once_mesh.Runtime.Decision.partition_failure once_mesh.Runtime.Decision.authorization_failure
program = tt

-- Digits by the size of the message.
abbrev digits : Bool → String
digits true = "0000000000000000000000000000000000000000000000000000000000000002"
digits false = "000000000000000000000000000000000000000000000000000000000000000f"

abbrev sized_hmac : Hmac
sized_hmac key message = digits (leb (length message) 160)

digits-IsHex : (b : Bool) → IsHex (digits b)
unfolding program
digits-IsHex true = refl
digits-IsHex false = refl

abbrev partition_key : List ℕ
partition_key = codes "0123456789abcdef0123456789abcdef"

abbrev acme_token : String
acme_token = "hmac-sha256:0000000000000000000000000000000000000000000000000000000000000002"

abbrev acme_bob_token : String
acme_bob_token = "hmac-sha256:000000000000000000000000000000000000000000000000000000000000000f"

abbrev scopes : List String
scopes = "write" ∷ "read" ∷ []

acme_run :
    (derive_authorization_partition sized_hmac "acme" scopes partition_key none ≡ ok acme_token)
    × (derive_authorization_partition sized_hmac "acme" scopes partition_key
          (some "bob@example.org")
        ≡ ok acme_bob_token)
unfolding program
acme_run = (refl, refl)

abbrev partitioned : Value
partitioned = obj (field "vary" (obj (field "authorization_partition" (str acme_token) end)) end)

abbrev private_policy : OperationPolicy
private_policy = record {
  mode = "exact-substitute";
  trusted_result_producers = "alice" ∷ [];
  trusted_validation_producers = [];
  allowed_tiers = "local" ∷ [];
  max_validation_ttl_seconds = 60;
  receipt_requirement = "optional";
  trusted_receipt_keys = [];
  authorization_partition = "required";
  max_stale_seconds = 0;
}

failure_runs :
    (authorization_failure partitioned private_policy (some acme_token) ≡ ok none)
    × (authorization_failure partitioned private_policy (some acme_bob_token)
        ≡ ok (some "authorization_partition_mismatch"))
    × (authorization_failure partitioned private_policy none
        ≡ ok (some "authorization_partition_missing"))
unfolding program
failure_runs = (refl, refl, refl)

required_is_private : private_policy.authorization_partition ≢ "public"
required_is_private same = cc ((eq_iff private_policy.authorization_partition "public").1 same)

partition_run : action_partition partitioned ≡ ok (str acme_token)
unfolding program
partition_run = refl

authorization_failure-derived_example :
    (authorization_failure partitioned private_policy (some acme_bob_token) ≡ ok none)
    ↔ (acme_bob_token ≡ acme_token)
authorization_failure-derived_example =
    authorization_failure-derived sized_hmac "acme" scopes partition_key none acme_token partitioned
      private_policy acme_bob_token (λ message. digits-IsHex (leb (length message) 160)) acme_run.0
      required_is_private partition_run
