-- ===== src/Tests/Policies.antt =====
-- Runs of src/oncemesh/policy.py on a document, and the theorem on its resolution at one of them.
use once_mesh.Base.{ℕ, ◌≡◌, refl, String, Bool, true, false, List, [], ◌∷◌, Option, none, some}
use once_mesh.Base.Dict.{Dict, lookup}
use once_mesh.Base.Result.{ok, raise, type_error}
use once_mesh.Json.{Value, bool, int, str, arr, obj, pos, nil, cons, end, field}
use once_mesh.Policy.{OperationPolicy}
use once_mesh.Policy.Registry.{PolicyResolution, resolve, refused}
use once_mesh.Policy.Granted.{IsGranted, resolve-IsGranted}

program : Unit {0}
unfolding once_mesh.Policy.is_member once_mesh.Policy.choice once_mesh.Policy.bounded
    once_mesh.Policy.strings once_mesh.Policy.check_receipts once_mesh.Policy.check_partition
    once_mesh.Policy.check_stale once_mesh.Policy.validate_operation
    once_mesh.Policy.validate_operations once_mesh.Policy.validate_policy_document
    once_mesh.Policy.Registry.is_space once_mesh.Policy.Registry.strip_left
    once_mesh.Policy.Registry.strip once_mesh.Policy.Registry.lower once_mesh.Base.same_codes
    once_mesh.Policy.Registry.kill_switch once_mesh.Policy.Registry.resolve_policy
    once_mesh.Policy.Registry.resolve_document once_mesh.Policy.Registry.resolve_loaded
    once_mesh.Policy.Registry.resolve once_mesh.Canonical.Checks.is_prefixed_hex
    once_mesh.Canonical.Checks.is_digest once_mesh.Canonical.Checks.same_keys
    once_mesh.Canonical.Checks.require_exact_keys once_mesh.Canonical.Checks.require_nonempty_string
    once_mesh.Canonical.Checks.require_utc_timestamp once_mesh.Base.Dict.lookup
    once_mesh.Base.Dict.insert once_mesh.Base.contains once_mesh.Base.all_distinct
program = tt

-- A document with one operation, in this mode.
abbrev document_of : Value → Value
document_of mode = obj (
    field "spec_version" (str "oncemesh.policy/v0") (
      field "enabled" (bool true) (
        field "operations"
          (obj (
            field "fetch/1"
              (obj (
                field "mode" mode (
                  field "trusted_result_producers" (arr (cons (str "alice") nil)) (
                    field "trusted_validation_producers" (arr nil) (
                      field "allowed_tiers" (arr (cons (str "local") nil)) (
                        field "max_validation_ttl_seconds" (int (pos 60)) (
                          field "receipt_requirement" (str "optional") (
                            field "trusted_receipt_keys" (arr nil) (
                              field "authorization_partition" (str "public")
                                (field "max_stale_seconds" (int (pos 0)) end))))))))))
              end))
          end)))

abbrev fetch_policy : OperationPolicy
fetch_policy = record {
  mode = "exact-substitute";
  trusted_result_producers = "alice" ∷ [];
  trusted_validation_producers = [];
  allowed_tiers = "local" ∷ [];
  max_validation_ttl_seconds = 60;
  receipt_requirement = "optional";
  trusted_receipt_keys = [];
  authorization_partition = "public";
  max_stale_seconds = 0;
}

abbrev fetch_granted : PolicyResolution
fetch_granted = record {
  policy = some fetch_policy;
  reason = "exact-substitute";
  kill_switch_active = false;
}

abbrev switched : Dict String
switched = ("ONCEMESH_DISABLE_SUBSTITUTION", " On\n") ∷ []

fetch_run : resolve [] (some (document_of (str "exact-substitute"))) "fetch/1" ≡ ok fetch_granted
unfolding program
fetch_run = refl

closed_runs :
    (resolve switched (some (document_of (str "exact-substitute"))) "fetch/1"
      ≡ ok (record { policy = none; reason = "kill_switch"; kill_switch_active = true }))
    × (resolve [] (some (document_of (str "exact-substitute"))) "parse/1"
        ≡ ok (refused "policy_disabled"))
    × (resolve [] (some (document_of (str "disabled"))) "fetch/1" ≡ ok (refused "policy_disabled"))
    × (resolve [] (some (document_of (str "stale-while-revalidate"))) "fetch/1"
        ≡ ok (refused "policy_error"))
unfolding program
closed_runs = (refl, refl, refl, refl)

-- A mode that is an array has no hash, and the exception is none that `resolve` catches.
array_mode_run :
    resolve [] (some (document_of (arr nil))) "fetch/1"
    ≡ raise (type_error "unhashable type: 'list'")
unfolding program
array_mode_run = refl

resolve-IsGranted_example :
    IsGranted [] (some (document_of (str "exact-substitute"))) "fetch/1" fetch_granted fetch_policy
resolve-IsGranted_example =
    resolve-IsGranted [] (some (document_of (str "exact-substitute"))) "fetch/1" fetch_granted
      fetch_policy fetch_run refl
