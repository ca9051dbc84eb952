-- ===== src/Policy/Registry.antt =====
-- `FilePolicyRegistry.resolve` of src/oncemesh/policy.py. The environment is a dict of texts; the
-- document is what `json.loads` made of the file, and none where reading or parsing it raised one of
-- the exceptions that `resolve` catches.
use once_mesh.Base.{
  same_codes, ℕ, ◌+◌, String, Bool, true, false, ◌&&◌, ◌||◌, List, [], ◌∷◌, Option, none, some,
  ◌==◌, leb, nat_eq, any, codes, reverse, map, if◌then◌else◌,
}
use once_mesh.Base.Dict.{Dict, lookup, get_or}
use once_mesh.Base.Result.{Result, ok, ◌>>=◌}
use once_mesh.Json.{Value, bool, item}
use once_mesh.Store.{catch_value}
use once_mesh.Policy.{OperationPolicy, validate_policy_document}

pub record PolicyResolution : Type 0 where
  pub policy : Option OperationPolicy
  pub reason : String
  pub kill_switch_active : Bool

-- The code points that `str.strip` removes.
unfoldable pub is_space : ℕ → Bool
is_space c =
    (leb 9 c && leb c 13)
    || (leb 28 c && leb c 32)
    || nat_eq c 133
    || nat_eq c 160
    || nat_eq c 5760
    || (leb 8192 c && leb c 8202)
    || nat_eq c 8232
    || nat_eq c 8233
    || nat_eq c 8239
    || nat_eq c 8287
    || nat_eq c 12288

unfoldable pub strip_left : List ℕ → List ℕ
unfolding is_space
strip_left [] = []
strip_left (c ∷ cs) = if is_space c then strip_left cs else c ∷ cs

unfoldable pub strip : List ℕ → List ℕ
unfolding strip_left
strip cs = reverse (strip_left (reverse (strip_left cs)))

-- `str.lower` on ASCII. No other character has a lower case that occurs in a value of the switch.
unfoldable pub lower : ℕ → ℕ
lower c = if leb 65 c && leb c 90 then c + 32 else c

-- `KILL_SWITCH_VALUES`
abbrev pub kill_switch_values : List String
kill_switch_values = "1" ∷ "true" ∷ "yes" ∷ "on" ∷ []

unfoldable pub kill_switch : Dict String → Bool
unfolding lower strip same_codes lookup
kill_switch environment =
    let value =
      map lower (strip (codes (get_or "" (lookup "ONCEMESH_DISABLE_SUBSTITUTION" environment)))) in
    any (λ name. same_codes (codes name) value) kill_switch_values

abbrev pub refused : String → PolicyResolution
refused reason = record { policy = none; reason = reason; kill_switch_active = false }

abbrev pub is_true : Value → Bool
is_true (bool b) = b
is_true _ = false

-- The tests on the policy of the operation.
unfoldable pub resolve_policy : Option OperationPolicy → PolicyResolution
resolve_policy none = refused "policy_disabled"
resolve_policy (some policy) =
    if policy.mode == "disabled"
    then refused "policy_disabled"
    else record { policy = some policy; reason = policy.mode; kill_switch_active = false }

-- What follows the check of the document. `enabled` is a Boolean by then.
unfoldable pub resolve_document : String → Value → Dict OperationPolicy → Result PolicyResolution
unfolding resolve_policy lookup
resolve_document operation document policies = do
  enabled ← item document "enabled"
  ok (
      if is_true enabled
      then resolve_policy (lookup operation policies)
      else refused "policy_disabled")

unfoldable pub resolve_loaded : String → Option Value → Result PolicyResolution
unfolding resolve_document validate_policy_document
resolve_loaded operation none = ok (refused "policy_error")
resolve_loaded operation (some document) =
    catch_value (validate_policy_document document) (ok (refused "policy_error"))
      (resolve_document operation document)

unfoldable pub resolve : Dict String → Option Value → String → Result PolicyResolution
unfolding kill_switch resolve_loaded
resolve environment loaded operation =
    if kill_switch environment
    then ok (record { policy = none; reason = "kill_switch"; kill_switch_active = true })
    else resolve_loaded operation loaded
