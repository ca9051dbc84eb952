-- ===== src/Policy/Inversion.antt =====
-- What an accepted document of src/oncemesh/policy.py contains.
use once_mesh.Base.{
  ℕ, ◌≤◌, ◌<◌, ◌≡◌, ◌≢◌, ◌↔◌, inl, inr, subst, ap, String, true, not, ◌&&◌, List, [], ◌∷◌, some,
  ◌==◌, all, any, nat_eq, codes, contains, arith, Bool-cases, eq_iff,
}
use once_mesh.Base.Dict.{Dict, lookup, insert, lookup-insert}
use once_mesh.Base.Result.{
  ok, require, >>=-eq-ok, ok-injective, require-eq-ok, Returns, Returns-bind, Returns-ok,
}
use once_mesh.Json.{
  Value, int, bool, null, float, str, arr, obj, pos, negsuc, Fields, end, field, item,
}
use once_mesh.Canonical.Checks.{is_digest}
use once_mesh.Policy.{
  is_boolean, fields_of, validate_policy_document, OperationPolicy, modes, is_member, choice,
  bounded, check_receipts, check_partition, check_stale, strings, validate_operation,
  validate_operations, is_empty, required_fields,
}
use once_mesh.Canonical.Checks.{has_keys}
use once_mesh.Canonical.Action.{has_text}

-- A policy as the registry promises it.
pub record IsSound (p : OperationPolicy) : Type 0 where
  pub known_mode : contains modes p.mode ≡ true
  pub ttl_at_least : 1 ≤ p.max_validation_ttl_seconds
  pub ttl_at_most : p.max_validation_ttl_seconds ≤ 604800
  pub digests : all is_digest p.trusted_receipt_keys ≡ true
  pub receipt_keys : p.receipt_requirement ≡ "required" → p.trusted_receipt_keys ≢ []
  pub receipt_mode : p.receipt_requirement ≡ "required" → p.mode ≡ "exact-substitute"
  pub partition_mode : p.authorization_partition ≡ "required" → p.mode ≡ "exact-substitute"
  pub stale_bound : p.max_stale_seconds ≤ 604800
  pub stale_mode : (p.mode ≡ "stale-while-revalidate") ↔ (0 < p.max_stale_seconds)

some-injective {ℓ} : {A : Type ℓ} {x y : A} → some x ≡ some y → x ≡ y
some-injective h = cc

pub choice-eq-ok :
    (value : Value) (names : List String) (message : String) (s : String)
    → choice value names message ≡ ok s
    → contains names s ≡ true
unfolding choice is_member
choice-eq-ok (str t) names message s h =
    let (u, e, rest) = >>=-eq-ok (require (contains names t) message) _ h in
    subst (λ r. contains names r ≡ true) (ok-injective rest)
      (require-eq-ok (contains names t) message e)
choice-eq-ok null names message s h = cc
choice-eq-ok (bool b) names message s h = cc
choice-eq-ok (int z) names message s h = cc
choice-eq-ok (float f) names message s h = cc
choice-eq-ok (arr vs) names message s h = cc
choice-eq-ok (obj fs) names message s h = cc

bounded-eq-ok :
    (value : Value) (low high : ℕ) (message : String) (n : ℕ)
    → bounded value low high message ≡ ok n
    → (low ≤ n) × (n ≤ high)
unfolding bounded
bounded-eq-ok (int (pos m)) low high message n h = ground arith
bounded-eq-ok (int (negsuc m)) low high message n h = cc
bounded-eq-ok null low high message s h = cc
bounded-eq-ok (bool b) low high message s h = cc
bounded-eq-ok (str z) low high message s h = cc
bounded-eq-ok (float f) low high message s h = cc
bounded-eq-ok (arr vs) low high message s h = cc
bounded-eq-ok (obj fs) low high message s h = cc

check_receipts-eq-ok :
    (mode requirement : String) (ks : List String) (u : Unit {0})
    → check_receipts mode requirement ks ≡ ok u
    → (all is_digest ks ≡ true)
      × (requirement ≡ "required" → ks ≢ [])
      × (requirement ≡ "required" → mode ≡ "exact-substitute")
unfolding check_receipts
check_receipts-eq-ok mode requirement ks u h =
    let (_, first, rest) = >>=-eq-ok (require (all is_digest ks) _) _ h in
    let (_, second, third) =
      >>=-eq-ok (require (not (requirement == "required" && is_empty ks)) _) _ rest in
    let nonempty = require-eq-ok _ _ second in
    let exact = require-eq-ok _ _ third in
    (
      require-eq-ok _ _ first,
      (λ required empty.
          let none_left = ap is_empty empty in ground (arith, eq_iff requirement "required")),
      λ required. ground (arith, eq_iff requirement "required", eq_iff mode "exact-substitute"),
    )

check_partition-eq-ok :
    (mode partition : String) (u : Unit {0})
    → check_partition mode partition ≡ ok u
    → partition ≡ "required"
    → mode ≡ "exact-substitute"
unfolding check_partition
check_partition-eq-ok mode partition u h required =
    ground (arith, eq_iff partition "required", eq_iff mode "exact-substitute")

check_stale-eq-ok :
    (mode : String) (n : ℕ) (u : Unit {0})
    → check_stale mode n ≡ ok u
    → (mode ≡ "stale-while-revalidate") ↔ (0 < n)
unfolding check_stale
check_stale-eq-ok mode n u h = ground (arith, eq_iff mode "stale-while-revalidate")

-- An operation that is accepted has a sound policy.
validate_operation-eq-ok :
    (operation : String) (value : Value) → Returns IsSound (validate_operation operation value)
unfolding validate_operation
validate_operation-eq-ok operation value =
    Returns-bind IsSound (require (any (nat_eq b'/') (codes operation)) _) _ λ _ _.
      Returns-bind IsSound (require (has_keys value required_fields) _) _ λ _ _.
        Returns-bind IsSound (item value "mode") _ λ mode_value _.
          Returns-bind IsSound (choice mode_value modes _) _ λ mode known.
            Returns-bind IsSound (item value "max_validation_ttl_seconds") _ λ ttl_value _.
              Returns-bind IsSound (bounded ttl_value 1 604800 _) _ λ ttl within.
                Returns-bind IsSound (item value "receipt_requirement") _ λ requirement_value _.
                  Returns-bind IsSound (choice requirement_value ("optional" ∷ "required" ∷ []) _) _
                    λ requirement _.
                      Returns-bind IsSound (item value "trusted_receipt_keys") _ λ keys_value _.
                        Returns-bind IsSound (strings keys_value) _ λ ks _.
                          Returns-bind IsSound (check_receipts mode requirement ks) _
                            λ receipts_done receipts.
                              Returns-bind IsSound (item value "authorization_partition") _
                                λ partition_value _.
                                  Returns-bind IsSound
                                    (choice partition_value ("public" ∷ "required" ∷ []) _) _
                                    λ partition _.
                                      Returns-bind IsSound (check_partition mode partition) _
                                        λ partition_done exact.
                                          Returns-bind IsSound (item value "max_stale_seconds") _
                                            λ stale_value _.
                                              Returns-bind IsSound (bounded stale_value 0 604800 _)
                                                _
                                                λ stale stale_within.
                                                  Returns-bind IsSound (check_stale mode stale) _
                                                    λ stale_done stale_exact.
                                                      Returns-bind IsSound
                                                        (item value "trusted_result_producers") _
                                                        λ result_value _.
                                                          Returns-bind IsSound
                                                            (strings result_value) _
                                                            λ _ _.
                                                            Returns-bind IsSound
                                                            (item value
                                                            "trusted_validation_producers")
                                                            _
                                                            λ validation_value _.
                                                            Returns-bind IsSound
                                                            (strings validation_value) _
                                                            λ _ _.
                                                            Returns-bind IsSound
                                                            (item value "allowed_tiers") _
                                                            λ tiers_value _.
                                                            Returns-bind IsSound
                                                            (strings tiers_value) _
                                                            λ _ _. Returns-ok IsSound _ (record {
                                                            known_mode =
                                                            choice-eq-ok mode_value modes _ mode
                                                            known;
                                                            ttl_at_least =
                                                            (bounded-eq-ok ttl_value 1 604800 _ ttl
                                                            within).0;
                                                            ttl_at_most =
                                                            (bounded-eq-ok ttl_value 1 604800 _ ttl
                                                            within).1;
                                                            digests =
                                                            (check_receipts-eq-ok mode requirement
                                                            ks receipts_done receipts).0;
                                                            receipt_keys =
                                                            (check_receipts-eq-ok mode requirement
                                                            ks receipts_done receipts).1;
                                                            receipt_mode =
                                                            (check_receipts-eq-ok mode requirement
                                                            ks receipts_done receipts).2;
                                                            partition_mode =
                                                            check_partition-eq-ok mode partition
                                                            partition_done exact;
                                                            stale_bound =
                                                            (bounded-eq-ok stale_value 0 604800 _
                                                            stale stale_within).1;
                                                            stale_mode =
                                                            check_stale-eq-ok mode stale stale_done
                                                            stale_exact;
                                                            })

abbrev pub AreSound : Dict OperationPolicy → Type 0
AreSound policies =
    (operation : String) (p : OperationPolicy) → lookup operation policies ≡ some p → IsSound p

insert-AreSound :
    (operation : String) (p : OperationPolicy) (policies : Dict OperationPolicy)
    → IsSound p
    → AreSound policies
    → AreSound (insert operation p policies)
insert-AreSound operation p policies sound before name q h = elim (Bool-cases (operation == name)) [
  | inl same ↦ subst IsSound (some-injective (rw (lookup-insert, same) at h)) sound
  | inr other ↦ before name q (rw (lookup-insert, other) at h)
]

validate_operations-AreSound :
    (before : Dict OperationPolicy) (operations : Fields) (policies : Dict OperationPolicy)
    → AreSound before
    → validate_operations before operations ≡ ok policies
    → AreSound policies
unfolding validate_operations
validate_operations-AreSound before end policies sound h = subst AreSound (ok-injective h) sound
validate_operations-AreSound before (field operation value rest) policies sound h =
    let (p, e, last) = >>=-eq-ok (validate_operation operation value) _ h in
    validate_operations-AreSound (insert operation p before) rest policies
      (insert-AreSound operation p before (validate_operation-eq-ok operation value p e) sound) last

-- Every policy of an accepted document is sound.
pub validate_policy_document-AreSound :
    (document : Value) (policies : Dict OperationPolicy)
    → validate_policy_document document ≡ ok policies
    → AreSound policies
unfolding validate_policy_document lookup
validate_policy_document-AreSound document policies h =
    let (_, _, h1) = >>=-eq-ok (require (has_keys document _) _) _ h in
    let (version, _, h2) = >>=-eq-ok (item document "spec_version") _ h1 in
    let (enabled, _, h3) = >>=-eq-ok (item document "enabled") _ h2 in
    let (_, _, h4) = >>=-eq-ok (require (has_text version _ && is_boolean enabled) _) _ h3 in
    let (value, _, h5) = >>=-eq-ok (item document "operations") _ h4 in
    let (operations, _, last) = >>=-eq-ok (fields_of value) _ h5 in
    validate_operations-AreSound [] operations policies (λ operation p e. cc) last
