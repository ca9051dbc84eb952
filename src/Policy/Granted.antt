-- ===== src/Policy/Granted.antt =====
-- What the resolution of src/oncemesh/policy.py grants.
use once_mesh.Base.{
  ◌≡◌, ◌≢◌, inl, inr, refl, sym, ap, ◌∙◌, String, true, false, Option, none, some, ◌==◌, Bool-cases,
  arith, eq_iff,
}
use once_mesh.Base.Dict.{Dict, lookup}
use once_mesh.Base.Result.{ok-injective, ok, >>=-eq-ok}
use once_mesh.Json.{Value, bool, null, int, float, str, arr, obj, item}
use once_mesh.Store.{catch_value-eq-ok}
use once_mesh.Policy.{OperationPolicy, validate_policy_document}
use once_mesh.Policy.Registry.{
  PolicyResolution, kill_switch, refused, resolve_policy, resolve_document, resolve_loaded, resolve,
  is_true,
}
use once_mesh.Policy.Inversion.{IsSound, validate_policy_document-AreSound}

-- Why a policy may be granted: the switch is off, the file has a valid document that is enabled and
-- has this policy for the operation, and the policy is sound and not disabled.
pub record IsGranted (environment : Dict String) (loaded : Option Value) (operation : String)
    (r : PolicyResolution) (p : OperationPolicy) : Type 0 where
  pub switch_off : kill_switch environment ≡ false
  pub document : Value
  pub policies : Dict OperationPolicy
  pub is_loaded : loaded ≡ some document
  pub valid : validate_policy_document document ≡ ok policies
  pub enabled : item document "enabled" ≡ ok (bool true)
  pub listed : lookup operation policies ≡ some p
  pub not_disabled : p.mode ≢ "disabled"
  pub reason : r.reason ≡ p.mode
  pub inactive : r.kill_switch_active ≡ false
  pub sound : IsSound p

some-injective {ℓ} : {A : Type ℓ} {x y : A} → some x ≡ some y → x ≡ y
some-injective h = cc

nothing-granted :
    (reason : String) (r : PolicyResolution) (p : OperationPolicy)
    → ok (refused reason) ≡ ok r
    → r.policy ≡ some p
    → ⊥
nothing-granted reason r p h some_policy =
    cc (ap (λ (x : PolicyResolution). x.policy) (ok-injective h) ∙ some_policy)

is_true-eq : (v : Value) → is_true v ≡ true → v ≡ bool true
is_true-eq (bool b) h = ap bool h
is_true-eq null h = cc
is_true-eq (int z) h = cc
is_true-eq (float f) h = cc
is_true-eq (str s) h = cc
is_true-eq (arr vs) h = cc
is_true-eq (obj fs) h = cc

-- The end of `resolve`, where a policy comes out.
resolve_policy-eq-some :
    (o : Option OperationPolicy) (p : OperationPolicy)
    → (resolve_policy o).policy ≡ some p
    → (o ≡ some p)
      × (p.mode ≢ "disabled")
      × ((resolve_policy o).reason ≡ p.mode)
      × ((resolve_policy o).kill_switch_active ≡ false)
unfolding resolve_policy
resolve_policy-eq-some none p h = cc
resolve_policy-eq-some (some q) p h = elim (Bool-cases (q.mode == "disabled")) [
  | inl disabled ↦ cc (rw disabled at h)
  | inr active ↦
      (let same : q ≡ p = some-injective (rw active at h) in
        rw active (
          ap some same,
          (λ d.
              let k : q.mode ≡ "disabled" = ap (λ (x : OperationPolicy). x.mode) same ∙ d in
              ground (arith, eq_iff q.mode "disabled")),
          ap (λ (x : OperationPolicy). x.mode) same,
          refl,
        ))
]

resolve_document-IsGranted :
    (environment : Dict String) (operation : String) (document : Value)
    (policies : Dict OperationPolicy) (r : PolicyResolution) (p : OperationPolicy)
    → kill_switch environment ≡ false
    → validate_policy_document document ≡ ok policies
    → resolve_document operation document policies ≡ ok r
    → r.policy ≡ some p
    → IsGranted environment (some document) operation r p
unfolding resolve_document
resolve_document-IsGranted environment operation document policies r p off valid h some_policy =
    let (enabled, is_enabled, last) = >>=-eq-ok (item document "enabled") _ h in
    elim (Bool-cases (is_true enabled)) [
      | inl on ↦
          (let same = ok-injective (rw on at last) in
            let (listed, not_disabled, reason, inactive) =
              resolve_policy-eq-some (lookup operation policies) p
                (ap (λ (x : PolicyResolution). x.policy) same ∙ some_policy) in
            record {
              switch_off = off;
              document = document;
              policies = policies;
              is_loaded = refl;
              valid = valid;
              enabled = is_enabled ∙ ap ok (is_true-eq enabled on);
              listed = listed;
              not_disabled = not_disabled;
              reason = sym (ap (λ (x : PolicyResolution). x.reason) same) ∙ reason;
              inactive = sym (ap (λ (x : PolicyResolution). x.kill_switch_active) same) ∙ inactive;
              sound = validate_policy_document-AreSound document policies valid operation p listed;
            })
      | inr closed ↦ absurd (nothing-granted "policy_disabled" r p (rw closed at last) some_policy)
    ]

resolve_loaded-IsGranted :
    (environment : Dict String) (operation : String) (loaded : Option Value) (r : PolicyResolution)
    (p : OperationPolicy)
    → kill_switch environment ≡ false
    → resolve_loaded operation loaded ≡ ok r
    → r.policy ≡ some p
    → IsGranted environment loaded operation r p
unfolding resolve_loaded
resolve_loaded-IsGranted environment operation none r p off h some_policy =
    absurd (nothing-granted "policy_error" r p h some_policy)
resolve_loaded-IsGranted environment operation (some document) r p off h some_policy =
    elim (catch_value-eq-ok (validate_policy_document document) _
      (resolve_document operation document) h) [
        | inl failed ↦ absurd (nothing-granted "policy_error" r p failed some_policy)
        | inr passed ↦
            (let (policies, valid, last) = passed in
              resolve_document-IsGranted environment operation document policies r p off valid last
                some_policy)
      ]

-- `resolve` grants a policy only with the kill switch off, from a document that was read and is
-- valid and enabled, under the operation's own key; the policy is not disabled, is the reason given,
-- and satisfies every constraint between its fields.
pub resolve-IsGranted :
    (environment : Dict String) (loaded : Option Value) (operation : String) (r : PolicyResolution)
    (p : OperationPolicy)
    → resolve environment loaded operation ≡ ok r
    → r.policy ≡ some p
    → IsGranted environment loaded operation r p
unfolding resolve
resolve-IsGranted environment loaded operation r p h some_policy =
    elim (Bool-cases (kill_switch environment)) [
      | inl on ↦
          cc (ap (λ (x : PolicyResolution). x.policy) (ok-injective (rw on at h)) ∙ some_policy)
      | inr off ↦
          resolve_loaded-IsGranted environment operation loaded r p off (rw off at h) some_policy
    ]
