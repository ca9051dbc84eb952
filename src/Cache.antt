-- ===== src/Cache.antt =====
-- src/oncemesh/cache.py: publication, ordered lookup and the checks of a candidate. This file has the
-- policy and the ways in which a check of a candidate ends; the checks are in Evaluate.
pub mod Evaluate
pub mod Lookup
pub mod Admissible
pub mod Inversion
pub mod Soundness
pub mod Reuse
pub mod Publish
pub mod Sorted
pub mod Published
pub mod Roundtrip
pub mod Revoked
pub mod Depth
pub mod Edges
use once_mesh.Base.{
  ℕ, String, Bool, true, false, List, Option, none, some, contains, if◌then◌else◌, [], ◌∷◌,
}
use once_mesh.Base.Result.{
  Error, Result, ok, raise, value_error, key_error, type_error, store_read_error, runtime_error,
  out_of_fuel,
}

-- `now` is in microseconds.
pub record Policy : Type 0 where
  pub now : ℕ
  pub trusted_producers : Option (List String)
  pub trusted_validation_producers : Option (List String)
  pub trusted_invalidation_producers : Option (List String)
  pub permit_no_expiry : Bool
  pub require_lineage : Bool
  pub max_dependency_depth : ℕ
  pub max_dependency_count : ℕ

-- `trust is None or producer in trust`
unfoldable pub trusts : Option (List String) → String → Bool
trusts none producer = true
trusts (some producers) producer = contains producers producer

-- `_DependencyTraversal`
pub record Traversal : Type 0 where
  pub active : List String
  pub edges : ℕ

abbrev pub new_traversal : Traversal
new_traversal = record { active = []; edges = 0 }

-- How `_evaluate` goes on or returns: `pass` is no return yet, or the last one; `reject` is
-- `return None, reason, None`; `fail` is an exception that leaves the lookup, and with it the
-- traversal.
pub data Outcome {ℓ} (A : Type ℓ) : Type ℓ where
  pass : A → Traversal → Outcome A
  reject : String → Traversal → Outcome A
  fail : Error → Outcome A

abbrev pub Check {ℓ} : Type ℓ → Type ℓ
Check A = Traversal → Outcome A

abbrev pub continue {ℓ κ} : {A : Type ℓ} {B : Type κ} → Outcome A → (A → Check B) → Outcome B
continue (pass a t) f = f a t
continue (reject reason t) f = reject reason t
continue (fail e) f = fail e

infixl 5 ◌>>=◌ ◌>>◌
abbrev pub ◌>>=◌ {ℓ κ} : {A : Type ℓ} {B : Type κ} → Check A → (A → Check B) → Check B
◌>>=◌ m f t = continue (m t) f

abbrev pub ◌>>◌ {ℓ κ} : {A : Type ℓ} {B : Type κ} → Check A → Check B → Check B
m >> n = m >>= λ _. n

abbrev pub reject_if : Bool → String → Check (Unit {0})
reject_if true reason t = reject reason t
reject_if false reason t = pass tt t

abbrev pub reject_some : Option String → Check (Unit {0})
reject_some (some reason) t = reject reason t
reject_some none t = pass tt t

abbrev pub lift {ℓ} : {A : Type ℓ} → Result A → Check A
lift (ok a) t = pass a t
lift (raise e) t = fail e

-- `try: … except ValueError: return None, reason, None`
abbrev pub or_reject {ℓ} : {A : Type ℓ} → Result A → String → Check A
or_reject (ok a) reason t = pass a t
or_reject (raise (value_error message)) reason t = reject reason t
or_reject (raise e) reason t = fail e

-- The same for StoreReadError.
abbrev pub or_reject_read {ℓ} : {A : Type ℓ} → Result A → String → Check A
or_reject_read (ok a) reason t = pass a t
or_reject_read (raise (store_read_error message)) reason t = reject reason t
or_reject_read (raise e) reason t = fail e
