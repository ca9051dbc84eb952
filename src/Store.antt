-- ===== src/Store.antt =====
-- src/oncemesh/store.py: what a lookup reads of a store. A field that is `none` is a method that the
-- store lacks, which the cache tests by `getattr(store, "...", None)`.
pub mod Memory
use once_mesh.Base.{◌≡◌, refl, ◌⊎◌, inl, inr, ℕ, String, List, Option}
use once_mesh.Base.Result.{
  Error, Result, ok, raise, value_error, key_error, type_error, store_read_error, runtime_error,
  out_of_fuel,
}
use once_mesh.Receipt.{Receipt}
use once_mesh.Records.{Manifest, SourceValidation, Invalidation}

abbrev pub Bytes : Type 0
Bytes = List ℕ

pub record Store : Type 0 where
  pub name : String
  pub get_blob : String → Result (Option Bytes)
  pub candidates : String → Result (List Manifest)
  pub result : Option (String → Result (Option Manifest))
  pub validations : String → Result (List SourceValidation)
  pub invalidations : Option (String → Result (List Invalidation))
  pub receipts : String → Result (List Receipt)

-- `try: … except StoreReadError as error: …`; another exception passes.
abbrev pub catch_read {ℓ κ} :
    {A : Type ℓ} {B : Type κ} → Result A → (String → Result B) → (A → Result B) → Result B
catch_read (ok a) handler next = next a
catch_read (raise (store_read_error e)) handler next = handler e
catch_read (raise e) handler next = raise e

-- `try: … except ValueError: …`
abbrev pub catch_value {ℓ κ} :
    {A : Type ℓ} {B : Type κ} → Result A → Result B → (A → Result B) → Result B
catch_value (ok a) handler next = next a
catch_value (raise (value_error e)) handler next = handler
catch_value (raise e) handler next = raise e

-- A caught call that returned: the handler did, or the call and what follows it.
pub catch_value-eq-ok {ℓ κ} :
    {A : Type ℓ} {B : Type κ} (m : Result A) (handler : Result B) (next : A → Result B) {b : B}
    → catch_value m handler next ≡ ok b
    → (handler ≡ ok b) ⊎ ((a : A) × (m ≡ ok a) × (next a ≡ ok b))
catch_value-eq-ok (ok a) handler next h = inr (a, refl, h)
catch_value-eq-ok (raise (value_error e)) handler next h = inl h
catch_value-eq-ok (raise (key_error e)) handler next h = cc
catch_value-eq-ok (raise (type_error e)) handler next h = cc
catch_value-eq-ok (raise (store_read_error e)) handler next h = cc
catch_value-eq-ok (raise (runtime_error e)) handler next h = cc
catch_value-eq-ok (raise out_of_fuel) handler next h = cc
