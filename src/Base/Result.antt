-- ===== src/Base/Result.antt =====
-- Calls that may raise. `store_read_error` is `StoreReadError` of store.py; `value_error` is
-- Python's `ValueError` with its message, `key_error` and `type_error` those of a bad subscript; `out_of_fuel` ends a recursion of the model that was given
-- too little fuel, and the source never raises it.
use Prim.Native.String.{String}
use mathlib.Core.Path.{◌≡◌, refl, subst}
use mathlib.Core.Bool.{Bool, true, false}
use once_mesh.Base.Tests.{if◌then◌else◌}

pub data Error : Type 0 where
  value_error : String → Error
  key_error : String → Error
  type_error : String → Error
  store_read_error : String → Error
  runtime_error : String → Error
  out_of_fuel : Error

pub data Result {ℓ} (Answer : Type ℓ) : Type ℓ where
  raise : Error → Result Answer
  ok : Answer → Result Answer

infixl 5 ◌>>=◌ ◌>>◌
abbrev pub ◌>>=◌ {κ ℓ} :
    {Next : Type κ} {Answer : Type ℓ} → Result Answer → (Answer → Result Next) → Result Next
raise error >>= next = raise error
ok answer >>= next = next answer

abbrev pub ◌>>◌ {κ} : {Next : Type κ} → Result (Unit {0}) → Result Next → Result Next
first >> next = first >>= λ done. next

-- `if not test: raise ValueError(message)`
abbrev pub require : Bool → String → Result (Unit {0})
require test message = if test then ok tt else raise (value_error message)

-- Inversion of a bind that returned.
pub >>=-eq-ok {ℓ κ} :
    {Answer : Type ℓ} {Next : Type κ} (first : Result Answer) (next : Answer → Result Next)
    {last : Next}
    → (first >>= next) ≡ ok last
    → (answer : Answer) × (first ≡ ok answer) × (next answer ≡ ok last)
>>=-eq-ok (raise error) next h = cc
>>=-eq-ok (ok answer) next h = (answer, refl, h)

pub ok-injective {ℓ} : {A : Type ℓ} {x y : A} → ok x ≡ ok y → x ≡ y
ok-injective h = cc

pub require-eq-ok :
    (b : Bool) (message : String) {u : Unit {0}} → require b message ≡ ok u → b ≡ true
require-eq-ok true message h = refl
require-eq-ok false message h = cc

-- Whatever the call returns satisfies the predicate.
abbrev pub Returns {ℓ κ} : {A : Type ℓ} → (A → Type κ) → Result A → Type (ℓ ⊔ κ)
Returns {A = A} P m = (a : A) → m ≡ ok a → P a

pub Returns-bind {ℓ κ ι} :
    {A : Type ℓ} {B : Type κ} (P : B → Type ι) (m : Result A) (f : A → Result B)
    → ((a : A) → m ≡ ok a → Returns P (f a))
    → Returns P (m >>= f)
Returns-bind P (raise e) f next p h = cc
Returns-bind P (ok a) f next p h = next a refl p h

pub Returns-ok {ℓ κ} : {A : Type ℓ} (P : A → Type κ) (a : A) → P a → Returns P (ok a)
Returns-ok P a holds b h = subst P (ok-injective h) holds
