-- ===== src/Runtime/Rules.antt =====
-- Postconditions of the runs of src/oncemesh/runtime.py.
use once_mesh.Base.{◌≡◌, refl, subst, Bool, true, false, not, if◌then◌else◌}
use once_mesh.Base.Result.{Result, ok, raise, ok-injective}
use once_mesh.Runtime.{World, Run, returns, and_then, ◌>>=◌, ◌>>◌, call}

-- Whatever the run returns satisfies the predicate, from every world.
abbrev pub Yields : {A : Type 0} → (A → Type 0) → Run A → Type 0
Yields {A} P m = (w : World) (a : A) → (m w).0 ≡ ok a → P a

and_then-Yields :
    {A B : Type 0} (P : B → Type 0) (o : Result A × World) (f : A → Run B)
    → ((a : A) → o.0 ≡ ok a → Yields P (f a))
    → (b : B) → (and_then o f).0 ≡ ok b
    → P b
and_then-Yields P (ok a, w) f next b h = next a refl w b h
and_then-Yields P (raise e, w) f next b h = cc

-- The rule for a bind that keeps what the first run yields.
pub Yields-after :
    {A B : Type 0} {Q : A → Type 0} (P : B → Type 0) (m : Run A) (f : A → Run B)
    → Yields Q m
    → ((a : A) → Q a → Yields P (f a))
    → Yields P (m >>= f)
Yields-after P m f first next w b h = and_then-Yields P (m w) f (λ a e. next a (first w a e)) b h

-- The rule for a bind that forgets what the first run returns.
pub Yields-bind :
    {A B : Type 0} (P : B → Type 0) (m : Run A) (f : A → Run B)
    → ((a : A) → Yields P (f a))
    → Yields P (m >>= f)
Yields-bind P m f next w b h = and_then-Yields P (m w) f (λ a _. next a) b h

-- The rule for a run that is there for what it changes.
pub Yields-then :
    {B : Type 0} (P : B → Type 0) (m : Run (Unit {0})) (n : Run B) → Yields P n → Yields P (m >> n)
Yields-then P m n next = Yields-bind P m (λ _. n) (λ _. next)

pub Yields-call :
    {A B : Type 0} (P : B → Type 0) (r : Result A) (f : A → Run B)
    → ((a : A) → r ≡ ok a → Yields P (f a))
    → Yields P (call r >>= f)
Yields-call P r f next w b h = and_then-Yields P (r, w) f next b h

pub Yields-returns : {A : Type 0} (P : A → Type 0) (a : A) → P a → Yields P (returns a)
Yields-returns P a p w b h = subst P (ok-injective h) p

pub Yields-if :
    {A : Type 0} (P : A → Type 0) (b : Bool) (m n : Run A)
    → (b ≡ true → Yields P m)
    → (b ≡ false → Yields P n)
    → Yields P (if b then m else n)
Yields-if P true m n yes_case no_case = yes_case refl
Yields-if P false m n yes_case no_case = no_case refl

-- The rule for a guard, `if not b: return …`.
pub Yields-unless :
    {A : Type 0} (P : A → Type 0) (b : Bool) (m n : Run A)
    → (b ≡ false → Yields P m)
    → (b ≡ true → Yields P n)
    → Yields P (if not b then m else n)
Yields-unless P true m n refused passed = passed refl
Yields-unless P false m n refused passed = refused refl

pub Yields-weaken :
    {A : Type 0} {P Q : A → Type 0} (m : Run A) → Yields P m → ((a : A) → P a → Q a) → Yields Q m
Yields-weaken m yielded weaker w a h = weaker a (yielded w a h)
