-- ===== src/Json.antt =====
-- JSON values as Python's `json` module reads them: the values that canonical.py validates, and the
-- subscripts that the code uses on them.
use once_mesh.Base.{ℕ, String, Bool, List, [], ◌∷◌, Option, none, some, ◌==◌, if◌then◌else◌}
use once_mesh.Base.Result.{Result, ok, raise, key_error, type_error}

-- `negsuc n` is -(n + 1).
pub data ℤ : Type 0 where
  pos : ℕ → ℤ
  negsuc : ℕ → ℤ

mutual
  pub data Fields : Type 0 where
    end : Fields
    field : String → Value → Fields → Fields

  pub data Items : Type 0 where
    nil : Items
    cons : Value → Items → Items

  pub data Value : Type 0 where
    null : Value
    bool : Bool → Value
    int : ℤ → Value
    -- a binary64 by its bits; the profile forbids all of them
    float : ℕ → Value
    str : String → Value
    arr : Items → Value
    obj : Fields → Value

abbrev pub find : String → Fields → Option Value
find k end = none
find k (field j v fs) = if j == k then some v else find k fs

-- value[key]
abbrev pub item : Value → String → Result Value
item (obj fs) key = elim (find key fs) [ none ↦ raise (key_error key) | some v ↦ ok v ]
item _ key = raise (type_error key)

-- value.get(key) of a dict; any other value has no `get`
abbrev pub get : Value → String → Option Value
get (obj fs) key = find key fs
get _ key = none

abbrev pub keys : Fields → List String
keys end = []
keys (field k v fs) = k ∷ keys fs

abbrev pub items : Items → List Value
items nil = []
items (cons v vs) = v ∷ items vs

abbrev pub from_items : List Value → Items
from_items [] = nil
from_items (v ∷ vs) = cons v (from_items vs)
