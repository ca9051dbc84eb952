-- ===== src/Runtime/Served.antt =====
-- What `execute_http_with_policy` of src/oncemesh/runtime.py returns.
use once_mesh.Base.{String, Option}
use once_mesh.Base.Dict.{Dict}
use once_mesh.Json.{Value}
use once_mesh.Runtime.Outcome.{ExecutionOutcome, Setting}
use once_mesh.Runtime.Conditional.{Web}
use once_mesh.Runtime.Servable.{IsServed, Servable}

module _ (setting : Setting) (web : Web) (environment : Dict String) (loaded : Option Value)
    (caller : Option String) (action : Value) where
  abbrev Served : ExecutionOutcome → Type 0
  Served = IsServed setting web environment loaded caller action
