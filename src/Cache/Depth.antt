-- ===== src/Cache/Depth.antt =====
-- The fuel of `evaluate` in src/oncemesh/cache.py's `_evaluate` is no limit of its own: the depth
-- that the policy allows ends the recursion first.
use mathlib.Core.Path.{fun_ext}
use once_mesh.Base.{
  ℕ, zero, suc, ◌+◌, ◌≤◌, ◌<◌, ◌≡◌, refl, ap, String, Bool, false, List, [], Option, arith,
}
use once_mesh.Base.Dict.{Dict}
use once_mesh.Canonical.Action.{Hexdigest}
use once_mesh.Records.{Manifest, SourceValidation}
use once_mesh.Store.{Store, Bytes}
use once_mesh.Cache.{
  Policy, Traversal, new_traversal, Outcome, pass, reject, fail, Check, continue, ◌>>=◌, ◌>>◌,
}
use once_mesh.Cache.Evaluate.{
  Evaluator, gate, check_invalidation_state, check_freshness, collect_artifacts, check_lineage,
  evaluate,
}
use once_mesh.Cache.Lookup.{evaluate_candidate}
use once_mesh.Cache.Inversion.{gate-eq-pass}

-- Two ways to go on are one where the first step passes into them alike.
continue-ext {ℓ κ} :
    {A : Type ℓ} {B : Type κ} (o : Outcome A) (f g : A → Check B)
    → ((a : A) (t : Traversal) → o ≡ pass a t → f a t ≡ g a t)
    → continue o f ≡ continue o g
continue-ext (pass a t) f g same = same a t refl
continue-ext (reject reason t) f g same = refl
continue-ext (fail e) f g same = refl

module _ (hexdigest : Hexdigest) (policy : Policy) (stores : List Store) where
  -- What stands behind the gate, over the check of a dependency.
  abbrev behind_gate :
      ℕ
      → Manifest
      → Store
      → Bool
      → Evaluator
      → String
      → Check (Dict Bytes × Option SourceValidation)
  behind_gate depth m s ignored one exact = do
    check_invalidation_state hexdigest depth m s policy
    selected ← check_freshness hexdigest m s policy ignored
    artifacts ← collect_artifacts hexdigest s [] m.artifacts
    check_lineage hexdigest one exact m policy stores
    pass (artifacts, selected)

  pub evaluate-fuel :
      (f g depth : ℕ) (requested : String) (m : Manifest) (s : Store) (ignored : Bool)
      (t : Traversal)
      → 0 < f
      → 0 < g
      → policy.max_dependency_depth + 2 ≤ depth + f
      → policy.max_dependency_depth + 2 ≤ depth + g
      → evaluate hexdigest f policy stores depth requested m s ignored t
        ≡ evaluate hexdigest g policy stores depth requested m s ignored t
  unfolding evaluate
  evaluate-fuel zero g depth requested m s ignored t hf hg kf kg = elim hf [ ]
  evaluate-fuel (suc f) zero depth requested m s ignored t hf hg kf kg = elim hg [ ]
  evaluate-fuel (suc f) (suc g) depth requested m s ignored t hf hg kf kg =
      continue-ext (gate hexdigest depth requested m policy t) _ _ λ exact t1 e.
        let shallow = (gate-eq-pass hexdigest depth requested m policy t t1 exact e).0.shallow in
        ap (λ (one : Evaluator). behind_gate depth m s ignored one exact t1)
          (fun_ext λ n. fun_ext λ r. fun_ext λ u.
            evaluate-fuel f g (suc depth) n.action_digest n r false u (omega arith) (omega arith)
              (omega arith) (omega arith))

-- The check of a candidate never ends for want of fuel: with any more fuel than the lookup gives,
-- which is two more than the greatest depth that the policy allows, it has the same outcome.
pub evaluate_candidate-fuel :
    (hexdigest : Hexdigest) (policy : Policy) (stores : List Store) (requested : String)
    (m : Manifest) (s : Store) (ignored : Bool) (fuel : ℕ)
    → policy.max_dependency_depth + 2 ≤ fuel
    → evaluate hexdigest fuel policy stores 0 requested m s ignored new_traversal
      ≡ evaluate_candidate hexdigest policy stores requested m s ignored
unfolding evaluate_candidate
evaluate_candidate-fuel hexdigest policy stores requested m s ignored fuel h =
    evaluate-fuel hexdigest policy stores fuel (suc (suc policy.max_dependency_depth)) 0 requested m
      s ignored new_traversal (omega arith) (omega arith) (omega arith) (omega arith)
