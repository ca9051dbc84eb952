-- ===== src/Cache/Edges.antt =====
-- The traversal of `_evaluate` in src/oncemesh/cache.py: the set of active results is restored, and
-- the edges are counted up to the policy's bound.
use once_mesh.Base.{
  ℕ, zero, suc, ◌+◌, ◌≤◌, ◌≡◌, refl, ap, ◌∙◌, String, Bool, true, false, List, [], ◌∷◌, Option,
  none, some, arith, ltb, eq_refl, ◌==◌, Bool-cases, inl, inr, contains,
}
use once_mesh.Base.Result.{
  Result, ok, raise, value_error, key_error, type_error, store_read_error, runtime_error,
  out_of_fuel,
}
use once_mesh.Canonical.Action.{Hexdigest}
use once_mesh.Canonical.Manifest.{result_v1}
use once_mesh.Records.{Descriptor, Dependency, Manifest, SourceValidation}
use once_mesh.Store.{Store, Bytes}
use once_mesh.Cache.{
  Policy, Traversal, Outcome, pass, reject, fail, Check, continue, ◌>>=◌, reject_if, reject_some,
  lift, or_reject, or_reject_read,
}
use once_mesh.Cache.Evaluate.{
  Evaluator, Located, found, failure, gate, check_invalidation_state, check_freshness, after_test,
  collect_artifacts, check_blob, enter, check_found, count_edge, check_dependencies, remove_active,
  deactivate, finally_deactivate, check_lineage, listed, evaluate, or_stale, active_digests,
  locate_result,
}

module _ (policy : Policy) where
  -- From the traversal `t` to `t'`, with `slack` edges above the bound allowed at the end.
  pub record Moves (slack : ℕ) (t t' : Traversal) : Type 0 where
    pub active : t'.active ≡ t.active
    pub grows : t.edges ≤ t'.edges
    pub bounded :
        t.edges ≤ policy.max_dependency_count → t'.edges ≤ policy.max_dependency_count + slack

  -- Where a check ends: a rejection may have counted the one edge too many.
  abbrev pub Ends {ℓ} : {A : Type ℓ} → Traversal → Outcome A → Type 0
  Ends t (pass a t') = Moves 0 t t'
  Ends t (reject reason t') = Moves 1 t t'
  Ends t (fail e) = Unit

  stays : (slack : ℕ) (t : Traversal) → Moves slack t t
  stays slack t = record { active = refl; grows = omega arith; bounded = λ h. omega arith }

  Moves-trans : (slack : ℕ) (t u w : Traversal) → Moves 0 t u → Moves slack u w → Moves slack t w
  Moves-trans slack t u w a b = record {
    active = b.active ∙ a.active;
    grows = omega (arith, a.grows, b.grows);
    bounded = λ h. b.bounded (let k = a.bounded h in omega arith);
  }

  Ends-from {ℓ} : {A : Type ℓ} (t u : Traversal) (o : Outcome A) → Moves 0 t u → Ends u o → Ends t o
  Ends-from t u (pass a w) a' e = Moves-trans 0 t u w a' e
  Ends-from t u (reject reason w) a' e = Moves-trans 1 t u w a' e
  Ends-from t u (fail error) a' e = tt

  Ends-continue {ℓ κ} :
      {A : Type ℓ} {B : Type κ} (t : Traversal) (o : Outcome A) (f : A → Check B)
      → Ends t o
      → ((a : A) (u : Traversal) → Ends u (f a u))
      → Ends t (continue o f)
  Ends-continue t (pass a u) f e next = Ends-from t u (f a u) e (next a u)
  Ends-continue t (reject reason u) f e next = e
  Ends-continue t (fail error) f e next = tt

  Ends-reject_if : (b : Bool) (reason : String) (t : Traversal) → Ends t (reject_if b reason t)
  Ends-reject_if true reason t = stays 1 t
  Ends-reject_if false reason t = stays 0 t

  Ends-reject_some : (o : Option String) (t : Traversal) → Ends t (reject_some o t)
  Ends-reject_some none t = stays 0 t
  Ends-reject_some (some reason) t = stays 1 t

  Ends-lift {ℓ} : {A : Type ℓ} (r : Result A) (t : Traversal) → Ends t (lift r t)
  Ends-lift (ok a) t = stays 0 t
  Ends-lift (raise e) t = tt

  Ends-or_reject {ℓ} :
      {A : Type ℓ} (r : Result A) (reason : String) (t : Traversal) → Ends t (or_reject r reason t)
  Ends-or_reject (ok a) reason t = stays 0 t
  Ends-or_reject (raise (value_error e)) reason t = stays 1 t
  Ends-or_reject (raise (key_error e)) reason t = tt
  Ends-or_reject (raise (type_error e)) reason t = tt
  Ends-or_reject (raise (store_read_error e)) reason t = tt
  Ends-or_reject (raise (runtime_error e)) reason t = tt
  Ends-or_reject (raise out_of_fuel) reason t = tt

  Ends-or_reject_read {ℓ} :
      {A : Type ℓ} (r : Result A) (reason : String) (t : Traversal)
      → Ends t (or_reject_read r reason t)
  Ends-or_reject_read (ok a) reason t = stays 0 t
  Ends-or_reject_read (raise (store_read_error e)) reason t = stays 1 t
  Ends-or_reject_read (raise (value_error e)) reason t = tt
  Ends-or_reject_read (raise (key_error e)) reason t = tt
  Ends-or_reject_read (raise (type_error e)) reason t = tt
  Ends-or_reject_read (raise (runtime_error e)) reason t = tt
  Ends-or_reject_read (raise out_of_fuel) reason t = tt

  Ends-or_stale :
      (w : Option SourceValidation) (fresh_until : Option String) (permit : Bool) (t : Traversal)
      → Ends t (or_stale w fresh_until permit t)
  unfolding or_stale
  Ends-or_stale (some v) fresh_until permit t = stays 0 t
  Ends-or_stale none none true t = stays 0 t
  Ends-or_stale none none false t = stays 1 t
  Ends-or_stale none (some text) permit t = stays 1 t

  -- A check that ends well from wherever it starts.
  pub record Keeps {ℓ} {A : Type ℓ} (m : Check A) : Type 0 where
    pub at : (t : Traversal) → Ends t (m t)

  module _ {ℓ κ} {A : Type ℓ} {B : Type κ} where
    Keeps-bind :
        (m : Check A) (f : A → Check B) → Keeps m → ((a : A) → Keeps (f a)) → Keeps (m >>= f)
    Keeps-bind m f km kf = record { at = λ t. Ends-continue t (m t) f (km.at t) (λ a. (kf a).at) }

  module _ {ℓ} {A : Type ℓ} where
    Keeps-pass : (a : A) → Keeps (pass a)
    Keeps-pass a = record { at = stays 0 }

    Keeps-reject : (reason : String) → Keeps {A = A} (reject reason)
    Keeps-reject reason = record { at = stays 1 }

    Keeps-lift : (r : Result A) → Keeps (lift r)
    Keeps-lift r = record { at = Ends-lift r }

    Keeps-or_reject : (r : Result A) (reason : String) → Keeps (or_reject r reason)
    Keeps-or_reject r reason = record { at = Ends-or_reject r reason }

    Keeps-or_reject_read : (r : Result A) (reason : String) → Keeps (or_reject_read r reason)
    Keeps-or_reject_read r reason = record { at = Ends-or_reject_read r reason }

  Keeps-reject_if : (b : Bool) (reason : String) → Keeps (reject_if b reason)
  Keeps-reject_if b reason = record { at = Ends-reject_if b reason }

  Keeps-reject_some : (o : Option String) → Keeps (reject_some o)
  Keeps-reject_some o = record { at = Ends-reject_some o }

  Keeps-or_stale :
      (w : Option SourceValidation) (fresh_until : Option String) (permit : Bool)
      → Keeps (or_stale w fresh_until permit)
  Keeps-or_stale w fresh_until permit = record { at = Ends-or_stale w fresh_until permit }

  ruleset keeps_rules = (
    Keeps-bind, Keeps-pass, Keeps-reject, Keeps-lift, Keeps-or_reject, Keeps-or_reject_read,
    Keeps-reject_if, Keeps-reject_some, Keeps-or_stale,
  )

  Keeps-active_digests : Keeps active_digests
  unfolding active_digests
  Keeps-active_digests = record { at = stays 0 }

  counted :
      (t : Traversal) (over : Bool)
      → ltb policy.max_dependency_count (t.edges + 1) ≡ over
      → Ends t (reject_if over "dependency_count_exceeded" (record t { edges = t.edges + 1 }))
  counted t true e = record { active = refl; grows = omega arith; bounded = λ h. omega arith }
  counted t false e = record { active = refl; grows = omega arith; bounded = λ h. ground arith }

  remove_active-cons : (exact : String) (ds : List String) → remove_active exact (exact ∷ ds) ≡ ds
  unfolding remove_active
  remove_active-cons exact ds = rw (eq_refl exact)

  deactivated :
      (slack : ℕ) (exact : String) (t u : Traversal)
      → Moves slack (record t { active = exact ∷ t.active }) u
      → Moves slack t (deactivate exact u)
  unfolding deactivate
  deactivated slack exact t u h = record {
    active = ap (remove_active exact) h.active ∙ remove_active-cons exact t.active;
    grows = h.grows;
    bounded = h.bounded;
  }

  Ends-finally :
      (exact : String) (t : Traversal) (o : Outcome (Unit {0}))
      → Ends (record t { active = exact ∷ t.active }) o
      → Ends t (finally_deactivate exact o)
  unfolding finally_deactivate
  Ends-finally exact t (pass a u) h = deactivated 0 exact t u h
  Ends-finally exact t (reject reason u) h = deactivated 1 exact t u h
  Ends-finally exact t (fail e) h = tt

  module _ (hexdigest : Hexdigest) where
    Keeps-check_invalidation_state :
        (depth : ℕ) (m : Manifest) (s : Store)
        → Keeps (check_invalidation_state hexdigest depth m s policy)
    unfolding check_invalidation_state
    Keeps-check_invalidation_state depth m s = search keeps_rules

    Keeps-after_test :
        (m : Manifest) (s : Store) (fresh : Bool) → Keeps (after_test hexdigest m s policy fresh)
    unfolding after_test
    Keeps-after_test m s true = search keeps_rules
    Keeps-after_test m s false = search keeps_rules

    Keeps-gate :
        (depth : ℕ) (requested : String) (m : Manifest)
        → Keeps (gate hexdigest depth requested m policy)
    unfolding gate
    Keeps-gate depth requested m = search (keeps_rules, Keeps-active_digests) depth 30

    Keeps-check_freshness :
        (m : Manifest) (s : Store) (ignored : Bool)
        → Keeps (check_freshness hexdigest m s policy ignored)
    unfolding check_freshness
    Keeps-check_freshness m s true = search keeps_rules
    Keeps-check_freshness m s false = search (keeps_rules, Keeps-after_test)

    Keeps-check_blob :
        (d : Descriptor) (value : Option Bytes) → Keeps (check_blob hexdigest d value)
    unfolding check_blob
    Keeps-check_blob d none = search keeps_rules
    Keeps-check_blob d (some blob) = search keeps_rules

    Keeps-collect_artifacts :
        (s : Store) (names : List String) (ds : List Descriptor)
        → Keeps (collect_artifacts hexdigest s names ds)
    unfolding collect_artifacts
    Keeps-collect_artifacts s names [] = search keeps_rules
    Keeps-collect_artifacts s names (d ∷ ds) =
        Keeps-bind (reject_if (contains names d.name) "invalid_artifact_name") _
          (Keeps-reject_if _ _)
          λ _. Keeps-bind (lift (s.get_blob d.digest)) _ (Keeps-lift _) λ value.
            Keeps-bind (check_blob hexdigest d value) _ (Keeps-check_blob d value) λ blob.
              Keeps-bind (collect_artifacts hexdigest s (d.name ∷ names) ds) _
                (Keeps-collect_artifacts s (d.name ∷ names) ds)
                λ rest. Keeps-pass ((d.name, blob) ∷ rest)

    Keeps-count_edge : Keeps (count_edge policy)
    unfolding count_edge
    Keeps-count_edge = record {
      at = λ t. counted t (ltb policy.max_dependency_count (t.edges + 1)) refl;
    }

    Keeps-enter {ℓ} : {A : Type ℓ} (t : Traversal) (o : Outcome A) → Ends t o → Ends t (enter o)
    unfolding enter
    Keeps-enter t (pass a u) e = e
    Keeps-enter t (reject reason u) e = e
    Keeps-enter t (fail error) e = tt

    module _ (one : Evaluator) (keeps_one : (m : Manifest) (s : Store) → Keeps (one m s)) where
      Keeps-check_found : (located : Located) → Keeps (check_found one located)
      unfolding check_found
      Keeps-check_found (failure reason) = record { at = stays 1 }
      Keeps-check_found (found m s) = record {
        at = λ t. Keeps-enter t (one m s t) ((keeps_one m s).at t);
      }

      Keeps-check_dependencies :
          (stores : List Store) (ds : List Dependency)
          → Keeps (check_dependencies hexdigest one policy stores ds)
      unfolding check_dependencies
      Keeps-check_dependencies stores [] = search keeps_rules
      Keeps-check_dependencies stores (d ∷ ds) =
          Keeps-bind (count_edge policy) _ Keeps-count_edge λ _.
            Keeps-bind (lift (locate_result hexdigest d.result_digest stores)) _ (Keeps-lift _)
              λ located.
                Keeps-bind (check_found one located) _ (Keeps-check_found located)
                  λ _. Keeps-check_dependencies stores ds

      Keeps-check_lineage :
          (exact : String) (m : Manifest) (stores : List Store)
          → Keeps (check_lineage hexdigest one exact m policy stores)
      unfolding check_lineage
      Keeps-check_lineage exact m stores = record {
        at = λ t. elim (Bool-cases (m.spec_version == result_v1)) [
          | inl v1 ↦
              let u : Traversal = record t { active = exact ∷ t.active } in
              let o = check_dependencies hexdigest one policy stores (listed m.dependencies) u in
              rw v1 (
                Ends-finally exact t o
                  ((Keeps-check_dependencies stores (listed m.dependencies)).at u))
          | inr v0 ↦ rw v0 (stays 0 t)
        ];
      }

    Keeps-evaluate :
        (fuel : ℕ) (stores : List Store) (depth : ℕ) (requested : String) (m : Manifest) (s : Store)
        (ignored : Bool)
        → Keeps (evaluate hexdigest fuel policy stores depth requested m s ignored)
    unfolding evaluate
    Keeps-evaluate zero stores depth requested m s ignored = record { at = λ t. tt }
    Keeps-evaluate (suc fuel) stores depth requested m s ignored =
        let one : Evaluator =
          λ n r. evaluate hexdigest fuel policy stores (suc depth) n.action_digest n r false in
        let keeps_one : (n : Manifest) (r : Store) → Keeps (one n r) =
          λ n r. Keeps-evaluate fuel stores (suc depth) n.action_digest n r false in
        Keeps-bind (gate hexdigest depth requested m policy) _ (Keeps-gate depth requested m)
          λ exact.
            Keeps-bind (check_invalidation_state hexdigest depth m s policy) _
              (Keeps-check_invalidation_state depth m s)
              λ _.
                Keeps-bind (check_freshness hexdigest m s policy ignored) _
                  (Keeps-check_freshness m s ignored)
                  λ selected.
                    Keeps-bind (collect_artifacts hexdigest s [] m.artifacts) _
                      (Keeps-collect_artifacts s [] m.artifacts)
                      λ artifacts.
                        Keeps-bind (check_lineage hexdigest one exact m policy stores) _
                          (Keeps-check_lineage one keeps_one exact m stores)
                          λ _. Keeps-pass (artifacts, selected)

-- The check of a manifest leaves the set of active results as it found it, whether it passes or
-- rejects, and only adds to the count of edges: from a count within the policy's bound it passes
-- within the bound, and rejects at most one edge above it.
pub evaluate-Ends :
    (hexdigest : Hexdigest) (policy : Policy) (fuel : ℕ) (stores : List Store) (depth : ℕ)
    (requested : String) (m : Manifest) (s : Store) (ignored : Bool) (t : Traversal)
    → Ends policy t (evaluate hexdigest fuel policy stores depth requested m s ignored t)
evaluate-Ends hexdigest policy fuel stores depth requested m s ignored =
    (Keeps-evaluate policy hexdigest fuel stores depth requested m s ignored).at
