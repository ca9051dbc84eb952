-- ===== src/Cache/Soundness.antt =====
-- A result that the lookup returns is admissible, in its lineage too.
use once_mesh.Base.{
  ℕ, zero, suc, ◌≡◌, refl, sym, subst, String, Bool, true, false, List, [], ◌∷◌, Option, none, some,
  ◌==◌, eq_iff, In, here, there, inl, inr, Bool-cases, Option-cases,
}
use once_mesh.Base.Dict.{Dict}
use once_mesh.Base.Result.{
  Result, ok, raise, value_error, key_error, type_error, store_read_error, runtime_error,
  out_of_fuel, >>=-eq-ok,
}
use once_mesh.Canonical.Action.{Hexdigest}
use once_mesh.Canonical.Manifest.{result_v1}
use once_mesh.Records.{Dependency, Manifest, SourceValidation, check_manifest, digest_of}
use once_mesh.Store.{Store, Bytes}
use once_mesh.Cache.{Policy, Traversal, Outcome, pass, reject, fail, lift}
use once_mesh.Cache.Evaluate.{
  Evaluator, Located, found, failure, check_located, locate_from, locate_result, gate,
  check_invalidation_state, check_freshness, collect_artifacts, enter, compare_exact, check_found,
  count_edge, check_dependencies, finally_deactivate, check_lineage, listed, evaluate,
}
use once_mesh.Cache.Admissible.{IsAdmissible, admissible, Lineage, none_left, dependency}
use once_mesh.Cache.Inversion.{
  continue-eq-pass, pass-injective, lift-eq-pass, gate-eq-pass, check_invalidation_state-eq-pass,
  check_freshness-eq-pass, collect_artifacts-eq-pass, catch_read-cases,
}

found-injective :
    {m n : Manifest} {s r : Store} → ok (found m s) ≡ ok (found n r) → (m ≡ n) × (s ≡ r)
found-injective h = (cc, cc)

failure-ne-found :
    {reason : String} {m : Manifest} {s : Store} → ok (failure reason) ≡ ok (found m s) → ⊥
failure-ne-found h = cc (h)

passed_inside :
    {t' : Traversal} {u : Unit {0}} (o : Outcome (Dict Bytes × Option SourceValidation))
    → enter o ≡ pass u t'
    → (artifacts : Dict Bytes) × (v : Option SourceValidation) × (t : Traversal) × (o
        ≡ pass (artifacts, v) t)
unfolding enter
passed_inside (pass (artifacts, v) t) h = (artifacts, v, t, refl)
passed_inside (reject reason t) h = cc
passed_inside (fail e) h = cc

finally-eq-pass :
    (exact : String) (o : Outcome (Unit {0})) {u : Unit {0}} {t' : Traversal}
    → finally_deactivate exact o ≡ pass u t'
    → (t : Traversal) × (o ≡ pass tt t)
unfolding finally_deactivate
finally-eq-pass exact (pass _ t) h = (t, refl)
finally-eq-pass exact (reject reason t) h = cc
finally-eq-pass exact (fail e) h = cc

compare_exact-eq-found :
    (d : String) (m n : Manifest) (s r : Store) (answer : Result String)
    → compare_exact d m s answer ≡ ok (found n r)
    → (n ≡ m) × (r ≡ s) × (answer ≡ ok d)
unfolding compare_exact
compare_exact-eq-found d m n s r (ok exact) h = elim (Bool-cases (exact == d)) [
  | inl same ↦
      let e : ok (found m s) ≡ ok (found n r) = rw same at h in
      (sym (found-injective e).0, sym (found-injective e).1, cc ((eq_iff exact d).0 same))
  | inr other ↦ absurd (failure-ne-found (rw other at h))
]
compare_exact-eq-found d m n s r (raise (value_error e)) h = cc
compare_exact-eq-found d m n s r (raise (key_error e)) h = cc
compare_exact-eq-found d m n s r (raise (type_error e)) h = cc
compare_exact-eq-found d m n s r (raise (store_read_error e)) h = cc
compare_exact-eq-found d m n s r (raise (runtime_error e)) h = cc
compare_exact-eq-found d m n s r (raise out_of_fuel) h = cc

module _ (hexdigest : Hexdigest) where
  check_located-eq-found :
      (d : String) (m n : Manifest) (s r : Store)
      → check_located hexdigest d m s ≡ ok (found n r)
      → (n ≡ m) × (r ≡ s) × (digest_of hexdigest m ≡ ok d)
  unfolding check_located
  check_located-eq-found d m n s r h =
      let facts = compare_exact-eq-found d m n s r _ h in
      let (_, _, digested) = >>=-eq-ok (check_manifest m) (λ _. digest_of hexdigest m) facts.2 in
      (facts.0, facts.1, digested)

  -- What is located stands in one of the stores under the digest.
  locate_from-eq-found :
      (failed supported : Bool) (d : String) (stores : List Store) (m : Manifest) (s : Store)
      → locate_from hexdigest failed supported d stores ≡ ok (found m s)
      → In s stores × (digest_of hexdigest m ≡ ok d)
  unfolding locate_from
  locate_from-eq-found true supported d [] m s h = cc
  locate_from-eq-found false true d [] m s h = cc
  locate_from-eq-found false false d [] m s h = cc
  locate_from-eq-found failed supported d (store ∷ rest) m s h = elim (Option-cases store.result) [
    | inl lacks ↦
        let later = locate_from-eq-found failed supported d rest m s (rw lacks at h) in
        (there later.0, later.1)
    | inr (reader, has) ↦ elim (catch_read-cases (reader d) _ _ (rw has at h)) [
      | inl (none, _, h') ↦
          let later = locate_from-eq-found failed true d rest m s h' in (there later.0, later.1)
      | inl (some n, _, h') ↦
          let facts = check_located-eq-found d n m store s h' in
          (subst (λ x. In x (store ∷ rest)) (sym facts.1) here, rw facts.0 facts.2)
      | inr (_, _, h') ↦
          let later = locate_from-eq-found true true d rest m s h' in (there later.0, later.1)
    ]
  ]

  -- The loop over the dependencies has found each of them, and has passed it.
  module _ (policy : Policy) (stores : List Store) (depth : ℕ) (evaluate_one : Evaluator)
      (sound : (m : Manifest) (s : Store) (artifacts : Dict Bytes) (v : Option SourceValidation)
          (t t' : Traversal)
        → evaluate_one m s t ≡ pass (artifacts, v) t'
        → IsAdmissible hexdigest policy stores depth m.action_digest m s false artifacts v) where
    check_found-eq-pass :
        (d : String) (located : Located) (t t' : Traversal) {u : Unit {0}}
        → locate_result hexdigest d stores ≡ ok located
        → check_found evaluate_one located t ≡ pass u t'
        → (m : Manifest) × (s : Store) × (artifacts : Dict Bytes) × (v : Option SourceValidation)
          × In s stores
          × (digest_of hexdigest m ≡ ok d)
          × IsAdmissible hexdigest policy stores depth m.action_digest m s false artifacts v
    unfolding check_found locate_result
    check_found-eq-pass d (failure reason) t t' e h = cc
    check_found-eq-pass d (found m s) t t' e h =
        let place = locate_from-eq-found false false d stores m s e in
        let (artifacts, v, t1, passed) = passed_inside (evaluate_one m s t) h in
        (m, s, artifacts, v, place.0, place.1, sound m s artifacts v t t1 passed)

    check_dependencies-eq-pass :
        (ds : List Dependency) (t t' : Traversal) {u : Unit {0}}
        → check_dependencies hexdigest evaluate_one policy stores ds t ≡ pass u t'
        → Lineage hexdigest policy stores depth ds
    unfolding check_dependencies
    check_dependencies-eq-pass [] t t' h = none_left
    check_dependencies-eq-pass (d ∷ ds) t t' h =
        let (_, t1, e1, h1) = continue-eq-pass (count_edge policy t) _ h in
        let (located, t2, e2, h2) =
          continue-eq-pass (lift (locate_result hexdigest d.result_digest stores) t1) _ h1 in
        let (_, t3, e3, h3) = continue-eq-pass (check_found evaluate_one located t2) _ h2 in
        let place = lift-eq-pass (locate_result hexdigest d.result_digest stores) e2 in
        let (m, s, artifacts, v, member, digested, ad) =
          check_found-eq-pass d.result_digest located t2 t3 place.0 e3 in
        dependency m s artifacts v member digested ad (check_dependencies-eq-pass ds t3 t' h3)

  check_lineage-eq-pass :
      (evaluate_one : Evaluator) (exact : String) (m : Manifest) (policy : Policy)
      (stores : List Store) (t t' : Traversal) {u : Unit {0}}
      → check_lineage hexdigest evaluate_one exact m policy stores t ≡ pass u t'
      → m.spec_version ≡ result_v1
      → (t1 : Traversal) × (t2 : Traversal) × (check_dependencies hexdigest evaluate_one policy
            stores
            (listed m.dependencies)
            t1
          ≡ pass tt t2)
  unfolding check_lineage finally_deactivate
  check_lineage-eq-pass evaluate_one exact m policy stores t t' h v1 =
      let t1 = record t { active = exact ∷ t.active } in
      let h' = rw ((eq_iff m.spec_version result_v1).1 v1) at h in
      let (t2, passed) =
        finally-eq-pass exact
          (check_dependencies hexdigest evaluate_one policy stores (listed m.dependencies) t1) h' in
      (t1, t2, passed)

  -- The induction on the fuel.
  pub evaluate_sound :
      (fuel : ℕ) (policy : Policy) (stores : List Store) (depth : ℕ) (requested : String)
      (m : Manifest) (s : Store) (ignored : Bool) (artifacts : Dict Bytes)
      (v : Option SourceValidation) (t t' : Traversal)
      → evaluate hexdigest fuel policy stores depth requested m s ignored t ≡ pass (artifacts, v) t'
      → IsAdmissible hexdigest policy stores depth requested m s ignored artifacts v
  unfolding evaluate
  evaluate_sound zero policy stores depth requested m s ignored artifacts v t t' h = cc
  evaluate_sound (suc fuel) policy stores depth requested m s ignored artifacts v t t' h =
      let one : Evaluator =
        λ n r. evaluate hexdigest fuel policy stores (suc depth) n.action_digest n r false in
      let (exact, t1, e1, h1) = continue-eq-pass (gate hexdigest depth requested m policy t) _ h in
      let (_, t2, e2, h2) =
        continue-eq-pass (check_invalidation_state hexdigest depth m s policy t1) _ h1 in
      let (w, t3, e3, h3) =
        continue-eq-pass (check_freshness hexdigest m s policy ignored t2) _ h2 in
      let (found_, t4, e4, h4) =
        continue-eq-pass (collect_artifacts hexdigest s [] m.artifacts t3) _ h3 in
      let (_, t5, e5, h5) =
        continue-eq-pass (check_lineage hexdigest one exact m policy stores t4) _ h4 in
      let last = pass-injective h5 in
      subst (λ r. IsAdmissible hexdigest policy stores depth requested m s ignored r.0 r.1) last.0
        (admissible (gate-eq-pass hexdigest depth requested m policy t t1 exact e1).0
          (check_invalidation_state-eq-pass hexdigest depth m s policy t1 t2 e2).0
          (check_freshness-eq-pass hexdigest m s policy ignored t2 t3 w e3).0
          (collect_artifacts-eq-pass hexdigest s [] m.artifacts t3 t4 found_ e4).0
          (λ v1.
            let (u1, u2, passed) = check_lineage-eq-pass one exact m policy stores t4 t5 e5 v1 in
            check_dependencies-eq-pass policy stores (suc depth) one
              (λ n r a x.
                evaluate_sound fuel policy stores (suc depth) n.action_digest n r false a x)
              (listed m.dependencies) u1 u2 passed))
