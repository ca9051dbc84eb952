-- ===== src/ExecutionCache/Counted.antt =====
-- The epochs of `MemoryEpochRegistry` of src/oncemesh/execution_cache.py as counts.
use once_mesh.Base.{
  ℕ, ◌+◌, ◌≡◌, refl, sym, ap, ◌∙◌, subst, inl, inr, true, false, List, [], ◌∷◌, Bool-cases, arith,
  if◌then◌else◌,
}
use once_mesh.Base.Result.{Result, ok}
use once_mesh.Index.Entries.{Namespace, same_namespace, same_namespace-eq, same_namespace_refl}
use once_mesh.ExecutionCache.{
  MemoryEpochRegistry, epoch_in, advance_in, epochs, rotate_all, rotate_namespaces,
  validate_namespace,
}
use once_mesh.ExecutionCache.Retired.{unless_raised-ok}

-- How often the namespace stands in the list.
unfoldable pub count : Namespace → List Namespace → ℕ
count namespace [] = 0
count namespace (m ∷ ms) = (if same_namespace m namespace then 1 else 0) + count namespace ms

other_namespace :
    (namespace n m : Namespace)
    → same_namespace n m ≡ false
    → same_namespace n namespace ≡ true
    → same_namespace m namespace ≡ false
other_namespace namespace n m differs found = elim (Bool-cases (same_namespace m namespace)) [
  | inr absent ↦ absent
  | inl same ↦
      (let equal : n ≡ m =
          same_namespace-eq n namespace found ∙ sym (same_namespace-eq m namespace same) in
        cc (sym differs ∙ subst (λ k. same_namespace n k ≡ true) equal (same_namespace_refl n)))
]

-- What `rotate_namespaces` adds to the epoch of a namespace.
epoch_in-advance_in :
    (namespace m : Namespace) (t : List (Namespace × ℕ))
    → epoch_in namespace (advance_in m t)
      ≡ (if same_namespace m namespace then 1 else 0) + epoch_in namespace t
unfolding epoch_in advance_in
epoch_in-advance_in namespace m [] = elim (Bool-cases (same_namespace m namespace)) [
  | inl same ↦ rw same refl
  | inr other ↦ rw other refl
]
epoch_in-advance_in namespace m ((n, epoch) ∷ rest) = elim (Bool-cases (same_namespace n m)) [
  | inl same ↦
      (let equal : n ≡ m = same_namespace-eq n m same in
        rw same (elim (Bool-cases (same_namespace n namespace)) [
          | inl found ↦
              rw (found, ap (λ k. same_namespace k namespace) (sym equal) ∙ found) (omega arith)
          | inr absent ↦
              rw (absent, ap (λ k. same_namespace k namespace) (sym equal) ∙ absent) (omega arith)
        ]))
  | inr differs ↦ rw differs (elim (Bool-cases (same_namespace n namespace)) [
    | inl found ↦ rw (found, other_namespace namespace n m differs found) (omega arith)
    | inr absent ↦ rw absent (epoch_in-advance_in namespace m rest)
  ])
]

rotate_namespaces-epochs :
    (namespace : Namespace) (ms : List Namespace) (r : MemoryEpochRegistry)
    → (rotate_namespaces ms r).0 ≡ ok tt
    → epochs namespace (rotate_namespaces ms r).1
      ≡ (r.global_epoch, count namespace ms + epoch_in namespace r.namespaces)
unfolding rotate_namespaces count epochs
rotate_namespaces-epochs namespace [] r h = λ i. (r.global_epoch, zero_add i)
  where
    zero_add : epoch_in namespace r.namespaces ≡ 0 + epoch_in namespace r.namespaces
    zero_add = omega arith
rotate_namespaces-epochs namespace (m ∷ ms) r h =
    let advanced = record r { namespaces = advance_in m r.namespaces } in
    let next = rotate_namespaces ms advanced in
    let passed = unless_raised-ok r next (validate_namespace m) h in
    let rest =
      rotate_namespaces-epochs namespace ms advanced
        (ap (λ (q : Result (Unit {0}) × MemoryEpochRegistry). q.0) (sym passed) ∙ h) in
    let added = epoch_in-advance_in namespace m r.namespaces in
    let sum : count namespace ms + epoch_in namespace (advance_in m r.namespaces)
        ≡ ((if same_namespace m namespace then 1 else 0) + count namespace ms)
          + epoch_in namespace r.namespaces =
      rw added (omega arith) in
    ap (λ (q : Result (Unit {0}) × MemoryEpochRegistry). epochs namespace q.1) passed
    ∙ rest
    ∙ ap (λ n. (r.global_epoch, n)) sum

-- The registry is a global count and a count for each namespace: `rotate_all` adds one to the global epoch
-- and leaves that of every namespace, and `rotate_namespaces`, where it returns, leaves the global epoch
-- and adds to that of each namespace as many as the times that it stands in the list.
pub epochs-rotate_namespaces :
    (namespace : Namespace) (ms : List Namespace) (r : MemoryEpochRegistry)
    → (rotate_namespaces ms r).0 ≡ ok tt
    → (epochs namespace (rotate_all r) ≡ ((epochs namespace r).0 + 1, (epochs namespace r).1))
      × (epochs namespace (rotate_namespaces ms r).1
          ≡ ((epochs namespace r).0, count namespace ms + (epochs namespace r).1))
unfolding epochs rotate_all
epochs-rotate_namespaces namespace ms r h = (refl, rotate_namespaces-epochs namespace ms r h)
