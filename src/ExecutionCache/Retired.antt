-- ===== src/ExecutionCache/Retired.antt =====
-- What a clear of src/oncemesh/execution_cache.py makes unreachable.
use once_mesh.Base.{
  ℕ, ◌≤◌, ◌<◌, ◌≡◌, ◌≢◌, refl, sym, ap, ◌∙◌, subst, ◌⊎◌, inl, inr, Bool, List, [], ◌∷◌, Option,
  none, some, In, here, there, Bool-cases, arith,
}
use once_mesh.Base.Result.{Result, ok, raise}
use once_mesh.Json.{Value}
use once_mesh.Canonical.Action.{Hexdigest}
use once_mesh.Index.Entries.{Namespace, same_namespace_refl}
use once_mesh.ExecutionCache.{
  ExecutionCacheKey, EncodedExecutionValue, MemoryEpochRegistry, epoch_in, advance_in, epochs,
  rotate_all, rotate_namespaces, validate_namespace, unless_raised,
}
use once_mesh.ExecutionCache.Bridge.{
  ExecutionCacheBridge, set_enabled, action_for, set_values, clear,
}

-- Any sequence of operations on a bridge that change it.
pub data Reach : ExecutionCacheBridge → ExecutionCacheBridge → Type 0 where
  stays : (b : ExecutionCacheBridge) → Reach b b
  cleared :
      (namespaces : Option (List Namespace)) (b c : ExecutionCacheBridge)
      → Reach b c
      → Reach b (clear namespaces c).1
  published :
      (hexdigest : Hexdigest) (now : ℕ)
      (pairs : List (ExecutionCacheKey × (EncodedExecutionValue × Value)))
      (b c : ExecutionCacheBridge)
      → Reach b c
      → Reach b (set_values hexdigest now pairs c).1
  switched :
      (enabled : Bool) (b c : ExecutionCacheBridge) → Reach b c → Reach b (set_enabled enabled c)

-- The namespaces that a clear is for.
pub data Covers : Option (List Namespace) → Namespace → Type 0 where
  covers_all : (namespace : Namespace) → Covers none namespace
  covers_one :
      (namespaces : List Namespace) (namespace : Namespace)
      → In namespace namespaces
      → Covers (some namespaces) namespace

epoch_in-grows :
    (namespace m : Namespace) (t : List (Namespace × ℕ))
    → epoch_in namespace t ≤ epoch_in namespace (advance_in m t)
unfolding epoch_in advance_in
epoch_in-grows namespace m [] = omega arith
epoch_in-grows namespace m ((n, epoch) ∷ rest) = ground (arith, epoch_in-grows namespace m rest)

epoch_in-advances :
    (m : Namespace) (t : List (Namespace × ℕ)) → epoch_in m t < epoch_in m (advance_in m t)
unfolding epoch_in advance_in
epoch_in-advances m [] = rw (same_namespace_refl m) (omega arith)
epoch_in-advances m ((n, epoch) ∷ rest) = ground (arith, epoch_in-advances m rest)

set_values-Keeps :
    (hexdigest : Hexdigest) (now : ℕ)
    (pairs : List (ExecutionCacheKey × (EncodedExecutionValue × Value))) (b : ExecutionCacheBridge)
    → b.epochs ≡ (set_values hexdigest now pairs b).1.epochs
unfolding set_values
set_values-Keeps hexdigest now pairs b = elim (Bool-cases b.enabled) [
  | inl enabled ↦ rw enabled refl
  | inr disabled ↦ rw disabled refl
]

-- No epoch of the namespace is smaller than in the first registry.
abbrev AreNotEarlier : Namespace → MemoryEpochRegistry → MemoryEpochRegistry → Type 0
AreNotEarlier namespace r q =
    (r.global_epoch ≤ q.global_epoch)
    × (epoch_in namespace r.namespaces ≤ epoch_in namespace q.namespaces)

-- One epoch of the namespace is greater than in the first registry.
abbrev IsLater : Namespace → MemoryEpochRegistry → MemoryEpochRegistry → Type 0
IsLater namespace r q =
    (r.global_epoch < q.global_epoch)
    ⊎ (epoch_in namespace r.namespaces < epoch_in namespace q.namespaces)

AreNotEarlier-trans :
    (namespace : Namespace) (r q p : MemoryEpochRegistry)
    → AreNotEarlier namespace r q
    → AreNotEarlier namespace q p
    → AreNotEarlier namespace r p
AreNotEarlier-trans namespace r q p (g, n) (g', n') = (omega arith, omega arith)

IsLater-trans :
    (namespace : Namespace) (r q p : MemoryEpochRegistry)
    → IsLater namespace r q
    → AreNotEarlier namespace q p
    → IsLater namespace r p
IsLater-trans namespace r q p (inl g) (g', n') = inl (omega arith)
IsLater-trans namespace r q p (inr n) (g', n') = inr (omega arith)

AreNotEarlier-IsLater :
    (namespace : Namespace) (r q p : MemoryEpochRegistry)
    → AreNotEarlier namespace r q
    → IsLater namespace q p
    → IsLater namespace r p
AreNotEarlier-IsLater namespace r q p (g, n) (inl g') = inl (omega arith)
AreNotEarlier-IsLater namespace r q p (g, n) (inr n') = inr (omega arith)

advanced-AreNotEarlier :
    (namespace m : Namespace) (r : MemoryEpochRegistry)
    → AreNotEarlier namespace r (record r { namespaces = advance_in m r.namespaces })
advanced-AreNotEarlier namespace m r = (omega arith, epoch_in-grows namespace m r.namespaces)

unless_raised-AreNotEarlier :
    (namespace : Namespace) (r : MemoryEpochRegistry)
    (next : Result (Unit {0}) × MemoryEpochRegistry) (o : Result (Unit {0}))
    → AreNotEarlier namespace r next.1
    → AreNotEarlier namespace r (unless_raised r next o).1
unless_raised-AreNotEarlier namespace r next (raise e) h = (omega arith, omega arith)
unless_raised-AreNotEarlier namespace r next (ok done) h = h

rotate_namespaces-AreNotEarlier :
    (namespace : Namespace) (ms : List Namespace) (r : MemoryEpochRegistry)
    → AreNotEarlier namespace r (rotate_namespaces ms r).1
unfolding rotate_namespaces
rotate_namespaces-AreNotEarlier namespace [] r = (omega arith, omega arith)
rotate_namespaces-AreNotEarlier namespace (m ∷ ms) r =
    let advanced = record r { namespaces = advance_in m r.namespaces } in
    unless_raised-AreNotEarlier namespace r (rotate_namespaces ms advanced) (validate_namespace m) (
      AreNotEarlier-trans namespace r advanced (rotate_namespaces ms advanced).1
        (advanced-AreNotEarlier namespace m r)
        (rotate_namespaces-AreNotEarlier namespace ms advanced))

pub unless_raised-ok :
    (r : MemoryEpochRegistry) (next : Result (Unit {0}) × MemoryEpochRegistry)
    (o : Result (Unit {0}))
    → (unless_raised r next o).0 ≡ ok tt
    → unless_raised r next o ≡ next
unless_raised-ok r next (raise e) h = cc
unless_raised-ok r next (ok done) h = refl

-- The first namespace is advanced, or the rest of the loop advances the one looked for.
rotated-IsLater :
    (namespace m : Namespace) (ms : List Namespace) (r : MemoryEpochRegistry)
    → In namespace (m ∷ ms)
    → (In namespace ms
        → IsLater namespace
            (record r { namespaces = advance_in m r.namespaces })
            (rotate_namespaces ms (record r { namespaces = advance_in m r.namespaces })).1)
    → IsLater namespace r
        (rotate_namespaces ms (record r { namespaces = advance_in m r.namespaces })).1
rotated-IsLater namespace m ms r here later =
    IsLater-trans namespace r (record r { namespaces = advance_in namespace r.namespaces }) _
      (inr (epoch_in-advances namespace r.namespaces))
      (rotate_namespaces-AreNotEarlier namespace ms _)
rotated-IsLater namespace m ms r (there tail) later =
    AreNotEarlier-IsLater namespace r (record r { namespaces = advance_in m r.namespaces }) _
      (advanced-AreNotEarlier namespace m r) (later tail)

rotate_namespaces-IsLater :
    (namespace : Namespace) (ms : List Namespace) (r : MemoryEpochRegistry)
    → In namespace ms
    → (rotate_namespaces ms r).0 ≡ ok tt
    → IsLater namespace r (rotate_namespaces ms r).1
unfolding rotate_namespaces
rotate_namespaces-IsLater namespace [] r listed h = elim listed [ ]
rotate_namespaces-IsLater namespace (m ∷ ms) r listed h =
    let advanced = record r { namespaces = advance_in m r.namespaces } in
    let next = rotate_namespaces ms advanced in
    let passed = unless_raised-ok r next (validate_namespace m) h in
    subst (λ (q : Result (Unit {0}) × MemoryEpochRegistry). IsLater namespace r q.1) (sym passed)
      (rotated-IsLater namespace m ms r listed (λ tail.
        rotate_namespaces-IsLater namespace ms advanced tail
          (ap (λ (q : Result (Unit {0}) × MemoryEpochRegistry). q.0) (sym passed) ∙ h)))

clear-AreNotEarlier :
    (namespaces : Option (List Namespace)) (namespace : Namespace) (b : ExecutionCacheBridge)
    → AreNotEarlier namespace b.epochs (clear namespaces b).1.epochs
unfolding clear rotate_all
clear-AreNotEarlier none namespace b = (omega arith, omega arith)
clear-AreNotEarlier (some ms) namespace b = rotate_namespaces-AreNotEarlier namespace ms b.epochs

clear-IsLater :
    (namespaces : Option (List Namespace)) (namespace : Namespace) (b : ExecutionCacheBridge)
    → Covers namespaces namespace
    → (clear namespaces b).0 ≡ ok tt
    → IsLater namespace b.epochs (clear namespaces b).1.epochs
unfolding clear rotate_all
clear-IsLater none namespace b (covers_all _) h = inl (omega arith)
clear-IsLater (some ms) namespace b (covers_one _ _ listed) h =
    rotate_namespaces-IsLater namespace ms b.epochs listed h

Reach-AreNotEarlier :
    (namespace : Namespace) {b c : ExecutionCacheBridge}
    → Reach b c
    → AreNotEarlier namespace b.epochs c.epochs
unfolding set_enabled
Reach-AreNotEarlier namespace (stays b) = (omega arith, omega arith)
Reach-AreNotEarlier namespace (cleared namespaces b c reach) =
    AreNotEarlier-trans namespace b.epochs c.epochs (clear namespaces c).1.epochs
      (Reach-AreNotEarlier namespace reach) (clear-AreNotEarlier namespaces namespace c)
Reach-AreNotEarlier namespace (published hexdigest now pairs b c reach) =
    subst (λ r. AreNotEarlier namespace b.epochs r) (set_values-Keeps hexdigest now pairs c)
      (Reach-AreNotEarlier namespace reach)
Reach-AreNotEarlier namespace (switched enabled b c reach) = Reach-AreNotEarlier namespace reach

later_differs :
    (k : ExecutionCacheKey) (b c : ExecutionCacheBridge)
    → IsLater k.namespace b.epochs c.epochs
    → action_for c k ≢ action_for b k
unfolding action_for epochs
later_differs k b c (inl later) same =
    let equal : c.epochs.global_epoch ≡ b.epochs.global_epoch = cc same in omega arith
later_differs k b c (inr later) same =
    let equal : epoch_in k.namespace c.epochs.namespaces
        ≡ epoch_in k.namespace b.epochs.namespaces =
      cc same in
    omega arith

-- After a clear that covers the namespace of a key and that returned, whatever sequence of clears,
-- publications and switches follows, the action of the key is never again one that it had before the
-- clear, so the lookups and the publications of the key are about other actions.
pub clear-IsFinal :
    (namespaces : Option (List Namespace)) (k : ExecutionCacheKey) (b c : ExecutionCacheBridge)
    → Covers namespaces k.namespace
    → (clear namespaces b).0 ≡ ok tt
    → Reach (clear namespaces b).1 c
    → action_for c k ≢ action_for b k
clear-IsFinal namespaces k b c covers returned reach = later_differs k b c (
    IsLater-trans k.namespace b.epochs (clear namespaces b).1.epochs c.epochs
      (clear-IsLater namespaces k.namespace b covers returned)
      (Reach-AreNotEarlier k.namespace reach))
