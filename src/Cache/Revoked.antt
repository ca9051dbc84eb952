-- ===== src/Cache/Revoked.antt =====
-- What `publish_invalidation` of src/oncemesh/cache.py does to later lookups.
use once_mesh.Base.{
  ℕ, ◌≤◌, ◌≡◌, refl, sym, ap, subst, ◌∙◌, inl, inr, String, Bool, true, List, [], ◌∷◌, Option, some,
  In, here, there, All-at, reverse, arith,
}
use once_mesh.Base.Dict.{Dict}
use once_mesh.Base.Result.{Result, ok, ok-injective, >>=-eq-ok}
use once_mesh.Json.{Value}
use once_mesh.Time.{instant}
use once_mesh.Time.Format.{format_time}
use once_mesh.Canonical.Action.{Hexdigest}
use once_mesh.Records.{Manifest, SourceValidation, Invalidation, check_invalidation, digest_of}
use once_mesh.Store.{Store, Bytes}
use once_mesh.Store.Memory.{MemoryStore, put_invalidation, invalidations, listed_at, as_store}
use once_mesh.Cache.{Policy}
use once_mesh.Cache.Evaluate.{trust_or}
use once_mesh.Cache.Lookup.{LookupOutcome, reuse}
use once_mesh.Cache.Admissible.{IsTrusted, IsNotInvalidated, IsAdmissible, admissible}
use once_mesh.Cache.Publish.{invalidation_of, publish_invalidation}
use once_mesh.Cache.Published.{reverse-append_at}
use once_mesh.Cache.Reuse.{reuse-IsHit}

some-injective {ℓ} : {A : Type ℓ} {x y : A} → some x ≡ some y → x ≡ y
some-injective h = cc

-- The store then has the record first among those for the result.
publish_invalidation-In :
    (digest producer reason : String) (at : ℕ) (s s' : MemoryStore)
    → publish_invalidation digest producer at reason s ≡ ok s'
    → In (invalidation_of digest producer at reason) (invalidations s' digest)
unfolding publish_invalidation put_invalidation invalidations
publish_invalidation-In digest producer reason at s s' h =
    let signal = invalidation_of digest producer at reason in
    let (_, _, last) = >>=-eq-ok (check_invalidation signal) _ h in
    subst (λ (u : MemoryStore). In signal (reverse (listed_at digest u.invalidations)))
      (ok-injective last)
      (subst (In signal) (sym (reverse-append_at digest signal s.invalidations)) here)

module _ (hexdigest : Hexdigest) (policy : Policy) where
  -- A store with an effective invalidation of the result does not serve it.
  invalidated-IsNotServed :
      (depth : ℕ) (m : Manifest) (s : MemoryStore) (digest : String) (signal : Invalidation)
      (at : ℕ)
      → In signal (invalidations s digest)
      → digest_of hexdigest m ≡ ok digest
      → IsTrusted
          (trust_or policy.trusted_invalidation_producers policy.trusted_producers)
          signal.producer
      → instant signal.invalidated_at ≡ some at
      → at ≤ policy.now
      → ¬ IsNotInvalidated hexdigest policy depth m (as_store s)
  unfolding as_store
  invalidated-IsNotServed depth m s digest signal at listed exact trusted read past
        (inl (none_kept, _, _)) =
      cc
  invalidated-IsNotServed depth m s digest signal at listed exact trusted read past
        (inr (reader, named, records, kept, exact', found, all_later)) =
      let same : digest ≡ named = ok-injective (sym exact ∙ exact') in
      let stored : ok (invalidations s named) ≡ reader named =
        ap (λ (f : String → Result (List Invalidation)). f named) (some-injective kept) in
      let has_signal =
        subst (In signal) (ap (invalidations s) same ∙ ok-injective (stored ∙ found)) listed in
      let (later, read', after) = All-at _ has_signal all_later trusted in
      let at_later : at ≡ later = some-injective (sym read ∙ read') in omega arith

only_one {ℓ} : {A : Type ℓ} (a b : A) → In a (b ∷ []) → a ≡ b
only_one a b here = refl
only_one a b (there m) = elim m [ ]

admissible-IsNotInvalidated :
    {hexdigest : Hexdigest} {policy : Policy} {stores : List Store} {depth : ℕ} {requested : String}
    {m : Manifest} {s : Store} {ignored : Bool} {artifacts : Dict Bytes}
    {v : Option SourceValidation}
    → IsAdmissible hexdigest policy stores depth requested m s ignored artifacts v
    → IsNotInvalidated hexdigest policy depth m s
admissible-IsNotInvalidated (admissible permitted kept fresh intact lineage) = kept

-- After `publish_invalidation` by a producer whom the policy trusts for it, at a time that has come
-- and that is read back as it was written, a hit of `reuse` on the store is never the invalidated
-- result.
pub reuse-publish_invalidation :
    (hexdigest : Hexdigest) (action : Value) (policy : Policy) (digest producer reason : String)
    (at : ℕ) (s s' : MemoryStore) (outcome : LookupOutcome) (m : Manifest)
    → publish_invalidation digest producer at reason s ≡ ok s'
    → IsTrusted (trust_or policy.trusted_invalidation_producers policy.trusted_producers) producer
    → instant (format_time at) ≡ some at
    → at ≤ policy.now
    → reuse hexdigest action (as_store s' ∷ []) policy ≡ ok outcome
    → outcome.hit ≡ true
    → outcome.manifest ≡ some m
    → ¬ digest_of hexdigest m ≡ ok digest
reuse-publish_invalidation hexdigest action policy digest producer reason at s s' outcome m done
      trusted read past h hit named exact =
    let (requested, _, is_hit) =
      reuse-IsHit hexdigest action (as_store s' ∷ []) policy outcome h hit in
    let same_store = only_one is_hit.store (as_store s') is_hit.listed in
    let same_result : is_hit.result ≡ m = some-injective (sym is_hit.manifest ∙ named) in
    let served =
      subst (λ (n : Manifest). IsNotInvalidated hexdigest policy 0 n (as_store s')) same_result
        (subst (IsNotInvalidated hexdigest policy 0 is_hit.result) same_store
          (admissible-IsNotInvalidated is_hit.is_admissible)) in
    invalidated-IsNotServed hexdigest policy 0 m s' digest
      (invalidation_of digest producer at reason) at
      (publish_invalidation-In digest producer reason at s s' done) exact trusted read past served
