-- ===== src/Cache/Admissible.antt =====
-- What a reused result promises, with no word of how the lookup finds it: the policy of
-- src/oncemesh/cache.py as predicates on a manifest, the store that holds it, and its lineage.
use once_mesh.Base.{
  ℕ, suc, ◌≤◌, ◌<◌, ◌≡◌, ◌≢◌, ◌⊎◌, String, Bool, true, false, List, [], ◌∷◌, Option, none, some, In,
  All, length,
}
use once_mesh.Base.Dict.{Dict}
use once_mesh.Base.Result.{Result, ok}
use once_mesh.Time.{instant}
use once_mesh.Canonical.Action.{Hexdigest, digest_bytes}
use once_mesh.Canonical.Manifest.{result_v1}
use once_mesh.Records.{
  Descriptor, Dependency, Manifest, SourceValidation, Invalidation, check_manifest, digest_of,
}
use once_mesh.Store.{Store, Bytes}
use once_mesh.Cache.{Policy}
use once_mesh.Cache.Evaluate.{trust_or, listed}

-- No set of producers trusts all of them.
abbrev pub IsTrusted : Option (List String) → String → Type 0
IsTrusted none producer = Unit
IsTrusted (some producers) producer = In producer producers

-- The text names an instant that is not before `now`.
abbrev pub IsLive : ℕ → String → Type 0
IsLive now text = (until : ℕ) × (instant text ≡ some until) × (now ≤ until)

-- An invalidation by a trusted producer takes effect later.
abbrev pub IsIneffective : Option (List String) → ℕ → Invalidation → Type 0
IsIneffective trust now r =
    IsTrusted trust r.producer → (at : ℕ) × (instant r.invalidated_at ≡ some at) × (now < at)

-- The artifacts are the blobs of the descriptors, in order, as the store has them, at their sizes
-- and digests.
abbrev pub AreIntact : Hexdigest → Store → List Descriptor → Dict Bytes → Type 0
AreIntact hexdigest store [] [] = Unit
AreIntact hexdigest store [] (a ∷ as_) = ⊥
AreIntact hexdigest store (d ∷ ds) [] = ⊥
AreIntact hexdigest store (d ∷ ds) ((name, blob) ∷ rest) =
    ((name ≡ d.name)
      × (store.get_blob d.digest ≡ ok (some blob))
      × (length blob ≡ d.size)
      × (digest_bytes hexdigest blob ≡ d.digest))
    × AreIntact hexdigest store ds rest

-- What the policy asks of the manifest itself.
pub record IsPermitted (policy : Policy) (depth : ℕ) (requested : String) (m : Manifest)
    : Type 0 where
  pub valid : check_manifest m ≡ ok tt
  pub exact_action : m.action_digest ≡ requested
  pub lineage : policy.require_lineage ≡ true → m.spec_version ≡ result_v1
  pub shallow : depth ≤ policy.max_dependency_depth
  pub trusted : IsTrusted policy.trusted_producers m.producer

module _ (hexdigest : Hexdigest) (policy : Policy) where
  -- The store has no effective invalidation of the result; a store that keeps none serves only a
  -- result that is asked for directly and has no lineage.
  abbrev pub IsNotInvalidated : ℕ → Manifest → Store → Type 0
  IsNotInvalidated depth m s =
      ((s.invalidations ≡ none) × (m.spec_version ≢ result_v1) × (depth ≡ 0))
      ⊎ ((reader : String → Result (List Invalidation)) × (exact : String) × (records : List
            Invalidation)
          × (s.invalidations ≡ some reader)
          × (digest_of hexdigest m ≡ ok exact)
          × (reader exact ≡ ok records)
          × All
              (IsIneffective
                (trust_or policy.trusted_invalidation_producers policy.trusted_producers)
                policy.now)
              records)

  -- The manifest is live by itself, or by the validation that is reported, which is a trusted one
  -- that the store has for it, or it never ends and the policy permits that.
  abbrev pub IsFresh : Manifest → Store → Option SourceValidation → Type 0
  IsFresh m s (some v) =
      (exact : String) × (vs : List SourceValidation) × (digest_of hexdigest m ≡ ok exact)
      × (s.validations exact ≡ ok vs)
      × In v vs
      × IsTrusted (trust_or policy.trusted_validation_producers policy.trusted_producers) v.producer
      × IsLive policy.now v.fresh_until
  IsFresh m s none =
      ((text : String) × (m.fresh_until ≡ some text) × IsLive policy.now text)
      ⊎ ((m.fresh_until ≡ none) × (policy.permit_no_expiry ≡ true))

module _ (hexdigest : Hexdigest) (policy : Policy) (stores : List Store) where
  mutual
    -- The result is permitted, not invalidated, fresh (unless freshness is left aside) and intact,
    -- and so is each result in its lineage, which one of the stores has under the digest that the
    -- manifest names, and for which freshness is never left aside.
    pub data IsAdmissible
        : ℕ → String → Manifest → Store → Bool → Dict Bytes → Option SourceValidation → Type 0 where
      admissible :
          {depth : ℕ} {requested : String} {m : Manifest} {s : Store} {ignored : Bool}
          {artifacts : Dict Bytes} {v : Option SourceValidation}
          → IsPermitted policy depth requested m
          → IsNotInvalidated hexdigest policy depth m s
          → (ignored ≡ false → IsFresh hexdigest policy m s v)
          → AreIntact hexdigest s m.artifacts artifacts
          → (m.spec_version ≡ result_v1 → Lineage (suc depth) (listed m.dependencies))
          → IsAdmissible depth requested m s ignored artifacts v

    pub data Lineage : ℕ → List Dependency → Type 0 where
      none_left : {depth : ℕ} → Lineage depth []
      dependency :
          {depth : ℕ} {d : Dependency} {ds : List Dependency} (m : Manifest) (s : Store)
          (artifacts : Dict Bytes) (v : Option SourceValidation)
          → In s stores
          → digest_of hexdigest m ≡ ok d.result_digest
          → IsAdmissible depth m.action_digest m s false artifacts v
          → Lineage depth ds
          → Lineage depth (d ∷ ds)
