-- ===== src/Cache/Publish/Returned.antt =====
-- What a publication of src/oncemesh/cache.py that returned has stored.
use once_mesh.Base.{ℕ, ◌≡◌, refl, sym, ap, subst, ◌∙◌, String, List, Option}
use once_mesh.Base.Dict.{Dict, insert}
use once_mesh.Base.Result.{Result, ok, raise, >>=-eq-ok, ok-injective}
use once_mesh.Json.{Value}
use once_mesh.Time.Format.{format_time}
use once_mesh.Canonical.Encode.{sort_by_key}
use once_mesh.Canonical.Action.{Hexdigest, action_digest}
use once_mesh.Records.{Descriptor, Manifest, check_manifest, digest_of}
use once_mesh.Store.Memory.{MemoryStore, put_result, append_at}
use once_mesh.Cache.Publish.{
  Artifacts, lineage_of, version_of, format_optional, or_keep, publish_artifacts, publish_manifest,
  publish_described, publish_result,
}

abbrev pub stored : Manifest → String → MemoryStore → MemoryStore
stored m exact s = record s {
  results_by_digest = insert exact m s.results_by_digest;
  results = append_at m.action_digest m s.results;
}

pub put_result-eq-ok :
    (hexdigest : Hexdigest) (m : Manifest) (s s' : MemoryStore)
    → put_result hexdigest m s ≡ ok s'
    → (exact : String) × (check_manifest m ≡ ok tt)
      × (digest_of hexdigest m ≡ ok exact)
      × (stored m exact s ≡ s')
unfolding put_result
put_result-eq-ok hexdigest m s s' h =
    let (u, valid, h1) = >>=-eq-ok (check_manifest m) _ h in
    let (exact, digested, h2) = >>=-eq-ok (digest_of hexdigest m) _ h1 in
    (exact, valid, digested, ok-injective h2)

pub publish_manifest-eq-ok :
    (hexdigest : Hexdigest) (m n : Manifest) (s s' : MemoryStore)
    → publish_manifest hexdigest m s ≡ (ok n, s')
    → (m ≡ n) × (put_result hexdigest m s ≡ ok s')
unfolding publish_manifest
publish_manifest-eq-ok hexdigest m n s s' h = kept (put_result hexdigest m s) refl h
  where
    kept :
        (r : Result MemoryStore)
        → put_result hexdigest m s ≡ r
        → or_keep r s m ≡ (ok n, s')
        → (m ≡ n) × (put_result hexdigest m s ≡ ok s')
    kept (ok u) e k = (
      cc (ap (λ (p : Result Manifest × MemoryStore). p.0) k),
      e ∙ ap ok (ap (λ (p : Result Manifest × MemoryStore). p.1) k),
    )
    kept (raise error) e k = cc (ap (λ (p : Result Manifest × MemoryStore). p.0) k)

pub publish_described-eq-ok :
    (hexdigest : Hexdigest) (ds : List Descriptor) (producer : String) (produced_at : ℕ)
    (fresh_until : Option ℕ) (dependencies : Option (Dict String)) (digested : Result String)
    (s s' : MemoryStore) (n : Manifest)
    → publish_described hexdigest ds producer produced_at fresh_until dependencies digested s
      ≡ (ok n, s')
    → (requested : String) × (digested ≡ ok requested)
      × (publish_manifest hexdigest
            (record {
              spec_version = version_of dependencies;
              action_digest = requested;
              artifacts = ds;
              produced_at = format_time produced_at;
              fresh_until = format_optional fresh_until;
              producer = producer;
              dependencies = lineage_of dependencies;
            })
            s
          ≡ (ok n, s'))
unfolding publish_described
publish_described-eq-ok hexdigest ds producer produced_at fresh_until dependencies (ok requested) s
      s' n h =
    (requested, refl, h)
publish_described-eq-ok hexdigest ds producer produced_at fresh_until dependencies (raise e) s s' n
      h =
    cc (ap (λ (p : Result Manifest × MemoryStore). p.0) h)

-- The manifest that was published is valid, is for the producer named, and is stored under its digest.
pub publish_result-eq-ok :
    (hexdigest : Hexdigest) (action : Value) (artifacts : Artifacts) (producer : String)
    (produced_at : ℕ) (fresh_until : Option ℕ) (dependencies : Option (Dict String))
    (s s' : MemoryStore) (m : Manifest)
    → publish_result hexdigest action artifacts producer produced_at fresh_until dependencies s
      ≡ (ok m, s')
    → (exact : String) × (check_manifest m ≡ ok tt)
      × (digest_of hexdigest m ≡ ok exact)
      × (m.producer ≡ producer)
unfolding publish_result
publish_result-eq-ok hexdigest action artifacts producer produced_at fresh_until dependencies s s' m
      h =
    let l = sort_by_key artifacts in
    let s1 = (publish_artifacts hexdigest l s).1 in
    let (requested, digested, h1) =
      publish_described-eq-ok hexdigest (publish_artifacts hexdigest l s).0 producer produced_at
        fresh_until dependencies (action_digest hexdigest action) s1 s' m h in
    let (same, put) = publish_manifest-eq-ok hexdigest _ m s1 s' h1 in
    let (exact, valid, exact_is, _) = put_result-eq-ok hexdigest _ s1 s' put in
    (
      exact,
      subst (λ n. check_manifest n ≡ ok tt) same valid,
      subst (λ n. digest_of hexdigest n ≡ ok exact) same exact_is,
      ap (λ (n : Manifest). n.producer) (sym same),
    )
