-- ===== src/Cache/Roundtrip.antt =====
-- A result that `publish_result` has stored is what `reuse` then returns.
use once_mesh.Base.{
  ℕ, suc, ◌≤◌, ◌≡◌, refl, ap, subst, ◌∙◌, String, true, false, List, [], ◌∷◌, map, reverse, none,
  some, eq_iff, eq_refl, contains, all_distinct, All, All-map, arith,
}
use mathlib.Core.Path.{subst₃}
use once_mesh.Base.Dict.{Dict, lookup}
use once_mesh.Base.Result.{ok}
use once_mesh.Cache.Publish.Returned.{
  stored, put_result-eq-ok, publish_manifest-eq-ok, publish_described-eq-ok,
}
use once_mesh.Json.{Value}
use once_mesh.Time.{instant, parse_time-some}
use once_mesh.Time.Format.{format_time}
use once_mesh.Canonical.Encode.{sort_by_key}
use once_mesh.Canonical.Action.{Hexdigest, digest_bytes, action_digest}
use once_mesh.Canonical.Manifest.{result_v0}
use once_mesh.Records.{Manifest, check_manifest, digest_of}
use once_mesh.Store.{Store, Bytes}
use once_mesh.Store.Memory.{MemoryStore, get_blob, candidates, invalidations, as_store, listed_at}
use once_mesh.Cache.{Policy, trusts, Traversal, new_traversal, pass}
use once_mesh.Cache.Evaluate.{
  gate, active_digests, check_invalidation_state, effective_invalidated, find_invalidation,
  check_freshness, after_test, manifest_is_fresh, collect_artifacts, check_blob, check_lineage,
  evaluate,
}
use once_mesh.Cache.Lookup.{
  LookupOutcome, scan_candidates, scan_stores, lookup_action, reuse, after_candidate, after_store,
  evaluate_candidate,
}
use once_mesh.Cache.Admissible.{IsTrusted}
use once_mesh.Cache.Inversion.{trusts_of_IsTrusted}
use once_mesh.Cache.Publish.{Artifacts, publish_artifacts, publish_result}
use once_mesh.Cache.Sorted.{names, distinct-sort_by_key, All-sort_by_key}
use once_mesh.Cache.Published.{
  Entry, payload, named_bytes, describe, descriptors-publish_artifacts, publish_artifacts_frame,
  Agrees, published-IsHeld, reverse-append_at,
}

check_blob-describe :
    (hexdigest : Hexdigest) (e : Entry) (t : Traversal)
    → check_blob hexdigest (describe hexdigest e) (some (payload e)) t ≡ pass (payload e) t
unfolding check_blob
check_blob-describe hexdigest (name, (bytes, media_type)) t =
    ground (arith, eq_refl (digest_bytes hexdigest bytes))

module _ (hexdigest : Hexdigest) (s : MemoryStore) where
  -- The names that the loop has not seen are all new.
  AreNew : List String → List String → Type 0
  AreNew seen ns = (n : String) → contains ns n ≡ true → contains seen n ≡ false

  tail_new :
      (seen ns : List String) (n : String)
      → all_distinct (n ∷ ns) ≡ true
      → AreNew seen (n ∷ ns)
      → AreNew (n ∷ seen) ns
  unfolding AreNew contains all_distinct
  tail_new seen ns n distinct new x h = ground (arith, new x, eq_iff n x)

  head_new :
      (seen : List String) (n : String) (ns : List String)
      → AreNew seen (n ∷ ns)
      → contains seen n ≡ false
  unfolding AreNew contains
  head_new seen n ns new = new n (rw (eq_refl n))

  tail_distinct :
      (n : String) (ns : List String) → all_distinct (n ∷ ns) ≡ true → all_distinct ns ≡ true
  unfolding all_distinct
  tail_distinct n ns h = ground arith

  -- The loop over the artifacts returns the bytes that the store has under their digests.
  collect-describe :
      (seen : List String) (l : List Entry) (t : Traversal)
      → all_distinct (names l) ≡ true
      → AreNew seen (names l)
      → All (λ e. lookup (digest_bytes hexdigest (payload e)) s.blobs ≡ some (payload e)) l
      → collect_artifacts hexdigest (as_store s) seen (map (describe hexdigest) l) t
        ≡ pass (map named_bytes l) t
  unfolding collect_artifacts as_store get_blob
  collect-describe seen [] t distinct new held = refl
  collect-describe seen ((name, (bytes, media_type)) ∷ l) t distinct new held = rw (
    head_new seen name (names l) new,
    held.0,
    check_blob-describe hexdigest (name, (bytes, media_type)) t,
    collect-describe (name ∷ seen) l t (tail_distinct name (names l) distinct)
        (tail_new seen (names l) name distinct new) held.1,
  )

live_text :
    (now : ℕ) (text : String) (until : ℕ)
    → instant text ≡ some until
    → now ≤ until
    → manifest_is_fresh (some text) now ≡ ok true
unfolding manifest_is_fresh
live_text now text until read live = rw (parse_time-some text until read) (ground arith)

module _ (hexdigest : Hexdigest) (policy : Policy) (m : Manifest) (exact : String) where
  gate_opens :
      (t : Traversal)
      → check_manifest m ≡ ok tt
      → digest_of hexdigest m ≡ ok exact
      → policy.require_lineage ≡ false
      → trusts policy.trusted_producers m.producer ≡ true
      → t.active ≡ []
      → gate hexdigest 0 m.action_digest m policy t ≡ pass exact t
  unfolding gate active_digests contains
  gate_opens t valid digested free trusted idle = ground (arith, eq_refl m.action_digest)

  not_invalidated :
      (s : MemoryStore) (t : Traversal)
      → digest_of hexdigest m ≡ ok exact
      → invalidations s exact ≡ []
      → check_invalidation_state hexdigest 0 m (as_store s) policy t ≡ pass tt t
  unfolding check_invalidation_state effective_invalidated as_store find_invalidation
  not_invalidated s t digested quiet = rw (digested, quiet)

  is_fresh :
      (s : Store) (text : String) (until : ℕ) (t : Traversal)
      → m.fresh_until ≡ some text
      → instant text ≡ some until
      → policy.now ≤ until
      → check_freshness hexdigest m s policy false t ≡ pass none t
  unfolding check_freshness after_test manifest_is_fresh
  is_fresh s text until t e read live = rw (e, live_text policy.now text until read live)

-- A candidate without lineage that passes each check passes them all.
module _ (hexdigest : Hexdigest) (policy : Policy) (s : MemoryStore) (l : List Entry) (m : Manifest)
    (exact text : String) (until : ℕ) where
  evaluate_passes :
      (fuel : ℕ) (stores : List Store)
      → check_manifest m ≡ ok tt
      → digest_of hexdigest m ≡ ok exact
      → policy.require_lineage ≡ false
      → trusts policy.trusted_producers m.producer ≡ true
      → invalidations s exact ≡ []
      → m.fresh_until ≡ some text
      → instant text ≡ some until
      → policy.now ≤ until
      → m.artifacts ≡ map (describe hexdigest) l
      → all_distinct (names l) ≡ true
      → All (λ e. lookup (digest_bytes hexdigest (payload e)) s.blobs ≡ some (payload e)) l
      → m.spec_version ≡ result_v0
      → evaluate hexdigest
          (suc fuel)
          policy
          stores
          0
          m.action_digest
          m
          (as_store s)
          false
          new_traversal
        ≡ pass (map named_bytes l, none) new_traversal
  unfolding evaluate AreNew contains check_lineage
  evaluate_passes fuel stores valid digested free trusted quiet fresh read live described distinct
        held v0 =
      rw (
        gate_opens hexdigest policy m exact new_traversal valid digested free trusted refl,
        not_invalidated hexdigest policy m exact s new_traversal digested quiet,
        is_fresh hexdigest policy m exact (as_store s) text until new_traversal fresh read live,
        described,
        collect-describe hexdigest s [] l new_traversal distinct (λ n h. refl) held,
        v0,
      )

abbrev published : Hexdigest → String → List Entry → String → ℕ → ℕ → Manifest
published hexdigest requested entries producer produced_at until = record {
  spec_version = result_v0;
  action_digest = requested;
  artifacts = map (describe hexdigest) entries;
  produced_at = format_time produced_at;
  fresh_until = some (format_time until);
  producer = producer;
  dependencies = none;
}

-- The hit of a lookup that rejected nothing and needed no validation.
abbrev pub fresh_hit : String → Manifest → Dict Bytes → LookupOutcome
fresh_hit name m artifacts = record {
  hit = true;
  tier = some name;
  manifest = some m;
  artifacts = artifacts;
  rejections = [];
  validation = none;
}

-- The lookup takes the first candidate of the first store, where that passes.
first_candidate :
    (hexdigest : Hexdigest) (action : Value) (requested : String) (policy : Policy) (s : Store)
    (others : List Store) (m : Manifest) (ms : List Manifest) (artifacts : Dict Bytes)
    → action_digest hexdigest action ≡ ok requested
    → s.candidates requested ≡ ok (m ∷ ms)
    → evaluate_candidate hexdigest policy (s ∷ others) requested m s false
      ≡ pass (artifacts, none) new_traversal
    → reuse hexdigest action (s ∷ others) policy ≡ ok (fresh_hit s.name m artifacts)
unfolding reuse lookup_action scan_stores scan_candidates after_candidate after_store
first_candidate hexdigest action requested policy s others m ms artifacts digested listed passed =
    rw (digested, listed, passed)

hit_after_put :
    (hexdigest : Hexdigest) (action : Value) (l : List Entry) (policy : Policy) (n : Manifest)
    (s : MemoryStore) (exact text : String) (until : ℕ) (others : List Store)
    → action_digest hexdigest action ≡ ok n.action_digest
    → check_manifest n ≡ ok tt
    → digest_of hexdigest n ≡ ok exact
    → policy.require_lineage ≡ false
    → trusts policy.trusted_producers n.producer ≡ true
    → invalidations s exact ≡ []
    → n.fresh_until ≡ some text
    → instant text ≡ some until
    → policy.now ≤ until
    → n.artifacts ≡ map (describe hexdigest) l
    → all_distinct (names l) ≡ true
    → All (λ e. lookup (digest_bytes hexdigest (payload e)) s.blobs ≡ some (payload e)) l
    → n.spec_version ≡ result_v0
    → reuse hexdigest action (as_store (stored n exact s) ∷ others) policy
      ≡ ok (fresh_hit s.name n (map named_bytes l))
unfolding as_store candidates evaluate_candidate invalidations
hit_after_put hexdigest action l policy n s exact text until others digested valid exact_is free
      trusted quiet fresh read live described distinct held v0 =
    first_candidate hexdigest action n.action_digest policy (as_store (stored n exact s)) others n
      (reverse (listed_at n.action_digest s.results)) (map named_bytes l) digested
      (ap ok (reverse-append_at n.action_digest n s.results))
      (evaluate_passes hexdigest policy (stored n exact s) l n exact text until
        (suc policy.max_dependency_depth) (as_store (stored n exact s) ∷ others) valid exact_is free
        trusted quiet fresh read live described distinct held v0)

-- Publication of a result without lineage, and then `reuse` of the same action with the store in
-- front, hits with exactly the published bytes: if `publish_result` returned, no two artifacts have
-- one name, artifacts with one digest have the same bytes, no invalidation of the result was stored,
-- the policy trusts the producer, asks for no lineage and is not past `fresh_until`, and
-- `_parse_time` reads back the time that `_format_time` wrote.
pub reuse-publish_result :
    (hexdigest : Hexdigest) (action : Value) (artifacts : Artifacts) (producer : String)
    (produced_at until : ℕ) (s s' : MemoryStore) (others : List Store) (policy : Policy)
    (m : Manifest)
    → all_distinct (names artifacts) ≡ true
    → All (λ e. All (λ a. Agrees hexdigest a e) artifacts) artifacts
    → ((exact : String) → digest_of hexdigest m ≡ ok exact → invalidations s exact ≡ [])
    → IsTrusted policy.trusted_producers producer
    → policy.require_lineage ≡ false
    → policy.now ≤ until
    → instant (format_time until) ≡ some until
    → publish_result hexdigest action artifacts producer produced_at (some until) none s
      ≡ (ok m, s')
    → reuse hexdigest action (as_store s' ∷ others) policy
      ≡ ok (fresh_hit s.name m (map named_bytes (sort_by_key artifacts)))
unfolding publish_result invalidations
reuse-publish_result hexdigest action artifacts producer produced_at until s s' others policy m
      distinct agree quiet trusted free live read h =
    let l = sort_by_key artifacts in
    let s1 = (publish_artifacts hexdigest l s).1 in
    let frame = publish_artifacts_frame hexdigest l s in
    let (requested, digested, h1) =
      publish_described-eq-ok hexdigest (publish_artifacts hexdigest l s).0 producer produced_at
        (some until) none (action_digest hexdigest action) s1 s' m h in
    let (same, put) = publish_manifest-eq-ok hexdigest _ m s1 s' h1 in
    let (exact, valid, exact_is, stored_is) = put_result-eq-ok hexdigest _ s1 s' put in
    let agree_sorted =
      All-sort_by_key (λ e. All (λ a. Agrees hexdigest a e) l) artifacts
        (All-map _ (λ e. All (λ a. Agrees hexdigest a e) l) artifacts
          (λ e k. All-sort_by_key (λ a. Agrees hexdigest a e) artifacts k) agree) in
    subst₃
      (λ n u name.
        reuse hexdigest action (as_store u ∷ others) policy
        ≡ ok (fresh_hit name n (map named_bytes l)))
      same stored_is (ap (λ (u : MemoryStore). u.name) frame)
      (hit_after_put hexdigest action l policy _ s1 exact (format_time until) until others digested
        valid exact_is free (trusts_of_IsTrusted policy.trusted_producers producer trusted)
        (ap (λ (u : MemoryStore). invalidations u exact) frame
          ∙ quiet exact (subst (λ n. digest_of hexdigest n ≡ ok exact) same exact_is))
        refl read live (descriptors-publish_artifacts hexdigest l s)
        (distinct-sort_by_key artifacts distinct) (published-IsHeld hexdigest l s agree_sorted)
        refl)
