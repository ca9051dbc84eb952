-- ===== src/Cache/Reuse.antt =====
-- What `reuse` and `candidate_for_revalidation` return: a hit is admissible, and a miss has tried
-- every candidate.
use once_mesh.Base.{
  suc, ◌≡◌, refl, sym, subst, ◌∙◌, String, Bool, true, false, List, [], ◌∷◌, ◌++◌, Option, some, In,
  here, there, ◌⊎◌, inl, inr,
}
use once_mesh.Base.Dict.{Dict}
use once_mesh.Base.Result.{Error, Result, ok, raise, >>=-eq-ok}
use once_mesh.Json.{Value}
use once_mesh.Canonical.Action.{Hexdigest, action_digest}
use once_mesh.Records.{Manifest, SourceValidation}
use once_mesh.Store.{Store, Bytes}
use once_mesh.Cache.{Policy, Traversal, new_traversal, Outcome, pass, reject, fail}
use once_mesh.Cache.Lookup.{
  LookupOutcome, tagged, Scan, selected, exhausted, evaluate_candidate, reported, scan_candidates,
  after_store, after_candidate, hit_of, scan_stores, lookup_action, reuse,
  candidate_for_revalidation,
}
use once_mesh.Cache.Admissible.{IsAdmissible}
use once_mesh.Cache.Inversion.{catch_read-cases}
use once_mesh.Cache.Soundness.{evaluate_sound}

ok-injective {ℓ} : {A : Type ℓ} {a b : A} → ok a ≡ ok b → a ≡ b
ok-injective h = cc

raise-ne-ok {ℓ} : {A : Type ℓ} {e : Error} {a : A} → raise e ≡ ok a → ⊥
raise-ne-ok h = cc (h)

true-ne-false : true ≡ false → ⊥
true-ne-false h = cc (h)

module _ (hexdigest : Hexdigest) (policy : Policy) (stores : List Store) (requested : String)
    (ignored : Bool) where
  -- A hit for the requested digest: who has it, and why it may be used.
  pub record IsHit (outcome : LookupOutcome) : Type 0 where
    pub store : Store
    pub result : Manifest
    pub validation : Option SourceValidation
    pub listed : In store stores
    pub tier : outcome.tier ≡ some store.name
    pub manifest : outcome.manifest ≡ some result
    pub reported_validation : outcome.validation ≡ reported ignored validation
    pub is_admissible :
        IsAdmissible hexdigest policy stores 0 requested result store ignored outcome.artifacts
          validation

  -- Whether the check of the candidate ended in a rejection.
  abbrev pub IsRejected : Store → Manifest → Type 0
  IsRejected s m =
      (reason : String) × (t : Traversal) × (evaluate_candidate hexdigest policy stores requested m
          s ignored
        ≡ reject reason t)

  -- How a loop over candidates ends.
  abbrev ScanEnd : Store → List Manifest → Scan → Type 0
  ScanEnd s ms (selected outcome) = (outcome.hit ≡ true) × (In s stores → IsHit outcome)
  ScanEnd s ms (exhausted rejections) = (m : Manifest) → In m ms → IsRejected s m

  passed_end :
      (s : Store) (m : Manifest) (rejections : List String) (artifacts : Dict Bytes)
      (v : Option SourceValidation) (t : Traversal)
      → evaluate_candidate hexdigest policy stores requested m s ignored ≡ pass (artifacts, v) t
      → In s stores
      → IsHit (record {
        hit = true;
        tier = some s.name;
        manifest = some m;
        artifacts = artifacts;
        rejections = rejections;
        validation = reported ignored v;
      })
  unfolding evaluate_candidate
  passed_end s m rejections artifacts v t e member = record {
    store = s;
    result = m;
    validation = v;
    listed = member;
    tier = refl;
    manifest = refl;
    reported_validation = refl;
    is_admissible =
        evaluate_sound hexdigest (suc (suc policy.max_dependency_depth)) policy stores 0 requested m
          s ignored artifacts v new_traversal t e;
  }

  ScanEnd-cons :
      (s : Store) (m : Manifest) (ms : List Manifest) (scan : Scan)
      → IsRejected s m
      → ScanEnd s ms scan
      → ScanEnd s (m ∷ ms) scan
  ScanEnd-cons s m ms (selected o) first rest = rest
  ScanEnd-cons s m ms (exhausted r) first rest = λ n i. pick n i
    where
      pick : (n : Manifest) → In n (m ∷ ms) → IsRejected s n
      pick n here = first
      pick n (there i) = rest n i

  after_candidate_end :
      (s : Store) (m : Manifest) (ms : List Manifest) (rejections : List String) (scan : Scan)
      (o : Outcome (Dict Bytes × Option SourceValidation))
      → evaluate_candidate hexdigest policy stores requested m s ignored ≡ o
      → after_candidate
          (hit_of ignored s m rejections)
          (λ reason.
            scan_candidates hexdigest policy stores requested ignored s ms
              (rejections ++ tagged s reason ∷ []))
          o
        ≡ ok scan
      → ((reason : String)
          → scan_candidates hexdigest policy stores requested ignored s ms
              (rejections ++ tagged s reason ∷ [])
            ≡ ok scan
          → ScanEnd s ms scan)
      → ScanEnd s (m ∷ ms) scan
  unfolding after_candidate
  after_candidate_end s m ms rejections scan (pass (artifacts, v) t) e h ih =
      subst (ScanEnd s (m ∷ ms)) (ok-injective h) (refl, passed_end s m rejections artifacts v t e)
  after_candidate_end s m ms rejections scan (reject reason t) e h ih =
      ScanEnd-cons s m ms scan (reason, t, e) (ih reason h)
  after_candidate_end s m ms rejections scan (fail error) e h ih = absurd (raise-ne-ok h)

  scan_candidates_end :
      (s : Store) (ms : List Manifest) (rejections : List String) (scan : Scan)
      → scan_candidates hexdigest policy stores requested ignored s ms rejections ≡ ok scan
      → ScanEnd s ms scan
  unfolding scan_candidates
  scan_candidates_end s [] rejections (exhausted r) h = λ m i. elim i [ ]
  scan_candidates_end s [] rejections (selected o) h = cc h
  scan_candidates_end s (m ∷ ms) rejections scan h =
      after_candidate_end s m ms rejections scan
        (evaluate_candidate hexdigest policy stores requested m s ignored) refl h
        (λ reason. scan_candidates_end s ms (rejections ++ tagged s reason ∷ []) scan)

  -- How the loop over the stores ends.
  abbrev SearchEnd : List Store → LookupOutcome → Type 0
  SearchEnd ss outcome =
      ((outcome.hit ≡ true) × (((s : Store) → In s ss → In s stores) → IsHit outcome))
      ⊎ ((outcome.hit ≡ false)
          × ((s : Store) (ms : List Manifest) (m : Manifest)
              → In s ss
              → s.candidates requested ≡ ok ms
              → In m ms
              → IsRejected s m))

  store_exhausted :
      (s : Store) (ms : List Manifest)
      → s.candidates requested ≡ ok ms
      → ((m : Manifest) → In m ms → IsRejected s m)
      → (ns : List Manifest) (m : Manifest) → s.candidates requested ≡ ok ns
      → In m ns
      → IsRejected s m
  store_exhausted s ms e all_rejected ns m e' member =
      all_rejected m (subst (In m) (ok-injective (sym e' ∙ e)) member)

  search_cons :
      (s : Store) (ss : List Store) (outcome : LookupOutcome)
      → ((ms : List Manifest) (m : Manifest)
          → s.candidates requested ≡ ok ms
          → In m ms
          → IsRejected s m)
      → SearchEnd ss outcome
      → SearchEnd (s ∷ ss) outcome
  search_cons s ss outcome here_rejected (inl (hit, found)) =
      inl (hit, λ within. found (λ r i. within r (there i)))
  search_cons s ss outcome here_rejected (inr (missed, rest_rejected)) =
      inr (missed, λ r ms m i. pick r ms m i)
    where
      pick :
          (r : Store) (ms : List Manifest) (m : Manifest)
          → In r (s ∷ ss)
          → r.candidates requested ≡ ok ms
          → In m ms
          → IsRejected r m
      pick r ms m here = here_rejected ms m
      pick r ms m (there i) = rest_rejected r ms m i

  after_scan :
      (s : Store) (ss : List Store) (ms : List Manifest) (rejections : List String)
      (outcome : LookupOutcome) (scanned : Result Scan)
      → s.candidates requested ≡ ok ms
      → scan_candidates hexdigest policy stores requested ignored s ms rejections ≡ scanned
      → after_store (scan_stores hexdigest policy stores requested ignored ss) scanned ≡ ok outcome
      → ((rejections' : List String)
          → scan_stores hexdigest policy stores requested ignored ss rejections' ≡ ok outcome
          → SearchEnd ss outcome)
      → SearchEnd (s ∷ ss) outcome
  unfolding after_store
  after_scan s ss ms rejections outcome (ok (selected o)) e scan h ih =
      let end = scan_candidates_end s ms rejections (selected o) scan in
      subst (SearchEnd (s ∷ ss)) (ok-injective h) (inl (end.0, λ within. end.1 (within s here)))
  after_scan s ss ms rejections outcome (ok (exhausted r)) e scan h ih =
      search_cons s ss outcome
        (store_exhausted s ms e (scan_candidates_end s ms rejections (exhausted r) scan)) (ih r h)
  after_scan s ss ms rejections outcome (raise error) e scan h ih = absurd (raise-ne-ok h)

  scan_stores_end :
      (ss : List Store) (rejections : List String) (outcome : LookupOutcome)
      → scan_stores hexdigest policy stores requested ignored ss rejections ≡ ok outcome
      → SearchEnd ss outcome
  unfolding scan_stores
  scan_stores_end [] rejections outcome h =
      subst (SearchEnd []) (ok-injective h) (inr (refl, λ s ms m i. elim i [ ]))
  scan_stores_end (s ∷ ss) rejections outcome h =
      elim (catch_read-cases (s.candidates requested) _ _ h) [
        | inl (ms, e, h') ↦
            after_scan s ss ms rejections outcome _ e refl h' (λ r. scan_stores_end ss r outcome)
        | inr (message, e, h') ↦
            search_cons s ss outcome (λ ms m e'. absurd (raise-ne-ok (sym e ∙ e')))
              (scan_stores_end ss (rejections ++ tagged s message ∷ []) outcome h')
      ]

-- A lookup that returns has a hit that is admissible, or has tried every candidate that a readable
-- store lists for the digest, and each of them was rejected.
pub lookup_action_end :
    (hexdigest : Hexdigest) (ignored : Bool) (action : Value) (stores : List Store)
    (policy : Policy) (outcome : LookupOutcome)
    → lookup_action hexdigest ignored action stores policy ≡ ok outcome
    → (requested : String) × (action_digest hexdigest action ≡ ok requested)
      × (((outcome.hit ≡ true) × IsHit hexdigest policy stores requested ignored outcome)
          ⊎ ((outcome.hit ≡ false)
              × ((s : Store) (ms : List Manifest) (m : Manifest)
                  → In s stores
                  → s.candidates requested ≡ ok ms
                  → In m ms
                  → IsRejected hexdigest policy stores requested ignored s m)))
unfolding lookup_action
lookup_action_end hexdigest ignored action stores policy outcome h =
    let (requested, digested, h') = >>=-eq-ok (action_digest hexdigest action) _ h in
    (
      requested,
      digested,
      elim (scan_stores_end hexdigest policy stores requested ignored stores [] outcome h') [
        | inl (hit, found) ↦ inl (hit, found (λ s i. i))
        | inr missed ↦ inr missed
      ],
    )

-- `reuse` substitutes only an admissible result: if it reports a hit, the outcome names a store of
-- the list and a manifest such that the manifest is valid, is for exactly the action asked for, comes
-- from a trusted producer, has no effective invalidation, is fresh at the policy's time, has the
-- returned artifacts at their sizes and digests, and, if it has a lineage, each result in it is
-- admissible in the same way.
pub reuse-IsHit :
    (hexdigest : Hexdigest) (action : Value) (stores : List Store) (policy : Policy)
    (outcome : LookupOutcome)
    → reuse hexdigest action stores policy ≡ ok outcome
    → outcome.hit ≡ true
    → (requested : String) × (action_digest hexdigest action ≡ ok requested)
      × IsHit hexdigest policy stores requested false outcome
unfolding reuse
reuse-IsHit hexdigest action stores policy outcome h hit =
    let (requested, digested, end) =
      lookup_action_end hexdigest false action stores policy outcome h in
    (
      requested,
      digested,
      elim end [
        | inl (_, is_hit) ↦ is_hit
        | inr (missed, _) ↦ absurd (true-ne-false (sym hit ∙ missed))
      ],
    )

-- `candidate_for_revalidation` returns, if it reports a hit, a result that is admissible but for its
-- own freshness; the results in its lineage are fresh.
pub candidate_for_revalidation-IsHit :
    (hexdigest : Hexdigest) (action : Value) (stores : List Store) (policy : Policy)
    (outcome : LookupOutcome)
    → candidate_for_revalidation hexdigest action stores policy ≡ ok outcome
    → outcome.hit ≡ true
    → (requested : String) × (action_digest hexdigest action ≡ ok requested)
      × IsHit hexdigest policy stores requested true outcome
unfolding candidate_for_revalidation
candidate_for_revalidation-IsHit hexdigest action stores policy outcome h hit =
    let (requested, digested, end) =
      lookup_action_end hexdigest true action stores policy outcome h in
    (
      requested,
      digested,
      elim end [
        | inl (_, is_hit) ↦ is_hit
        | inr (missed, _) ↦ absurd (true-ne-false (sym hit ∙ missed))
      ],
    )

-- `reuse` reports a miss only if the check rejected, with a reason, every candidate that a readable
-- store of the list has for the digest of the action.
pub reuse-misses-IsRejected :
    (hexdigest : Hexdigest) (action : Value) (stores : List Store) (policy : Policy)
    (outcome : LookupOutcome) (requested : String) (s : Store) (ms : List Manifest) (m : Manifest)
    → reuse hexdigest action stores policy ≡ ok outcome
    → outcome.hit ≡ false
    → action_digest hexdigest action ≡ ok requested
    → In s stores
    → s.candidates requested ≡ ok ms
    → In m ms
    → IsRejected hexdigest policy stores requested false s m
unfolding reuse
reuse-misses-IsRejected hexdigest action stores policy outcome requested s ms m h missed e i c j =
    let (r, digested, end) = lookup_action_end hexdigest false action stores policy outcome h in
    let same : r ≡ requested = ok-injective (sym digested ∙ e) in
    elim end [
      | inl (hit, _) ↦ absurd (true-ne-false (sym hit ∙ missed))
      | inr (_, all_rejected) ↦
          subst (λ d. IsRejected hexdigest policy stores d false s m) same
            (all_rejected s ms m i (subst (λ d. s.candidates d ≡ ok ms) (sym same) c) j)
    ]
