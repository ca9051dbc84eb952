-- ===== src/Cache/Inversion.antt =====
-- What each check of `_evaluate` has established when it passes.
use once_mesh.Base.{
  ℕ, ◌≤◌, ◌<◌, ◌≡◌, ◌⊎◌, refl, sym, ◌∙◌, String, Bool, true, false, ◌||◌, List, [], ◌∷◌, subst,
  Option, none, some, ◌==◌, eq_iff, ltb, leb, contains, length, In, here, there, All, arith, inl,
  inr, Bool-cases, Option-cases,
}
use once_mesh.Base.Dict.{Dict}
use once_mesh.Base.Result
use once_mesh.Base.Result.{
  Error, Result, ok, raise, value_error, key_error, type_error, store_read_error, runtime_error,
  out_of_fuel, >>=-eq-ok,
}
use once_mesh.Time.{instant, parse_time, parse_time-some, parse_time-none}
use once_mesh.Canonical.Action.{Hexdigest, digest_bytes}
use once_mesh.Canonical.Manifest.{result_v1}
use once_mesh.Records.{
  Descriptor, Manifest, SourceValidation, Invalidation, check_manifest, digest_of,
}
use once_mesh.Store.{Store, Bytes, catch_read}
use once_mesh.Cache.{
  Policy, trusts, Traversal, Outcome, pass, reject, fail, Check, continue, lift, or_reject_read,
  reject_if,
}
use once_mesh.Cache.Evaluate.{
  find_invalidation, find_validation, after_test, manifest_is_fresh, or_stale,
  effective_invalidated, gate, check_invalidation_state, check_freshness, check_blob,
  collect_artifacts, trust_or,
}
use once_mesh.Cache.Admissible.{
  IsTrusted, IsLive, IsIneffective, AreIntact, IsNotInvalidated, IsFresh, IsPermitted,
}

-- Inversion of a bind that passed.
pub continue-eq-pass {ℓ κ} :
    {A : Type ℓ} {B : Type κ} (o : Outcome A) (f : A → Check B) {b : B} {t : Traversal}
    → continue o f ≡ pass b t
    → (a : A) × (t' : Traversal) × (o ≡ pass a t') × (f a t' ≡ pass b t)
continue-eq-pass (pass a t') f h = (a, t', refl, h)
continue-eq-pass (reject reason t') f h = cc
continue-eq-pass (fail e) f h = cc

-- Inversion of a read whose handler does not give the result at hand.
catch_read-eq-ok {ℓ κ} :
    {A : Type ℓ} {B : Type κ} (r : Result A) (handler : String → Result B) (next : A → Result B)
    {b : B}
    → ((e : String) → handler e ≡ ok b → ⊥)
    → catch_read r handler next ≡ ok b
    → (a : A) × (r ≡ ok a) × (next a ≡ ok b)
catch_read-eq-ok (ok a) handler next never h = (a, refl, h)
catch_read-eq-ok (raise (store_read_error e)) handler next never h = absurd (never e h)
catch_read-eq-ok (raise (value_error e)) handler next never h = cc
catch_read-eq-ok (raise (key_error e)) handler next never h = cc
catch_read-eq-ok (raise (type_error e)) handler next never h = cc
catch_read-eq-ok (raise (runtime_error e)) handler next never h = cc
catch_read-eq-ok (raise out_of_fuel) handler next never h = cc

-- The same, where the handler may give it.
pub catch_read-cases {ℓ κ} :
    {A : Type ℓ} {B : Type κ} (r : Result A) (handler : String → Result B) (next : A → Result B)
    {b : B}
    → catch_read r handler next ≡ ok b
    → ((a : A) × (r ≡ ok a) × (next a ≡ ok b))
      ⊎ ((e : String) × (r ≡ raise (store_read_error e)) × (handler e ≡ ok b))
catch_read-cases (ok a) handler next h = inl (a, refl, h)
catch_read-cases (raise (store_read_error e)) handler next h = inr (e, refl, h)
catch_read-cases (raise (value_error e)) handler next h = cc
catch_read-cases (raise (key_error e)) handler next h = cc
catch_read-cases (raise (type_error e)) handler next h = cc
catch_read-cases (raise (runtime_error e)) handler next h = cc
catch_read-cases (raise out_of_fuel) handler next h = cc

read_failed_is_late :
    ◌≡◌ {A = Result (Option String)} (ok (some "invalidation_read_failed")) (ok none) → ⊥
read_failed_is_late p = cc

pub pass-injective {ℓ} :
    {A : Type ℓ} {a b : A} {t t' : Traversal} → pass a t ≡ pass b t' → (a ≡ b) × (t ≡ t')
pass-injective h = (cc, cc)

pub lift-eq-pass {ℓ} :
    {A : Type ℓ} (r : Result A) {a : A} {t t' : Traversal}
    → lift r t ≡ pass a t'
    → (r ≡ ok a) × (t' ≡ t)
lift-eq-pass (ok a) h = (cc, cc)
lift-eq-pass (raise e) h = cc

reject_if-eq-pass :
    (b : Bool) (reason : String) {u : Unit {0}} {t t' : Traversal}
    → reject_if b reason t ≡ pass u t'
    → (b ≡ false) × (t' ≡ t)
reject_if-eq-pass false reason h = (refl, cc)
reject_if-eq-pass true reason h = cc

or_reject_read-eq-pass {ℓ} :
    {A : Type ℓ} (r : Result A) (reason : String) {a : A} {t t' : Traversal}
    → or_reject_read r reason t ≡ pass a t'
    → (r ≡ ok a) × (t' ≡ t)
or_reject_read-eq-pass (ok a) reason h = (cc, cc)
or_reject_read-eq-pass (raise (store_read_error e)) reason h = cc
or_reject_read-eq-pass (raise (value_error e)) reason h = cc
or_reject_read-eq-pass (raise (key_error e)) reason h = cc
or_reject_read-eq-pass (raise (type_error e)) reason h = cc
or_reject_read-eq-pass (raise (runtime_error e)) reason h = cc
or_reject_read-eq-pass (raise out_of_fuel) reason h = cc

or_stale-eq-pass :
    (selected : Option SourceValidation) (fresh_until : Option String) (permit : Bool)
    {v : Option SourceValidation} {t t' : Traversal}
    → or_stale selected fresh_until permit t ≡ pass v t'
    → (selected ≡ v) × (v ≡ none → (fresh_until ≡ none) × (permit ≡ true)) × (t' ≡ t)
unfolding or_stale
or_stale-eq-pass (some w) fresh_until permit h = (cc, λ e. cc (h, e), cc)
or_stale-eq-pass none none true h = (cc, λ e. (refl, refl), cc)
or_stale-eq-pass none none false h = cc
or_stale-eq-pass none (some text) permit h = cc

IsLive-of_fresh :
    (fresh_until : Option String) (now : ℕ)
    → manifest_is_fresh fresh_until now ≡ ok true
    → (text : String) × (fresh_until ≡ some text) × IsLive now text
unfolding manifest_is_fresh
IsLive-of_fresh none now h = cc
IsLive-of_fresh (some text) now h = elim (Option-cases (instant text)) [
  | inl unread ↦ absurd (cc (rw (parse_time-none text unread) at h))
  | inr (until, read) ↦
      let h' : ok (leb now until) ≡ ok true = rw (parse_time-some text until read) at h in
      (text, refl, (until, read, ground arith))
]

check_blob-eq-pass :
    (hexdigest : Hexdigest) (d : Descriptor) (value : Option Bytes) {blob : Bytes}
    {t t' : Traversal}
    → check_blob hexdigest d value t ≡ pass blob t'
    → (value ≡ some blob)
      × (length blob ≡ d.size)
      × (digest_bytes hexdigest blob ≡ d.digest)
      × (t' ≡ t)
unfolding check_blob
check_blob-eq-pass hexdigest d none h = cc
check_blob-eq-pass hexdigest d (some b) h =
    ground (arith, eq_iff (digest_bytes hexdigest b) d.digest)

pub In_of_contains : (xs : List String) (k : String) → contains xs k ≡ true → In k xs
unfolding contains
In_of_contains [] k h = cc
In_of_contains (x ∷ xs) k h = elim (Bool-cases (x == k)) [
  | inl e ↦ subst (λ y. In k (y ∷ xs)) (sym ((eq_iff x k).0 e)) here
  | inr e ↦ there (In_of_contains xs k (ground arith))
]

pub IsTrusted-of_trusts :
    (trust : Option (List String)) (p : String) → trusts trust p ≡ true → IsTrusted trust p
unfolding trusts
IsTrusted-of_trusts none p h = tt
IsTrusted-of_trusts (some ps) p h = In_of_contains ps p h

contains_of_In : (xs : List String) (k : String) → In k xs → contains xs k ≡ true
unfolding contains
contains_of_In [] k m = elim m [ ]
contains_of_In (x ∷ xs) k here = ground (arith, eq_iff k k)
contains_of_In (x ∷ xs) k (there m) = ground (arith, contains_of_In xs k m)

pub trusts_of_IsTrusted :
    (trust : Option (List String)) (p : String) → IsTrusted trust p → trusts trust p ≡ true
unfolding trusts
trusts_of_IsTrusted none p h = refl
trusts_of_IsTrusted (some ps) p h = contains_of_In ps p h

pub parse_time-eq-ok : (text : String) (t : ℕ) → parse_time text ≡ ok t → instant text ≡ some t
unfolding parse_time
parse_time-eq-ok text t h = ground arith

-- The rest of the loop is reached where the head is not trusted, or takes effect later.
find_invalidation-cons :
    (trust : Option (List String)) (now : ℕ) (r : Invalidation) (rs : List Invalidation)
    → find_invalidation trust now (r ∷ rs) ≡ ok none
    → ((trusts trust r.producer ≡ false)
        ⊎ ((at : ℕ) × (instant r.invalidated_at ≡ some at) × (now < at)))
      × (find_invalidation trust now rs ≡ ok none)
unfolding find_invalidation
find_invalidation-cons trust now r rs h = elim (Bool-cases (trusts trust r.producer)) [
  | inr untrusted ↦ (inl untrusted, rw untrusted at h)
  | inl trusted ↦ elim (Option-cases (instant r.invalidated_at)) [
    | inl unread ↦ absurd (cc (rw (trusted, parse_time-none r.invalidated_at unread) at h))
    | inr (at, read) ↦ elim (Bool-cases (leb at now)) [
      | inl due ↦ absurd (cc (rw (trusted, parse_time-some r.invalidated_at at read, due) at h))
      | inr later ↦ (
        inr (at, read, ground arith),
        rw (trusted, parse_time-some r.invalidated_at at read, later) at h,
      )
    ]
  ]
]

-- No record was trusted and in effect.
find_invalidation-eq-none :
    (trust : Option (List String)) (now : ℕ) (rs : List Invalidation)
    → find_invalidation trust now rs ≡ ok none
    → All (IsIneffective trust now) rs
find_invalidation-eq-none trust now [] h = tt
find_invalidation-eq-none trust now (r ∷ rs) h =
    let (head, rest) = find_invalidation-cons trust now r rs h in
    (
      elim head [
        | inl untrusted ↦ λ tr. absurd (cc (untrusted, trusts_of_IsTrusted trust r.producer tr))
        | inr later ↦ λ _. later
      ],
      find_invalidation-eq-none trust now rs rest,
    )

ok_some-injective {ℓ} : {A : Type ℓ} {a b : A} → ok (some a) ≡ ok (some b) → a ≡ b
ok_some-injective h = cc

-- The validation that the loop selects is one of the store's, trusted and live.
find_validation-eq-some :
    (trust : Option (List String)) (now : ℕ) (vs : List SourceValidation) (v : SourceValidation)
    → find_validation trust now vs ≡ ok (some v)
    → In v vs × IsTrusted trust v.producer × IsLive now v.fresh_until
unfolding find_validation
find_validation-eq-some trust now [] v h = cc
find_validation-eq-some trust now (w ∷ vs) v h = elim (Bool-cases (trusts trust w.producer)) [
  | inr untrusted ↦
      let rest = find_validation-eq-some trust now vs v (rw untrusted at h) in
      (there rest.0, rest.1, rest.2)
  | inl trusted ↦ elim (Option-cases (instant w.fresh_until)) [
    | inl unread ↦ absurd (cc (rw (trusted, parse_time-none w.fresh_until unread) at h))
    | inr (until, read) ↦ elim (Bool-cases (leb now until)) [
      | inl live ↦
          subst (λ x. In x (w ∷ vs) × IsTrusted trust x.producer × IsLive now x.fresh_until)
            (ok_some-injective (rw (trusted, parse_time-some w.fresh_until until read, live) at h))
            (here, IsTrusted-of_trusts trust w.producer trusted, (until, read, ground arith))
      | inr over ↦
          let rest =
            find_validation-eq-some trust now vs v
              (rw (trusted, parse_time-some w.fresh_until until read, over) at h) in
          (there rest.0, rest.1, rest.2)
    ]
  ]
]

module _ (hexdigest : Hexdigest) where
  gate_facts :
      (depth : ℕ) (requested : String) (m : Manifest) (policy : Policy) (t t' : Traversal)
      (exact : String)
      → gate hexdigest depth requested m policy t ≡ pass exact t'
      → (check_manifest m ≡ ok tt)
        × ((m.action_digest == requested) ≡ true)
        × (policy.require_lineage ≡ true → (m.spec_version == result_v1) ≡ true)
        × (depth ≤ policy.max_dependency_depth)
        × (trusts policy.trusted_producers m.producer ≡ true)
        × (digest_of hexdigest m ≡ ok exact)
        × (contains t.active exact ≡ false)
        × (t' ≡ t)
  unfolding gate
  gate_facts depth requested m policy t t' exact h = ground arith

  pub gate-eq-pass :
      (depth : ℕ) (requested : String) (m : Manifest) (policy : Policy) (t t' : Traversal)
      (exact : String)
      → gate hexdigest depth requested m policy t ≡ pass exact t'
      → IsPermitted policy depth requested m
        × (digest_of hexdigest m ≡ ok exact)
        × (contains t.active exact ≡ false)
        × (t' ≡ t)
  gate-eq-pass depth requested m policy t t' exact h =
      let facts = gate_facts depth requested m policy t t' exact h in
      (
        record {
          valid = facts.0;
          exact_action = (eq_iff _ _).0 facts.1;
          lineage = λ r. (eq_iff _ _).0 (facts.2 r);
          shallow = facts.3;
          trusted = IsTrusted-of_trusts policy.trusted_producers m.producer facts.4;
        },
        facts.5,
        facts.6,
        facts.7,
      )

  effective_invalidated-eq-none :
      (m : Manifest) (s : Store) (policy : Policy) (required : Bool)
      → effective_invalidated hexdigest m s policy required ≡ ok none
      → ((s.invalidations ≡ none) × (required ≡ false))
        ⊎ ((reader : String → Result (List Invalidation)) × (exact : String) × (records : List
              Invalidation)
            × (s.invalidations ≡ some reader)
            × (digest_of hexdigest m ≡ ok exact)
            × (reader exact ≡ ok records)
            × (find_invalidation
                  (trust_or policy.trusted_invalidation_producers policy.trusted_producers)
                  policy.now
                  records
                ≡ ok none))
  unfolding effective_invalidated
  effective_invalidated-eq-none m s policy required h = elim (Option-cases s.invalidations) [
    | inl lacks ↦ inl (lacks, ground arith)
    | inr (reader, has) ↦
        let h' : catch_read (Result.◌>>=◌ (digest_of hexdigest m) reader)
              (λ _. ok (some "invalidation_read_failed"))
              (find_invalidation
                (trust_or policy.trusted_invalidation_producers policy.trusted_producers)
                policy.now)
            ≡ ok none =
          rw has at h in
        let (records, read, quiet) = catch_read-eq-ok _ _ _ (λ e. read_failed_is_late) h' in
        let (exact, digested, listed) = >>=-eq-ok (digest_of hexdigest m) reader read in
        inr (reader, exact, records, has, digested, listed, quiet)
  ]

  pub check_invalidation_state-eq-pass :
      (depth : ℕ) (m : Manifest) (s : Store) (policy : Policy) (t t' : Traversal) {u : Unit {0}}
      → check_invalidation_state hexdigest depth m s policy t ≡ pass u t'
      → IsNotInvalidated hexdigest policy depth m s × (t' ≡ t)
  unfolding check_invalidation_state
  check_invalidation_state-eq-pass depth m s policy t t' h =
      let required = m.spec_version == result_v1 || ltb 0 depth in
      let e : (effective_invalidated hexdigest m s policy required ≡ ok none) × (t' ≡ t) =
        ground arith in
      (
        elim (effective_invalidated-eq-none m s policy required e.0) [
          | inl (lacks, optional) ↦
              inl (lacks, ground (arith, eq_iff m.spec_version result_v1), ground arith)
          | inr (reader, exact, records, has, digested, read, quiet) ↦ inr (
            reader,
            exact,
            records,
            has,
            digested,
            read,
            find_invalidation-eq-none _ policy.now records quiet,
          )
        ],
        e.1,
      )

  selected_IsFresh :
      (m : Manifest) (s : Store) (policy : Policy) (exact : String) (vs : List SourceValidation)
      (w : Option SourceValidation)
      → digest_of hexdigest m ≡ ok exact
      → s.validations exact ≡ ok vs
      → find_validation
          (trust_or policy.trusted_validation_producers policy.trusted_producers)
          policy.now
          vs
        ≡ ok w
      → (w ≡ none → (m.fresh_until ≡ none) × (policy.permit_no_expiry ≡ true))
      → IsFresh hexdigest policy m s w
  selected_IsFresh m s policy exact vs none digested listed found_ endless = inr (endless refl)
  selected_IsFresh m s policy exact vs (some w) digested listed found_ endless =
      let facts = find_validation-eq-some _ policy.now vs w found_ in
      (exact, vs, digested, listed, facts.0, facts.1, facts.2)

  freshness_cases :
      (m : Manifest) (s : Store) (policy : Policy) (fresh : Bool) (t t1 t' : Traversal)
      (v : Option SourceValidation)
      → manifest_is_fresh m.fresh_until policy.now ≡ ok fresh
      → t1 ≡ t
      → after_test hexdigest m s policy fresh t1 ≡ pass v t'
      → (false ≡ false → IsFresh hexdigest policy m s v) × (t' ≡ t)
  unfolding after_test
  freshness_cases m s policy true t t1 t' v checked same h =
      let last = pass-injective h in
      (
        λ _.
            subst (IsFresh hexdigest policy m s) last.0
              (inl (IsLive-of_fresh m.fresh_until policy.now checked)),
        cc (same, last.1),
      )
  freshness_cases m s policy false t t1 t' v checked same h =
      let trust = trust_or policy.trusted_validation_producers policy.trusted_producers in
      let (vs, t2, e2, h2) =
        continue-eq-pass
          (or_reject_read (Result.◌>>=◌ (digest_of hexdigest m) s.validations)
            "validation_read_failed" t1)
          _ h in
      let (w, t3, e3, h3) = continue-eq-pass (lift (find_validation trust policy.now vs) t2) _ h2 in
      let read = or_reject_read-eq-pass _ "validation_read_failed" e2 in
      let (exact, digested, listed) = >>=-eq-ok (digest_of hexdigest m) s.validations read.0 in
      let selected = lift-eq-pass (find_validation trust policy.now vs) e3 in
      let last = or_stale-eq-pass w m.fresh_until policy.permit_no_expiry h3 in
      (
        λ _. subst (IsFresh hexdigest policy m s) last.0 (
            selected_IsFresh m s policy exact vs w digested listed selected.0
              (λ e. last.1 (sym last.0 ∙ e))),
        cc (same, read.1, selected.1, last.2),
      )

  pub check_freshness-eq-pass :
      (m : Manifest) (s : Store) (policy : Policy) (ignored : Bool) (t t' : Traversal)
      (v : Option SourceValidation)
      → check_freshness hexdigest m s policy ignored t ≡ pass v t'
      → (ignored ≡ false → IsFresh hexdigest policy m s v) × (t' ≡ t)
  unfolding check_freshness
  check_freshness-eq-pass m s policy true t t' v h = (λ e. cc e, ground arith)
  check_freshness-eq-pass m s policy false t t' v h =
      let (fresh, t1, e1, h1) =
        continue-eq-pass (lift (manifest_is_fresh m.fresh_until policy.now) t) _ h in
      let (checked, same) = lift-eq-pass (manifest_is_fresh m.fresh_until policy.now) e1 in
      freshness_cases m s policy fresh t t1 t' v checked same h1

  pub collect_artifacts-eq-pass :
      (s : Store) (names : List String) (ds : List Descriptor) (t t' : Traversal)
      (artifacts : Dict Bytes)
      → collect_artifacts hexdigest s names ds t ≡ pass artifacts t'
      → AreIntact hexdigest s ds artifacts × (t' ≡ t)
  unfolding collect_artifacts
  collect_artifacts-eq-pass s names [] t t' [] h = ground arith
  collect_artifacts-eq-pass s names [] t t' (a ∷ rest) h = cc
  collect_artifacts-eq-pass s names (d ∷ ds) t t' artifacts h =
      let (_, t1, e1, h1) =
        continue-eq-pass (reject_if (contains names d.name) "invalid_artifact_name" t) _ h in
      let (value, t2, e2, h2) = continue-eq-pass (lift (s.get_blob d.digest) t1) _ h1 in
      let (blob, t3, e3, h3) = continue-eq-pass (check_blob hexdigest d value t2) _ h2 in
      let (rest, t4, e4, h4) =
        continue-eq-pass (collect_artifacts hexdigest s (d.name ∷ names) ds t3) _ h3 in
      let new = reject_if-eq-pass (contains names d.name) "invalid_artifact_name" e1 in
      let got = lift-eq-pass (s.get_blob d.digest) e2 in
      let checked = check_blob-eq-pass hexdigest d value e3 in
      let others = collect_artifacts-eq-pass s (d.name ∷ names) ds t3 t4 rest e4 in
      let last = pass-injective h4 in
      (
        subst (AreIntact hexdigest s (d ∷ ds)) last.0
            ((refl, cc (got.0, checked.0), checked.1, checked.2), others.0),
        cc (new.1, got.1, checked.3, others.1, last.1),
      )
