-- ===== src/Index/Moves.antt =====
-- Sequences of operations on the index of src/oncemesh/integrations/index.py, as a step relation, and
-- how they move the generations of its entries.
use once_mesh.Base.{
  ℕ, ◌≤◌, ◌<◌, ◌≡◌, refl, ap, sym, subst, ◌∙◌, ◌⊎◌, inl, inr, String, Bool, true, false, ◌&&◌, [],
  ◌∷◌, Option, none, some, arith, Bool-cases, if◌then◌else◌,
}
use once_mesh.Base.Result.{Result, ok, ◌>>=◌, >>=-eq-ok, ok-injective}
use once_mesh.Index.{
  validate_native, prepare_put, activate, publish_and_activate, delete, retire_where, retired,
  clear_namespace, clear_all, next_generation, active_revision, revision_of,
}
use once_mesh.Index.Clear.{entry_at-retire_where}
use once_mesh.Index.Entries.{
  same_namespace_refl, Namespace, NativeKey, EntryTable, IndexEntry, blank, entry_at, write_entry,
  same_native, same_namespace, same_native-eq, same_native_refl, entry_at-write_entry,
}

-- One operation that returned, from the entries `a` to the entries `b`.
pub data Step (a b : EntryTable) : Type 0 where
  prepared : (native : NativeKey) (g : ℕ) → prepare_put native a ≡ ok (g, b) → Step a b
  activated : (native : NativeKey) → activate native a ≡ ok b → Step a b
  published :
      (native : NativeKey) (publisher : ℕ → String → Result (Unit {0})) (id : String) (g : ℕ)
      → publish_and_activate native publisher id a ≡ ok (g, b)
      → Step a b
  deleted : (native : NativeKey) (done : Bool) → delete native a ≡ ok (done, b) → Step a b
  cleared : (namespace : Namespace) → (clear_namespace namespace a).1 ≡ b → Step a b
  cleared_all : (clear_all a).1 ≡ b → Step a b

pub data Reach (a : EntryTable) : EntryTable → Type 0 where
  here : Reach a a
  next : {b c : EntryTable} → Reach a b → Step b c → Reach a c

-- What an entry may become: its generation does not fall, and an active entry stays as it is or has
-- a greater generation.
pub record IsLater (a b : IndexEntry) : Type 0 where
  pub grows : a.generation ≤ b.generation
  pub replaced : a.active ≡ true → (b ≡ a) ⊎ (a.generation < b.generation)

abbrev pub AreLater : EntryTable → EntryTable → Type 0
AreLater a b = (key : NativeKey) → IsLater (entry_at key a) (entry_at key b)

IsLater-refl : (a : IndexEntry) → IsLater a a
IsLater-refl a = record { grows = omega arith; replaced = λ h. inl refl }

IsLater-trans : {a b c : IndexEntry} → IsLater a b → IsLater b c → IsLater a c
IsLater-trans {a} {b} {c} p q = record {
  grows = omega (arith, p.grows, q.grows);
  replaced = λ h. elim (p.replaced h) [
    | inr less ↦ inr (omega (arith, q.grows))
    | inl same ↦ elim (q.replaced (ap (λ (e : IndexEntry). e.active) same ∙ h)) [
      | inl again ↦ inl (again ∙ same)
      | inr less ↦ inr (subst (λ (e : IndexEntry). e.generation < c.generation) same less)
    ]
  ];
}

-- A write of one later entry makes the table later.
write_AreLater :
    (native : NativeKey) (e : IndexEntry) (a : EntryTable)
    → IsLater (entry_at native a) e
    → AreLater a (write_entry native e a)
write_AreLater native e a later key =
    rw entry_at-write_entry (elim (Bool-cases (same_native native key)) [
      | inl same ↦
          rw same (subst (λ k. IsLater (entry_at k a) e) (same_native-eq native key same) later)
      | inr other ↦ rw other (IsLater-refl (entry_at key a))
    ])

next_IsLater :
    (e : IndexEntry) (active : Bool) (id : Option String)
    → (e.active ≡ true ⊎ e.active ≡ false)
    → IsLater e (record { generation = next_generation e; active = active; publication_id = id })
next_IsLater e active id (inr idle) = record { grows = ground arith; replaced = λ h. ground arith }
next_IsLater e active id (inl busy) = record {
  grows = ground arith;
  replaced = λ h. inr (ground arith);
}

-- The retirement of active entries makes the table later.
retire_AreLater : (test : NativeKey → Bool) (a : EntryTable) → AreLater a (retire_where test a).1
unfolding retire_where entry_at
retire_AreLater test [] key = IsLater-refl blank
retire_AreLater test ((native, e) ∷ rest) key = elim (Bool-cases (test native && e.active)) [
  | inl chosen ↦ rw chosen (elim (Bool-cases (same_native native key)) [
    | inl same ↦ rw same (record { grows = omega arith; replaced = λ h. inr (omega arith) })
    | inr other ↦ rw other (retire_AreLater test rest key)
  ])
  | inr kept ↦ rw kept (elim (Bool-cases (same_native native key)) [
    | inl same ↦ rw same (IsLater-refl e)
    | inr other ↦ rw other (retire_AreLater test rest key)
  ])
]

activated_IsLater : (e : IndexEntry) → IsLater e (record e { active = true })
activated_IsLater e = record {
  grows = omega arith;
  replaced = λ h. inl (ap (λ b. record e { active = b }) (sym h));
}

-- What holds of the result computed after a check holds of the result returned.
checked {ℓ} :
    {R : Type ℓ} (P : R → Type 0) (m : Result (Unit {0})) (x r : R)
    → (m >>= λ _. ok x) ≡ ok r
    → P x
    → P r
checked P m x r h p = let (u, _, last) = >>=-eq-ok m (λ _. ok x) h in subst P (ok-injective last) p

deleted_AreLater :
    (native : NativeKey) (a b : EntryTable) (active done : Bool)
    → if◌then◌else◌ {A = Result (Bool × EntryTable)} active
        (ok (true, write_entry native (retired (entry_at native a)) a))
        (ok (false, a))
      ≡ ok (done, b)
    → AreLater a b
deleted_AreLater native a b true done h =
    subst (λ (p : Bool × EntryTable). AreLater a p.1) (ok-injective h)
      (write_AreLater native (retired (entry_at native a)) a
        (record { grows = omega arith; replaced = λ _. inr (omega arith) }))
deleted_AreLater native a b false done h =
    subst (λ (p : Bool × EntryTable). AreLater a p.1) (ok-injective h)
      (λ key. IsLater-refl (entry_at key a))

-- Every operation that returns makes the table later.
Step-AreLater : {a b : EntryTable} → Step a b → AreLater a b
unfolding prepare_put activate publish_and_activate delete clear_namespace clear_all
Step-AreLater {a} {b} (prepared native g h) =
    checked (λ (p : ℕ × EntryTable). AreLater a p.1) _ _ (g, b) h
      (write_AreLater native _ a (next_IsLater (entry_at native a) false none (Bool-cases _)))
Step-AreLater {a} {b} (activated native h) =
    checked (AreLater a) _ _ b h (write_AreLater native _ a (activated_IsLater (entry_at native a)))
Step-AreLater {a} {b} (published native publisher id g h) =
    let (u, _, rest) = >>=-eq-ok (validate_native native) _ h in
    let (v, _, last) = >>=-eq-ok (publisher _ id) _ rest in
    subst (λ (p : ℕ × EntryTable). AreLater a p.1) (ok-injective last)
      (write_AreLater native _ a (next_IsLater (entry_at native a) true (some id) (Bool-cases _)))
Step-AreLater {a} {b} (deleted native done h) =
    let (u, _, rest) = >>=-eq-ok (validate_native native) _ h in
    deleted_AreLater native a b _ done rest
Step-AreLater {a} {b} (cleared namespace h) =
    subst (AreLater a) h (retire_AreLater (λ native. same_namespace native.0 namespace) a)
Step-AreLater {a} {b} (cleared_all h) = subst (AreLater a) h (retire_AreLater (λ native. true) a)

-- After any sequence of operations that returned, every key has a generation at least its old one,
-- and an entry that was active is unchanged or has a greater generation.
pub Reach-AreLater : {a b : EntryTable} → Reach a b → AreLater a b
Reach-AreLater {a} here key = IsLater-refl (entry_at key a)
Reach-AreLater (next r s) key = IsLater-trans (Reach-AreLater r key) (Step-AreLater s key)

some-injective {ℓ} : {A : Type ℓ} {x y : A} → some x ≡ some y → x ≡ y
some-injective h = cc

revision_of-eq-some :
    (e : IndexEntry) (r : ℕ × Option String)
    → revision_of e ≡ some r
    → (e.active ≡ true) × (e.generation ≡ r.0)
revision_of-eq-some e r h = elim (Bool-cases e.active) [
  | inl active ↦ (active, ap (λ (p : ℕ × Option String). p.0) (some-injective (rw active at h)))
  | inr idle ↦ cc (rw idle at h)
]

active_revision-eq-some :
    (native : NativeKey) (a : EntryTable) (r : ℕ × Option String)
    → active_revision native a ≡ ok (some r)
    → ((entry_at native a).active ≡ true) × ((entry_at native a).generation ≡ r.0)
unfolding active_revision
active_revision-eq-some native a r h =
    let (u, _, rest) = >>=-eq-ok (validate_native native) _ h in
    revision_of-eq-some (entry_at native a) r (ok-injective rest)

-- What `delete` does to an active entry.
deleted_Grows :
    (native : NativeKey) (done : Bool) (a b : EntryTable)
    → (entry_at native a).active ≡ true
    → delete native a ≡ ok (done, b)
    → (entry_at native a).generation < (entry_at native b).generation
unfolding delete
deleted_Grows native done a b active h =
    let (u, _, rest) = >>=-eq-ok (validate_native native) _ h in
    let last = ok-injective (rw active at rest) in
    subst
      (λ (p : Bool × EntryTable). (entry_at native a).generation < (entry_at native p.1).generation)
      last (rw (entry_at-write_entry, same_native_refl native) (omega arith))

retired_Grows :
    (native : NativeKey) (test : NativeKey → Bool) (a : EntryTable)
    → test native ≡ true
    → (entry_at native a).active ≡ true
    → (entry_at native a).generation < (entry_at native (retire_where test a).1).generation
retired_Grows native test a chosen active =
    rw (entry_at-retire_where test native a, chosen, active) (omega arith)

-- The operations that retire the active revision of a key.
pub data Retires (native : NativeKey) (a b : EntryTable) : Type 0 where
  by_delete : (done : Bool) → delete native a ≡ ok (done, b) → Retires native a b
  by_clear_namespace : (clear_namespace native.0 a).1 ≡ b → Retires native a b
  by_clear_all : (clear_all a).1 ≡ b → Retires native a b

Retires-Grows :
    (native : NativeKey) (a b : EntryTable)
    → (entry_at native a).active ≡ true
    → Retires native a b
    → (entry_at native a).generation < (entry_at native b).generation
unfolding clear_namespace clear_all
Retires-Grows native a b active (by_delete done h) = deleted_Grows native done a b active h
Retires-Grows native a b active (by_clear_namespace h) =
    subst (λ t. (entry_at native a).generation < (entry_at native t).generation) h
      (retired_Grows native (λ key. same_namespace key.0 native.0) a (same_namespace_refl native.0)
        active)
Retires-Grows native a b active (by_clear_all h) =
    subst (λ t. (entry_at native a).generation < (entry_at native t).generation) h
      (retired_Grows native (λ key. true) a refl active)

-- A key whose active revision was deleted, or was retired by `clear_namespace` of its namespace or by
-- `clear_all`, never has that revision again, whatever sequence of operations follows.
pub delete-IsFinal :
    (native : NativeKey) (old : ℕ × Option String) (a b c : EntryTable)
    → active_revision native a ≡ ok (some old)
    → Retires native a b
    → Reach b c
    → ¬ active_revision native c ≡ ok (some old)
delete-IsFinal native old a b c before gone reach again =
    let (active, was) = active_revision-eq-some native a old before in
    let (_, now) = active_revision-eq-some native c old again in
    let later = (Reach-AreLater reach native).grows in
    omega (arith, Retires-Grows native a b active gone)
