-- ===== src/Index/Clear.antt =====
-- What `clear_namespace` of src/oncemesh/integrations/index.py does to each entry.
use once_mesh.Base.{
  ◌≡◌, ◌+◌, ◌⊎◌, ◌∙◌, subst, refl, ap, sym, inl, inr, Bool, true, false, ◌&&◌, [], ◌∷◌, none, arith,
  Bool-cases, if◌then◌else◌,
}
use once_mesh.Index.{retire_where, retired, clear_namespace, clear_all}
use once_mesh.Index.Entries.{
  Namespace, NativeKey, EntryTable, IndexEntry, entry_at, same_namespace, same_native,
  same_native-eq, same_namespace-eq, same_namespace_refl,
}

-- An entry after it was retired if it is chosen and active.
abbrev pub retired_if : Bool → IndexEntry → IndexEntry
retired_if chosen e = if chosen && e.active then retired e else e

pub entry_at-retire_where :
    (test : NativeKey → Bool) (native : NativeKey) (a : EntryTable)
    → entry_at native (retire_where test a).1 ≡ retired_if (test native) (entry_at native a)
unfolding entry_at retire_where
entry_at-retire_where test native [] = ground arith
entry_at-retire_where test native ((k, e) ∷ rest) =
    let later = entry_at-retire_where test native rest in
    elim (Bool-cases (same_native k native)) [
      | inl same ↦
          (let tested : test native ≡ test k = sym (ap test (same_native-eq k native same)) in
            elim (Bool-cases (test k && e.active)) [
              | inl chosen ↦ rw (tested, chosen, same, chosen) refl
              | inr kept ↦ rw (tested, kept, same, kept) refl
            ])
      | inr other ↦ elim (Bool-cases (test k && e.active)) [
        | inl chosen ↦ rw (chosen, other) later
        | inr kept ↦ rw (kept, other) later
      ]
    ]

-- An entry that was retired: not active, under the next generation and without a publication, where it
-- was active and the condition `Chosen` holds; or the same entry, where it was not active or its negation
-- holds.
abbrev pub IsRetired : Type 0 → IndexEntry → IndexEntry → Type 0
IsRetired Chosen before after =
    (Chosen
      × (before.active ≡ true)
      × (after.active ≡ false)
      × (after.generation ≡ before.generation + 1)
      × (after.publication_id ≡ none))
    ⊎ (((¬ Chosen) ⊎ (before.active ≡ false)) × (after ≡ before))

retired_if-IsRetired :
    {Chosen : Type 0} (chosen : Bool) (e : IndexEntry)
    → (chosen ≡ true → Chosen)
    → (chosen ≡ false → ¬ Chosen)
    → IsRetired Chosen e (retired_if chosen e)
retired_if-IsRetired false e yes_case no_case = inr (inl (no_case refl), refl)
retired_if-IsRetired {Chosen} true e yes_case no_case = by_active e.active refl
  where
    by_active :
        (active : Bool) → e.active ≡ active → IsRetired Chosen e (if active then retired e else e)
    by_active true h = inl (yes_case refl, h, refl, refl, refl)
    by_active false h = inr (inr h, refl)

-- After `clear_namespace` the entry of a key of the namespace that was active is not active any more,
-- has the next generation and no publication, and the entry of any other key and one that was not active
-- is as it was; after `clear_all` this holds of every key.
pub entry_at-clear_namespace :
    (native : NativeKey) (namespace : Namespace) (a : EntryTable)
    → IsRetired
        (native.0 ≡ namespace)
        (entry_at native a)
        (entry_at native (clear_namespace namespace a).1)
      × IsRetired (Unit {0}) (entry_at native a) (entry_at native (clear_all a).1)
unfolding clear_namespace clear_all
entry_at-clear_namespace native namespace a =
    let at_namespace =
      entry_at-retire_where (λ (key : NativeKey). same_namespace key.0 namespace) native a in
    let at_all = entry_at-retire_where (λ (key : NativeKey). true) native a in
    (
      rw at_namespace (
          retired_if-IsRetired (same_namespace native.0 namespace) (entry_at native a)
            (same_namespace-eq native.0 namespace)
            (λ other same. cc (
              sym other
              ∙ subst (λ ns. same_namespace native.0 ns ≡ true) same
                  (same_namespace_refl native.0)))),
      rw at_all (retired_if-IsRetired true (entry_at native a) (λ _. tt) (λ h. cc)),
    )
