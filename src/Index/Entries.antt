-- ===== src/Index/Entries.antt =====
-- The dict of src/oncemesh/integrations/index.py: native keys, which are pairs of a namespace and a
-- key, to triples of a generation, whether it is active, and the publication that made it so.
use once_mesh.Base.{
  ℕ, ◌≡◌, refl, String, Bool, true, false, ◌&&◌, List, [], ◌∷◌, Option, none, ◌==◌, eq_iff, eq_refl,
  arith, if◌then◌else◌,
}

abbrev pub Namespace : Type 0
Namespace = List String

abbrev pub NativeKey : Type 0
NativeKey = Namespace × String

pub record IndexEntry : Type 0 where
  pub generation : ℕ
  pub active : Bool
  pub publication_id : Option String

abbrev pub EntryTable : Type 0
EntryTable = List (NativeKey × IndexEntry)

-- `ns == namespace`
unfoldable pub same_namespace : Namespace → Namespace → Bool
same_namespace [] [] = true
same_namespace [] (t ∷ ts) = false
same_namespace (s ∷ ss) [] = false
same_namespace (s ∷ ss) (t ∷ ts) = s == t && same_namespace ss ts

pub same_namespace-eq : (a b : Namespace) → same_namespace a b ≡ true → a ≡ b
unfolding same_namespace
same_namespace-eq [] [] h = refl
same_namespace-eq [] (t ∷ ts) h = cc
same_namespace-eq (s ∷ ss) [] h = cc
same_namespace-eq (s ∷ ss) (t ∷ ts) h = ground (arith, eq_iff s t, same_namespace-eq ss ts)

pub same_namespace_refl : (a : Namespace) → same_namespace a a ≡ true
unfolding same_namespace
same_namespace_refl [] = refl
same_namespace_refl (s ∷ ss) = rw (eq_refl s, same_namespace_refl ss)

unfoldable pub same_native : NativeKey → NativeKey → Bool
same_native (a, j) (b, k) = same_namespace a b && j == k

pub same_native-eq : (a b : NativeKey) → same_native a b ≡ true → a ≡ b
unfolding same_native
same_native-eq (a, j) (b, k) h = ground (arith, same_namespace-eq a b, eq_iff j k)

pub same_native_refl : (a : NativeKey) → same_native a a ≡ true
unfolding same_native
same_native_refl (a, j) = rw (same_namespace_refl a, eq_refl j)

-- The default of `entries.get`.
abbrev pub blank : IndexEntry
blank = record { generation = 0; active = false; publication_id = none }

-- `entries.get(native, (0, False, None))`
unfoldable pub entry_at : NativeKey → EntryTable → IndexEntry
entry_at native [] = blank
entry_at native ((k, e) ∷ rest) = if same_native k native then e else entry_at native rest

-- `entries[native] = e`
unfoldable pub write_entry : NativeKey → IndexEntry → EntryTable → EntryTable
write_entry native e [] = (native, e) ∷ []
write_entry native e ((k, old) ∷ rest) =
    if same_native k native then (k, e) ∷ rest else (k, old) ∷ write_entry native e rest

pub entry_at-write_entry :
    (native key : NativeKey) (e : IndexEntry) (entries : EntryTable)
    → entry_at key (write_entry native e entries)
      ≡ (if same_native native key then e else entry_at key entries)
unfolding entry_at write_entry
entry_at-write_entry native key e [] = refl
entry_at-write_entry native key e ((k, old) ∷ rest) = ground (
  arith,
  entry_at-write_entry native key e rest,
  same_native-eq k native,
  same_native-eq k key,
  same_native-eq native key,
  same_native_refl key,
)
