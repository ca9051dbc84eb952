-- ===== src/Index.antt =====
-- `MemoryActiveKeyIndex` of src/oncemesh/integrations/index.py: which native keys are active, and at
-- which generation their value is published. `FilesystemActiveKeyIndex` applies the same operations
-- to the entries that it reads from its file and writes back.
pub mod Entries
pub mod Moves
pub mod Clear
use once_mesh.Base.{
  ℕ, zero, suc, ◌+◌, ◌≡◌, refl, String, Bool, true, false, not, ◌&&◌, ◌||◌, List, [], ◌∷◌, Option,
  none, some, all, if◌then◌else◌, ◌==◌,
}
use once_mesh.Base.Result.{Result, ok, raise, value_error, require, ◌>>=◌, ◌>>◌}
use once_mesh.Canonical.Encode.{sort_by_key}
use once_mesh.Canonical.Checks.{is_nonempty}
use Entries.{Namespace, NativeKey, EntryTable, IndexEntry, entry_at, write_entry, same_namespace}

-- `_validate_native`
unfoldable pub validate_native : NativeKey → Result (Unit {0})
validate_native (namespace, key) = do
  require (all is_nonempty namespace) "namespace must be a tuple of non-empty strings"
  require (is_nonempty key) "native key must be a non-empty string"

unfoldable pub generation : NativeKey → EntryTable → Result ℕ
unfolding validate_native
generation native entries = do validate_native native; ok (entry_at native entries).generation

unfoldable pub is_active : NativeKey → EntryTable → Result Bool
unfolding validate_native
is_active native entries = do validate_native native; ok (entry_at native entries).active

-- The generation and the publication of an active entry.
abbrev pub revision_of : IndexEntry → Option (ℕ × Option String)
revision_of e = if e.active then some (e.generation, e.publication_id) else none

unfoldable pub active_revision : NativeKey → EntryTable → Result (Option (ℕ × Option String))
unfolding validate_native
active_revision native entries = do
  validate_native native
  ok (revision_of (entry_at native entries))

-- The generation of the next publication: one more where a value is active.
abbrev pub next_generation : IndexEntry → ℕ
next_generation e = if e.active then e.generation + 1 else e.generation

unfoldable pub prepare_put : NativeKey → EntryTable → Result (ℕ × EntryTable)
unfolding validate_native
prepare_put native entries = do
  validate_native native
  let next = next_generation (entry_at native entries)
  ok (
    next,
    write_entry native (record { generation = next; active = false; publication_id = none })
        entries,
  )

unfoldable pub activate : NativeKey → EntryTable → Result EntryTable
unfolding validate_native
activate native entries = do
  validate_native native
  ok (write_entry native (record (entry_at native entries) { active = true }) entries)

-- The publisher writes the value to a store and may raise; the id is `uuid4().hex`.
unfoldable pub publish_and_activate :
    NativeKey → (ℕ → String → Result (Unit {0})) → String → EntryTable → Result (ℕ × EntryTable)
unfolding validate_native
publish_and_activate native publisher publication_id entries = do
  validate_native native
  let next = next_generation (entry_at native entries)
  publisher next publication_id
  ok (
    next,
    write_entry native
        (record { generation = next; active = true; publication_id = some publication_id }) entries,
  )

abbrev pub retired : IndexEntry → IndexEntry
retired e = record { generation = e.generation + 1; active = false; publication_id = none }

unfoldable pub delete : NativeKey → EntryTable → Result (Bool × EntryTable)
unfolding validate_native
delete native entries = do
  validate_native native
  let e = entry_at native entries
  if e.active then ok (true, write_entry native (retired e) entries) else ok (false, entries)

-- The loops of `clear_namespace` and `clear_all` over the entries: the number changed, and the
-- entries.
unfoldable pub retire_where : (NativeKey → Bool) → EntryTable → ℕ × EntryTable
retire_where test [] = (0, [])
retire_where test ((native, e) ∷ rest) =
    let (changed, rest') = retire_where test rest in
    if test native && e.active
    then (suc changed, (native, retired e) ∷ rest')
    else (changed, (native, e) ∷ rest')

unfoldable pub clear_namespace : Namespace → EntryTable → ℕ × EntryTable
unfolding retire_where
clear_namespace namespace = retire_where (λ native. same_namespace native.0 namespace)

unfoldable pub clear_all : EntryTable → ℕ × EntryTable
unfolding retire_where
clear_all = retire_where (λ native. true)

-- The keys of the active entries of a namespace, before they are sorted.
unfoldable pub listed_keys : Namespace → EntryTable → List (String × Unit {0})
listed_keys namespace [] = []
listed_keys namespace (((ns, key), e) ∷ rest) =
    let more = listed_keys namespace rest in
    if same_namespace ns namespace && e.active then (key, tt) ∷ more else more

unfoldable pub active_keys : Namespace → EntryTable → List (String × Unit {0})
unfolding listed_keys sort_by_key
active_keys namespace entries = sort_by_key (listed_keys namespace entries)
