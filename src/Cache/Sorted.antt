-- ===== src/Cache/Sorted.antt =====
-- `sorted(artifacts.items())` keeps the entries, and with them the names.
use once_mesh.Base.{
  ◌≡◌, refl, String, true, false, ◌||◌, List, [], ◌∷◌, map, ◌==◌, eq_iff, contains, all_distinct,
  All, arith, Bool-cases, inl, inr,
}
use once_mesh.Canonical.Encode.{insert_by_key, sort_by_key, text_lt}

module _ {ℓ} {V : Type ℓ} where
  abbrev pub names : List (String × V) → List String
  names = map (λ e. e.0)

  contains-insert_by_key :
      (k : String) (v : V) (l : List (String × V)) (x : String)
      → contains (names (insert_by_key k v l)) x ≡ (k == x || contains (names l) x)
  unfolding insert_by_key contains
  contains-insert_by_key k v [] x = refl
  contains-insert_by_key k v ((j, w) ∷ l) x = ground (arith, contains-insert_by_key k v l x)

  contains-sort_by_key :
      (l : List (String × V)) (x : String)
      → contains (names (sort_by_key l)) x ≡ contains (names l) x
  unfolding sort_by_key contains
  contains-sort_by_key [] x = refl
  contains-sort_by_key ((k, v) ∷ l) x =
      ground (arith, contains-insert_by_key k v (sort_by_key l) x, contains-sort_by_key l x)

  distinct-insert_by_key :
      (k : String) (v : V) (l : List (String × V))
      → contains (names l) k ≡ false
      → all_distinct (names l) ≡ true
      → all_distinct (names (insert_by_key k v l)) ≡ true
  unfolding insert_by_key contains all_distinct
  distinct-insert_by_key k v [] absent distinct = refl
  distinct-insert_by_key k v ((j, w) ∷ l) absent distinct =
      ground (
        arith,
        contains-insert_by_key k v l j,
        distinct-insert_by_key k v l,
        eq_iff j k,
        eq_iff k j,
      )

  -- The names stay distinct.
  pub distinct-sort_by_key :
      (l : List (String × V))
      → all_distinct (names l) ≡ true
      → all_distinct (names (sort_by_key l)) ≡ true
  unfolding sort_by_key all_distinct
  distinct-sort_by_key [] h = refl
  distinct-sort_by_key ((k, v) ∷ l) h =
      distinct-insert_by_key k v (sort_by_key l) (ground (arith, contains-sort_by_key l k))
        (distinct-sort_by_key l (ground arith))

module _ {ℓ κ} {V : Type ℓ} where
  All-insert_by_key :
      (P : String × V → Type κ) (k : String) (v : V) (l : List (String × V))
      → P (k, v)
      → All P l
      → All P (insert_by_key k v l)
  unfolding insert_by_key
  All-insert_by_key P k v [] h hs = (h, tt)
  All-insert_by_key P k v ((j, w) ∷ l) h hs = elim (Bool-cases (text_lt k j)) [
    | inl before ↦ rw before (h, hs)
    | inr behind ↦ rw behind (hs.0, All-insert_by_key P k v l h hs.1)
  ]

  pub All-sort_by_key :
      (P : String × V → Type κ) (l : List (String × V)) → All P l → All P (sort_by_key l)
  unfolding sort_by_key
  All-sort_by_key P [] hs = tt
  All-sort_by_key P ((k, v) ∷ l) hs =
      All-insert_by_key P k v (sort_by_key l) hs.0 (All-sort_by_key P l hs.1)
