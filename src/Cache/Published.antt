-- ===== src/Cache/Published.antt =====
-- What `publish_result` has stored: each artifact's bytes under their digest, and the manifest first
-- among the candidates for its action.
use once_mesh.Base.{
  ◌≡◌, refl, ap, String, List, [], ◌∷◌, map, reverse, some, eq_iff, eq_refl, All, All-map, length,
  arith,
}
use mathlib.Core.List.{reverse-append}
use once_mesh.Base.Dict.{Dict, lookup, insert, lookup-insert}
use once_mesh.Canonical.Action.{Hexdigest, digest_bytes}
use once_mesh.Records.{Descriptor}
use once_mesh.Store.{Bytes}
use once_mesh.Store.Memory.{MemoryStore, put_blob, listed_at, append_at}
use once_mesh.Cache.Publish.{publish_artifacts}

abbrev pub Entry : Type 0
Entry = String × (Bytes × String)

abbrev pub payload : Entry → Bytes
payload (name, (bytes, media_type)) = bytes

-- The entry as a lookup returns it.
abbrev pub named_bytes : Entry → String × Bytes
named_bytes (name, (bytes, media_type)) = (name, bytes)

module _ (hexdigest : Hexdigest) where
  abbrev pub describe : Entry → Descriptor
  describe (name, (bytes, media_type)) = record {
    name = name;
    digest = digest_bytes hexdigest bytes;
    size = length bytes;
    media_type = media_type;
  }

  pub descriptors-publish_artifacts :
      (l : List Entry) (s : MemoryStore) → (publish_artifacts hexdigest l s).0 ≡ map describe l
  unfolding publish_artifacts put_blob
  descriptors-publish_artifacts [] s = refl
  descriptors-publish_artifacts ((name, (bytes, media_type)) ∷ l) s =
      ap (◌∷◌ (describe (name, (bytes, media_type)))) (
        descriptors-publish_artifacts l
          (record s { blobs = insert (digest_bytes hexdigest bytes) bytes s.blobs }))

  -- Publication of the artifacts changes the blobs alone.
  pub publish_artifacts_frame :
      (l : List Entry) (s : MemoryStore)
      → (publish_artifacts hexdigest l s).1
        ≡ record s { blobs = (publish_artifacts hexdigest l s).1.blobs }
  unfolding publish_artifacts put_blob
  publish_artifacts_frame [] s = refl
  publish_artifacts_frame ((name, (bytes, media_type)) ∷ l) s =
      publish_artifacts_frame l
        (record s { blobs = insert (digest_bytes hexdigest bytes) bytes s.blobs })

  -- The bytes of two entries with one digest are the same.
  abbrev pub Agrees : Entry → Entry → Type 0
  Agrees a b =
      digest_bytes hexdigest (payload a) ≡ digest_bytes hexdigest (payload b)
      → payload a ≡ payload b

  abbrev IsHeld : Dict Bytes → Entry → Type 0
  IsHeld blobs e = lookup (digest_bytes hexdigest (payload e)) blobs ≡ some (payload e)

  stays-IsHeld :
      (e : Entry) (l : List Entry) (s : MemoryStore)
      → All (λ a. Agrees a e) l
      → IsHeld s.blobs e
      → IsHeld (publish_artifacts hexdigest l s).1.blobs e
  unfolding publish_artifacts put_blob
  stays-IsHeld e [] s agree held = held
  stays-IsHeld e ((name, (bytes, media_type)) ∷ l) s agree held =
      stays-IsHeld e l (record s { blobs = insert (digest_bytes hexdigest bytes) bytes s.blobs })
        agree.1
        (ground (
          arith,
          lookup-insert (digest_bytes hexdigest bytes) (digest_bytes hexdigest (payload e)) bytes
              s.blobs,
          eq_iff (digest_bytes hexdigest bytes) (digest_bytes hexdigest (payload e)),
          agree.0,
        ))

  pub published-IsHeld :
      (l : List Entry) (s : MemoryStore)
      → All (λ e. All (λ a. Agrees a e) l) l
      → All (IsHeld (publish_artifacts hexdigest l s).1.blobs) l
  unfolding publish_artifacts put_blob
  published-IsHeld [] s agree = tt
  published-IsHeld ((name, (bytes, media_type)) ∷ l) s agree =
      let e : Entry = (name, (bytes, media_type)) in
      let s1 = record s { blobs = insert (digest_bytes hexdigest bytes) bytes s.blobs } in
      (
        stays-IsHeld e l s1 agree.0.1
            (simp (lookup-insert, eq_refl (digest_bytes hexdigest bytes))),
        published-IsHeld l s1 (
            All-map (λ x. All (λ a. Agrees a x) (e ∷ l)) (λ x. All (λ a. Agrees a x) l) l
              (λ x h. h.1) agree.1),
      )

-- The newest result for an action is the first candidate.
pub reverse-append_at {ℓ} :
    {V : Type ℓ} (k : String) (m : V) (d : Dict (List V))
    → reverse (listed_at k (append_at k m d)) ≡ m ∷ reverse (listed_at k d)
unfolding append_at listed_at
reverse-append_at k m d = simp (lookup-insert, eq_refl k) (reverse-append (listed_at k d) (m ∷ []))
