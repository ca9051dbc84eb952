-- ===== src/Store/Memory.antt =====
-- `MemoryStore` of src/oncemesh/store.py. A method takes the store and returns the new one beside
-- its result. The lock makes each method one step, and what `deepcopy` protects cannot change here.
use once_mesh.Base.{false, String, List, [], ◌∷◌, ◌++◌, Option, some, reverse}
use once_mesh.Base.Dict.{Dict, lookup, insert, get_or}
use once_mesh.Base.Result.{Result, ok, ◌>>=◌, ◌>>◌}
use once_mesh.Canonical.Action.{Hexdigest, digest_bytes}
use once_mesh.Receipt.{Receipt, check_receipt}
use once_mesh.Records.{
  Manifest, SourceValidation, Invalidation, check_manifest, check_validation, check_invalidation,
  digest_of,
}
use once_mesh.Store.{Store, Bytes}

pub record MemoryStore : Type 0 where
  pub name : String
  pub blobs : Dict Bytes
  pub results : Dict (List Manifest)
  pub results_by_digest : Dict Manifest
  pub validations : Dict (List SourceValidation)
  pub invalidations : Dict (List Invalidation)
  pub receipts : Dict (List Receipt)

-- `MemoryStore(name)`
abbrev pub empty : String → MemoryStore
empty name = record {
  name = name;
  blobs = [];
  results = [];
  results_by_digest = [];
  validations = [];
  invalidations = [];
  receipts = [];
}

module _ {ℓ} {V : Type ℓ} where
  -- `d.get(k, [])`
  unfoldable pub listed_at : String → Dict (List V) → List V
  listed_at k d = get_or [] (lookup k d)

  -- `d[k].append(v)`, for a `defaultdict(list)`
  unfoldable pub append_at : String → V → Dict (List V) → Dict (List V)
  unfolding listed_at
  append_at k v d = insert k (listed_at k d ++ v ∷ []) d

module _ (hexdigest : Hexdigest) where
  unfoldable pub put_blob : Bytes → MemoryStore → String × MemoryStore
  put_blob payload s =
      let digest = digest_bytes hexdigest payload in
      (digest, record s { blobs = insert digest payload s.blobs })

  unfoldable pub put_result : Manifest → MemoryStore → Result MemoryStore
  unfolding append_at
  put_result m s = do
    check_manifest m
    digest ← digest_of hexdigest m
    ok (record s {
      results_by_digest = insert digest m s.results_by_digest;
      results = append_at m.action_digest m s.results;
    })

unfoldable pub put_validation : SourceValidation → MemoryStore → Result MemoryStore
unfolding append_at
put_validation v s = do
  check_validation v
  ok (record s { validations = append_at v.result_digest v s.validations })

unfoldable pub put_invalidation : Invalidation → MemoryStore → Result MemoryStore
unfolding append_at
put_invalidation r s = do
  check_invalidation r
  ok (record s { invalidations = append_at r.result_digest r s.invalidations })

unfoldable pub put_receipt : Receipt → MemoryStore → Result MemoryStore
unfolding append_at
put_receipt r s = do
  check_receipt false r
  ok (record s { receipts = append_at r.result_digest r s.receipts })

-- The reading methods; the newest record stands first.
unfoldable pub get_blob : MemoryStore → String → Option Bytes
get_blob s digest = lookup digest s.blobs

unfoldable pub candidates : MemoryStore → String → List Manifest
unfolding listed_at
candidates s action_digest = reverse (listed_at action_digest s.results)

unfoldable pub result : MemoryStore → String → Option Manifest
result s digest = lookup digest s.results_by_digest

unfoldable pub validations : MemoryStore → String → List SourceValidation
unfolding listed_at
validations s digest = reverse (listed_at digest s.validations)

unfoldable pub invalidations : MemoryStore → String → List Invalidation
unfolding listed_at
invalidations s digest = reverse (listed_at digest s.invalidations)

unfoldable pub receipts : MemoryStore → String → List Receipt
unfolding listed_at
receipts s digest = reverse (listed_at digest s.receipts)

-- The store as a lookup reads it.
unfoldable pub as_store : MemoryStore → Store
unfolding get_blob candidates result validations invalidations receipts
as_store s = record {
  name = s.name;
  get_blob = λ digest. ok (get_blob s digest);
  candidates = λ digest. ok (candidates s digest);
  result = some (λ digest. ok (result s digest));
  validations = λ digest. ok (validations s digest);
  invalidations = some (λ digest. ok (invalidations s digest));
  receipts = λ digest. ok (receipts s digest);
}
