-- ===== src/ExecutionCache.antt =====
-- src/oncemesh/execution_cache.py: the keys, the values and their envelopes, and the epochs of
-- `MemoryEpochRegistry`. `bytes.decode("utf-8")` is a parameter, which is none where it raises.
pub mod Envelope
pub mod Bridge
pub mod Retired
pub mod Counted
use once_mesh.Base.{
  ℕ, zero, suc, ◌+◌, ◌*◌, ◌/◌, ◌%◌, String, Bool, true, false, not, ◌&&◌, ◌||◌, List, [], ◌∷◌, ◌++◌,
  Option, none, some, ◌==◌, all, any, codes, length, take, drop, leb, ltb, nat_eq, if◌then◌else◌,
}
use once_mesh.Base.Result.{Result, ok, raise, value_error, require, ◌>>=◌, ◌>>◌}
use once_mesh.Canonical.Encode.{encode_utf8, is_surrogate}
use once_mesh.Canonical.Checks.{is_nonempty}
use once_mesh.Store.{Bytes}
use once_mesh.Index.Entries.{Namespace, same_namespace}

-- `VALUE_MEDIA_TYPE` and `MAX_TYPE_TAG_BYTES`
abbrev pub value_media_type : String
value_media_type = "application/vnd.oncemesh.execution-cache-value-v1"

abbrev pub max_type_tag_bytes : ℕ
max_type_tag_bytes = 1024

pub record ExecutionCacheKey : Type 0 where
  pub namespace : Namespace
  pub key : String

pub record EncodedExecutionValue : Type 0 where
  pub type_tag : String
  pub payload : Bytes

-- `_validate_namespace`
unfoldable pub validate_namespace : Namespace → Result (Unit {0})
validate_namespace namespace =
    require (all is_nonempty namespace) "namespace must be a tuple of non-empty strings"

-- `ExecutionCacheKey.__post_init__`
unfoldable pub validate_cache_key : ExecutionCacheKey → Result (Unit {0})
unfolding validate_namespace
validate_cache_key k = do
  validate_namespace k.namespace
  require (is_nonempty k.key) "key must be a non-empty string"

-- `_validate_type_tag`; the encoding raises a ValueError for a surrogate.
unfoldable pub validate_type_tag : String → Result Bytes
validate_type_tag type_tag = do
  require (is_nonempty type_tag) "type tag must be a non-empty string"
  require (not (any is_surrogate (codes type_tag))) "surrogates not allowed"
  let encoded = encode_utf8 (codes type_tag)
  require (leb (length encoded) max_type_tag_bytes && not (any (nat_eq 0) (codes type_tag)))
      "type tag is invalid"
  ok encoded

-- `n.to_bytes(4, "big")`, of a number below 2 ^ 32
unfoldable pub size_bytes : ℕ → Bytes
size_bytes n = n / 16777216 ∷ n / 65536 % 256 ∷ n / 256 % 256 ∷ n % 256 ∷ []

-- `int.from_bytes(data[:4], "big")`
unfoldable pub size_of : Bytes → ℕ
size_of (a ∷ b ∷ c ∷ d ∷ rest) = a * 16777216 + b * 65536 + c * 256 + d
size_of _ = 0

unfoldable pub pack_execution_value : EncodedExecutionValue → Result Bytes
unfolding validate_type_tag size_bytes
pack_execution_value value = do
  tag ← validate_type_tag value.type_tag
  ok (size_bytes (length tag) ++ tag ++ value.payload)

abbrev pub decoded_tag : Option String → Result String
decoded_tag none = raise (value_error "execution cache value type tag is not UTF-8")
decoded_tag (some tag) = ok tag

-- `unpack_execution_value`, the check of the value's constructor included
unfoldable pub unpack_execution_value :
    (Bytes → Option String) → Bytes → Result EncodedExecutionValue
unfolding size_of validate_type_tag
unpack_execution_value decode envelope = do
  require (leb 5 (length envelope)) "execution cache value envelope is truncated"
  let tag_size = size_of envelope
  require
      (leb 1 tag_size && leb tag_size max_type_tag_bytes && leb (4 + tag_size) (length envelope))
      "execution cache value envelope has an invalid type tag length"
  tag ← decoded_tag (decode (take tag_size (drop 4 envelope)))
  checked ← validate_type_tag tag
  ok (record { type_tag = tag; payload = drop (4 + tag_size) envelope })

-- `MemoryEpochRegistry`; a namespace that is not in the dict has epoch 0.
pub record MemoryEpochRegistry : Type 0 where
  pub global_epoch : ℕ
  pub namespaces : List (Namespace × ℕ)

abbrev pub no_epochs : MemoryEpochRegistry
no_epochs = record { global_epoch = 0; namespaces = [] }

unfoldable pub epoch_in : Namespace → List (Namespace × ℕ) → ℕ
unfolding same_namespace
epoch_in namespace [] = 0
epoch_in namespace ((n, epoch) ∷ rest) =
    if same_namespace n namespace then epoch else epoch_in namespace rest

-- `self._namespaces[namespace] = self._namespaces.get(namespace, 0) + 1`
unfoldable pub advance_in : Namespace → List (Namespace × ℕ) → List (Namespace × ℕ)
unfolding same_namespace
advance_in namespace [] = (namespace, 1) ∷ []
advance_in namespace ((n, epoch) ∷ rest) =
    let others = advance_in namespace rest in
    if same_namespace n namespace then (n, epoch + 1) ∷ rest else (n, epoch) ∷ others

unfoldable pub epochs : Namespace → MemoryEpochRegistry → ℕ × ℕ
unfolding epoch_in
epochs namespace r = (r.global_epoch, epoch_in namespace r.namespaces)

unfoldable pub rotate_all : MemoryEpochRegistry → MemoryEpochRegistry
rotate_all r = record r { global_epoch = r.global_epoch + 1 }

-- The rest of the loop, unless the check has raised.
abbrev pub unless_raised :
    MemoryEpochRegistry
    → Result (Unit {0}) × MemoryEpochRegistry
    → Result (Unit {0})
    → Result (Unit {0}) × MemoryEpochRegistry
unless_raised r next (raise e) = (raise e, r)
unless_raised r next (ok done) = next

-- The loop raises at a bad namespace, and what it has advanced by then stays.
unfoldable pub rotate_namespaces :
    List Namespace → MemoryEpochRegistry → Result (Unit {0}) × MemoryEpochRegistry
unfolding validate_namespace advance_in
rotate_namespaces [] r = (ok tt, r)
rotate_namespaces (namespace ∷ rest) r =
    unless_raised r
      (rotate_namespaces rest (record r { namespaces = advance_in namespace r.namespaces }))
      (validate_namespace namespace)
