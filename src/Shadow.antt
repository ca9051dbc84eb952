-- ===== src/Shadow.antt =====
-- `candidate_matches` of src/oncemesh/shadow.py.
use once_mesh.Base.{
  String, Bool, true, false, not, ◌&&◌, ◌||◌, List, [], ◌∷◌, Option, none, some, ◌==◌, same_codes,
  if◌then◌else◌,
}
use once_mesh.Base.Dict.{Dict, lookup, insert}
use once_mesh.Canonical.Checks.{same_keys}
use once_mesh.Records.{Descriptor, Manifest}
use once_mesh.Store.{Bytes}
use once_mesh.Cache.Publish.{Artifacts}
use once_mesh.Cache.Lookup.{LookupOutcome}

-- `{descriptor["name"]: descriptor["media_type"] for descriptor in …}`, after those in the dict.
unfoldable pub media_types : Dict String → List Descriptor → Dict String
unfolding insert
media_types d [] = d
media_types d (x ∷ xs) = media_types (insert x.name x.media_type d) xs

abbrev pub keys_of {ℓ} : {V : Type ℓ} → Dict V → List String
keys_of [] = []
keys_of ((k, v) ∷ d) = k ∷ keys_of d

abbrev pub is_bytes : Option Bytes → Bytes → Bool
is_bytes none b = false
is_bytes (some a) b = same_codes b a

abbrev pub is_media_type : Option String → String → Bool
is_media_type none t = false
is_media_type (some s) t = t == s

-- `all(… for name in actual)`; the names are keys of both dicts by then.
unfoldable pub entries_match : Dict Bytes → Dict String → Artifacts → Bool
unfolding lookup
entries_match found descriptors [] = true
entries_match found descriptors ((name, (bytes, media_type)) ∷ rest) =
    is_bytes (lookup name found) bytes
    && is_media_type (lookup name descriptors) media_type
    && entries_match found descriptors rest

-- What follows the test of the hit.
unfoldable pub matches_manifest : Artifacts → Dict Bytes → Dict String → Bool
unfolding entries_match
matches_manifest actual found descriptors =
    if not (same_keys (keys_of actual) (keys_of found))
      || not (same_keys (keys_of actual) (keys_of descriptors))
    then false
    else entries_match found descriptors actual

abbrev pub matches_hit : Artifacts → LookupOutcome → Bool → Option Manifest → Option Bool
matches_hit actual lookup true (some m) =
    some (matches_manifest actual lookup.artifacts (media_types [] m.artifacts))
matches_hit actual lookup true none = none
matches_hit actual lookup false m = none

unfoldable pub candidate_matches : Artifacts → LookupOutcome → Option Bool
unfolding matches_manifest media_types
candidate_matches actual lookup = matches_hit actual lookup lookup.hit lookup.manifest
