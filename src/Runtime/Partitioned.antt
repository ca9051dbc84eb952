-- ===== src/Runtime/Partitioned.antt =====
-- The partitions of src/oncemesh/authorization.py in `_authorization_failure` of src/oncemesh/runtime.py.
use Prim.Native.Char.{code}
use Prim.Native.String.append
use text.Mathlib.TextPositions.{starts_with-append}
use once_mesh.Base.{
  ◌++◌, ◌∷◌, leb, nat_eq, all_distinct, ℕ, ◌≡◌, ◌≢◌, refl, sym, ap, ◌∙◌, subst, inl, inr, String,
  true, false, ◌&&◌, List, Option, none, some, ◌==◌, eq_iff, eq_refl, codes, length, all,
  str_append, Bool-cases, ◌↔◌,
}
use once_mesh.Base.Result.{ok, require, >>=-eq-ok, ok-injective}
use once_mesh.Json.{Value, str}
use once_mesh.Canonical.Encode.{canonical_json}
use once_mesh.Canonical.Checks.{is_prefixed_hex, is_lower_hex, is_nonempty}
use once_mesh.Policy.{OperationPolicy}
use once_mesh.Authorization.{
  Hmac, is_partition, validate_authorization_partition, derive_authorization_partition,
  authorization_partitions_match, partition_domain, is_some_scope, is_subject, claims_of, sorted,
}
use once_mesh.Runtime.Decision.{
  action_partition, match_failure, partition_failure, authorization_failure,
}

-- A text that HMAC-SHA-256 returns: 64 lower-case hexadecimal digits.
abbrev pub IsHex : String → Type 0
IsHex text = (nat_eq (length (codes text)) 64 && all is_lower_hex (codes text)) ≡ true

codes-str_append : (s t : String) → codes (str_append s t) ≡ codes s ++ codes t
codes-str_append String.[] t = ap codes (append.nil t)
codes-str_append (String.◌∷◌ c s) t =
    ap codes (append.cons c s t) ∙ ap (λ cs. code c ∷ cs) (codes-str_append s t)

is_partition-str_append :
    (text : String) → IsHex text → is_partition (str_append "hmac-sha256:" text) ≡ true
unfolding is_partition is_prefixed_hex is_lower_hex
is_partition-str_append text h =
    rw (starts_with-append "hmac-sha256:" text, codes-str_append "hmac-sha256:" text) h

-- What `derive_authorization_partition` returns is a partition token.
derived-IsPartition :
    (hmac : Hmac) (tenant : String) (scopes : List String) (key : List ℕ) (subject : Option String)
    (token : String)
    → ((message : List ℕ) → IsHex (hmac key message))
    → derive_authorization_partition hmac tenant scopes key subject ≡ ok token
    → is_partition token ≡ true
unfolding derive_authorization_partition
derived-IsPartition hmac tenant scopes key subject token hex h =
    let (_, _, h1) = >>=-eq-ok (require (is_nonempty tenant) _) _ h in
    let (_, _, h2) = >>=-eq-ok (require (is_some_scope scopes) _) _ h1 in
    let (_, _, h3) = >>=-eq-ok (require (all_distinct scopes) _) _ h2 in
    let (_, _, h4) = >>=-eq-ok (require (is_subject subject) _) _ h3 in
    let (_, _, h5) = >>=-eq-ok (require (leb 32 (length key)) _) _ h4 in
    let (claims, _, last) =
      >>=-eq-ok (canonical_json (claims_of tenant (sorted scopes) subject)) _ h5 in
    subst (λ t. is_partition t ≡ true) (ok-injective last)
      (is_partition-str_append (hmac key (partition_domain ++ claims))
        (hex (partition_domain ++ claims)))

match_failure-eq-none :
    (token caller : String) → match_failure (str token) (some caller) ≡ ok none → caller ≡ token
unfolding match_failure authorization_partitions_match validate_authorization_partition
match_failure-eq-none token caller h = elim (Bool-cases (is_partition token)) [
  | inr bad ↦ cc (rw bad at h)
  | inl good ↦ elim (Bool-cases (is_partition caller)) [
    | inr bad ↦ cc (rw (good, bad) at h)
    | inl fine ↦ elim (Bool-cases (token == caller)) [
      | inl same ↦ sym ((eq_iff token caller).0 same)
      | inr differs ↦ cc (rw (good, fine, differs) at h)
    ]
  ]
]

match_failure_refl :
    (token : String) → is_partition token ≡ true → match_failure (str token) (some token) ≡ ok none
unfolding match_failure authorization_partitions_match validate_authorization_partition
match_failure_refl token good = rw (good, eq_refl token) refl

-- Under a policy whose partition is not "public", an action under a token that
-- `derive_authorization_partition` returned passes the check exactly for a caller with the same token,
-- where the digits of HMAC-SHA-256 are 64 lower-case hexadecimal ones.
pub authorization_failure-derived :
    (hmac : Hmac) (tenant : String) (scopes : List String) (key : List ℕ) (subject : Option String)
    (token : String) (action : Value) (policy : OperationPolicy) (caller : String)
    → ((message : List ℕ) → IsHex (hmac key message))
    → derive_authorization_partition hmac tenant scopes key subject ≡ ok token
    → policy.authorization_partition ≢ "public"
    → action_partition action ≡ ok (str token)
    → (authorization_failure action policy (some caller) ≡ ok none) ↔ (caller ≡ token)
unfolding authorization_failure partition_failure validate_authorization_partition
authorization_failure-derived hmac tenant scopes key subject token action policy caller hex derived
      private_partition partitioned =
    let good = derived-IsPartition hmac tenant scopes key subject token hex derived in
    let closed : (policy.authorization_partition == "public") ≡ false =
      elim (Bool-cases (policy.authorization_partition == "public")) [
        | inl same ↦
            absurd (private_partition ((eq_iff policy.authorization_partition "public").0 same))
        | inr closed ↦ closed
      ] in
    (
      (λ h. match_failure-eq-none token caller (rw (partitioned, closed, good) at h)),
      (λ same.
          rw (partitioned, closed, good)
            (subst (λ c. match_failure (str token) (some c) ≡ ok none) (sym same)
              (match_failure_refl token good))),
    )
