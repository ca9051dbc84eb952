-- ===== src/Http.antt =====
-- src/oncemesh/adapters/http_fetch.py: the http.fetch/v1 action profile. The functions of Python that it
-- calls on URLs, on the case of texts and on floats are parameters, and so is the network.
use once_mesh.Base.{
  ℕ, String, Bool, true, false, not, ◌||◌, ◌&&◌, [], ◌∷◌, Option, none, some, ◌==◌, any, codes,
  length, ltb, nat_eq, str_append, is_some, if◌then◌else◌,
}
use once_mesh.Base.Dict.{Dict, lookup, insert, get_or}
use once_mesh.Base.Result.{Result, ok, raise, value_error, type_error, require, ◌>>=◌, ◌>>◌}
use once_mesh.Base64.{text_from}
use once_mesh.Json.{Value, bool, int, float, str, obj, Fields, end, field, pos, negsuc, find, item}
use once_mesh.Canonical.Encode.{dump_int, canonical_json}
use once_mesh.Canonical.Checks.{has_keys, is_nonempty}
use once_mesh.Canonical.Action.{has_text}
use once_mesh.Records.{or_null}
use once_mesh.Store.{Bytes, catch_value}
use once_mesh.Cache.Publish.{Artifacts}

pub record FetchResponse : Type 0 where
  pub status : ℕ
  pub final_url : String
  pub headers : Dict String
  pub body : Bytes

-- What `urlsplit` returns; reading the port may raise.
pub record SplitUrl : Type 0 where
  pub scheme : String
  pub hostname : Option String
  pub username : Option String
  pub password : Option String
  pub port : Result (Option ℕ)
  pub path : String
  pub query : String

-- `urlsplit`, `urlunsplit`, `encode("idna").decode("ascii")`, `str.lower`, and whether a float is less
-- than a natural number.
pub record Python : Type 0 where
  pub urlsplit : String → Result SplitUrl
  pub urlunsplit : String → String → String → String → String → String
  pub to_idna : String → Result String
  pub lower : String → String
  pub is_float_below : ℕ → ℕ → Bool

-- `SafeHTTPTransport`: a request, and a conditional one.
pub record Transport : Type 0 where
  pub fetch : Value → Value → Value → Value → Result FetchResponse
  pub conditional_get : Value → Value → Value → Value → Value → Value → Result FetchResponse

abbrev pub is_host : Option String → Bool
is_host none = false
is_host (some host) = is_nonempty host

-- `not parsed.hostname or parsed.username is not None or parsed.password is not None`
unfoldable pub is_authority : SplitUrl → Bool
is_authority parsed =
    not (not (is_host parsed.hostname) || is_some parsed.username || is_some parsed.password)

-- `":" in host`
unfoldable pub is_numeric_host : String → Bool
is_numeric_host host = any (nat_eq 58) (codes host)

-- `str(n)`
abbrev pub decimal : ℕ → String
decimal n = text_from (dump_int (pos n))

abbrev pub bracketed : String → String
bracketed host = if is_numeric_host host then str_append "[" (str_append host "]") else host

-- `host if port in (None, 443) else f"{host}:{port}"`
unfoldable pub netloc_of : String → Option ℕ → String
unfolding dump_int text_from
netloc_of host none = host
netloc_of host (some port) =
    if nat_eq port 443 then host else str_append host (str_append ":" (decimal port))

-- `parsed.path or "/"`
abbrev pub or_root : String → String
or_root path = if is_nonempty path then path else "/"

abbrev pub has_text_at : Fields → String → String → Bool
has_text_at fs key text = elim (find key fs) [ none ↦ false | some v ↦ has_text v text ]

-- Whether the operation of the fields is `{"name": "http.fetch", "version": "1"}`.
abbrev pub is_http_fetch : Option Value → Bool
is_http_fetch (some (obj fs)) =
    has_keys (obj fs) ("name" ∷ "version" ∷ [])
    && has_text_at fs "name" "http.fetch"
    && has_text_at fs "version" "1"
is_http_fetch _ = false

-- `if action.get("operation") != …: raise …`; only a dict has `get`.
unfoldable pub require_http_fetch : Value → String → Result (Unit {0})
require_http_fetch (obj fs) message = require (is_http_fetch (find "operation" fs)) message
require_http_fetch _ message = raise (type_error "object has no attribute 'get'")

module _ (python : Python) where
  abbrev pub ascii_host : Option String → Result String
  ascii_host none = python.to_idna ""
  ascii_host (some host) = python.to_idna host

  unfoldable pub normalize_https_url : String → Result String
  unfolding is_authority is_numeric_host netloc_of
  normalize_https_url url = do
    parsed ← python.urlsplit url
    require (python.lower parsed.scheme == "https") "http.fetch/v1 permits HTTPS URLs only"
    require (is_authority parsed) "URL must contain a host and no user information"
    port ← catch_value parsed.port (raise (value_error "URL port is invalid")) (λ port. ok port)
    encoded ← ascii_host parsed.hostname
    ok (
        python.urlunsplit "https" (netloc_of (bracketed (python.lower encoded)) port)
          (or_root parsed.path) parsed.query "")

  -- An integer that is positive and is no Boolean.
  abbrev pub is_positive_integer : Value → Bool
  is_positive_integer (int (pos n)) = not (nat_eq n 0)
  is_positive_integer _ = false

  unfoldable pub build_http_fetch_action :
      String → String → Value → Value → Option Fields → Result Value
  unfolding normalize_https_url
  build_http_fetch_action url accept follow_redirects max_bytes vary = do
    require (is_nonempty accept) "accept must not be empty"
    require (is_positive_integer max_bytes) "max_bytes must be a positive integer"
    normalized ← normalize_https_url url
    ok (
        obj (
          field "spec_version" (str "oncemesh.action/v0") (
            field "operation"
              (obj (field "name" (str "http.fetch") (field "version" (str "1") end)))
              (field "inputs"
                (obj (
                  field "url" (str normalized)
                    (field "method" (str "GET") (field "accept" (str accept) end))))
                (field "executor"
                  (obj (
                    field "name" (str "oncemesh.http") (
                      field "version" (str "1") (
                        field "config"
                          (obj (
                            field "follow_redirects" follow_redirects
                              (field "max_bytes" max_bytes end)))
                          end))))
                  (field "output_schema" (str "oncemesh.http/response-v1")
                    (field "vary" (obj (elim vary [ none ↦ end | some fs ↦ fs ])) end)))))))

  -- `len(body) > config["max_bytes"]`; only numbers are ordered with a number.
  unfoldable pub is_longer_than : ℕ → Value → Result Bool
  is_longer_than size (int (pos limit)) = ok (ltb limit size)
  is_longer_than size (int (negsuc n)) = ok true
  is_longer_than size (bool true) = ok (ltb 1 size)
  is_longer_than size (bool false) = ok (ltb 0 size)
  is_longer_than size (float bits) = ok (python.is_float_below bits size)
  is_longer_than size _ = raise (type_error "'>' not supported")

  -- `{key.lower(): value for key, value in …}`, after those in the dict
  unfoldable pub lower_keys : Dict String → Dict String → Dict String
  unfolding insert
  lower_keys d [] = d
  lower_keys d ((key, value) ∷ rest) = lower_keys (insert (python.lower key) value d) rest

  abbrev pub metadata_of : FetchResponse → Dict String → String → Value
  metadata_of response headers final_url = obj (
      field "status" (int (pos response.status)) (
        field "final_url" (str final_url) (
          field "etag" (or_null (lookup "etag" headers)) (
            field "last_modified" (or_null (lookup "last-modified" headers))
              (field "content_type" (or_null (lookup "content-type" headers)) end)))))

  unfoldable pub response_to_artifacts : Value → FetchResponse → Result Artifacts
  unfolding require_http_fetch is_longer_than normalize_https_url lower_keys lookup
  response_to_artifacts action response = do
    require_http_fetch action "action is not an http.fetch/v1 action"
    executor ← item action "executor"
    config ← item executor "config"
    require (nat_eq response.status 200) "http.fetch/v1 caches only status 200"
    max_bytes ← item config "max_bytes"
    is_long ← is_longer_than (length response.body) max_bytes
    require (not is_long) "response exceeds max_bytes"
    let headers = lower_keys [] response.headers
    final_url ← normalize_https_url response.final_url
    metadata ← canonical_json (metadata_of response headers final_url)
    ok (
        ("body", (response.body, get_or "application/octet-stream" (lookup "content-type" headers)))
        ∷ ("metadata", (metadata, "application/json"))
        ∷ [])

  unfoldable pub execute_http_fetch : Transport → Value → Result Artifacts
  unfolding require_http_fetch response_to_artifacts
  execute_http_fetch transport action = do
    require_http_fetch action "action is not an http.fetch/v1 action"
    inputs ← item action "inputs"
    executor ← item action "executor"
    config ← item executor "config"
    url ← item inputs "url"
    accept ← item inputs "accept"
    follow_redirects ← item config "follow_redirects"
    max_bytes ← item config "max_bytes"
    response ← transport.fetch url accept follow_redirects max_bytes
    response_to_artifacts action response
