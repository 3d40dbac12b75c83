-- ===== src/Proxy/Headers.antt =====
-- src/proxy.rs: the headers of a request that go upstream, and those of a response that go back.
-- Names are in lower case, as `http` keeps them.
pub mod Kept
use ctxward.Prelude.{
  Bool, true, false, not, ◌||◌, Option, none, some, List, [], ◌∷◌, ◌++◌, Text, bytes, contains,
  text_eq, eq_text, if◌then◌else◌,
}
use ctxward.Prelude.Ascii.{to_lowercase}
use ctxward.Prelude.Table
use ctxward.Prelude.Table.{Table}

abbrev pub HeaderMap : Type 0
HeaderMap = List (Text × Text)

abbrev pub hop_by_hop_headers : List Text
hop_by_hop_headers =
    bytes "connection"
    ∷ bytes "keep-alive"
    ∷ bytes "proxy-authenticate"
    ∷ bytes "proxy-authorization"
    ∷ bytes "te"
    ∷ bytes "trailers"
    ∷ bytes "transfer-encoding"
    ∷ bytes "upgrade"
    ∷ []

abbrev pub body_size_headers : List Text
body_size_headers = bytes "content-length" ∷ []

pub is_forwarded : List Text → Text → Bool
is_forwarded allowlist name =
    if contains hop_by_hop_headers name || not (contains allowlist name) then false else true

-- `forwarded.insert`, where the value is visible ASCII, which `to_str` tells.
abbrev pub insert_visible : Text → Option Text → Table Text Text → Table Text Text
insert_visible name none forwarded = forwarded
insert_visible name (some value) forwarded = Table.insert name value forwarded

-- The loop of `attach_forward_headers`.
pub collect_forwarded :
    (Text → Option Text) → List Text → HeaderMap → Table Text Text → Table Text Text
unfolding is_forwarded
collect_forwarded to_str allowlist [] forwarded = forwarded
collect_forwarded to_str allowlist ((name, value) ∷ headers) forwarded =
    collect_forwarded to_str allowlist headers (
      if is_forwarded allowlist (to_lowercase name)
      then insert_visible (to_lowercase name) (to_str value) forwarded
      else forwarded)

-- The headers that `attach_forward_headers` adds.
pub attach_forward_headers : (Text → Option Text) → List Text → Text → HeaderMap → Table Text Text
unfolding collect_forwarded
attach_forward_headers to_str allowlist request_id headers =
    Table.insert (bytes "x-request-id") request_id (collect_forwarded to_str allowlist headers [])

-- `forward_headers`, `auth_header` and `auth_value_env` of the upstream's configuration
pub record UpstreamHeaders : Type 0 where
  pub forward_headers : List Text
  pub auth_header : Option Text
  pub auth_value_env : Option Text

abbrev pub secret_header : Text → Option Text → HeaderMap
secret_header name none = []
secret_header name (some secret) = (to_lowercase name, secret) ∷ []

-- The gateway's own credentials, if a header and a variable are named and the variable is set.
abbrev pub auth_headers : (Text → Option Text) → Option Text → Option Text → HeaderMap
auth_headers env none variable = []
auth_headers env (some name) none = []
auth_headers env (some name) (some variable) = secret_header name (env variable)

-- All the headers of the request that goes upstream; `header` of reqwest appends.
unfoldable pub upstream_headers :
    (Text → Option Text) → (Text → Option Text) → UpstreamHeaders → Text → HeaderMap → HeaderMap
unfolding attach_forward_headers
upstream_headers to_str env u request_id headers =
    attach_forward_headers to_str u.forward_headers request_id headers
    ++ auth_headers env u.auth_header u.auth_value_env

pub is_dropped : Text → Bool
is_dropped name = contains hop_by_hop_headers name || contains body_size_headers name

-- `copy_response_headers`: `insert` replaces all the values of a name.
pub copy_response_headers : HeaderMap → Table Text Text → Table Text Text
unfolding is_dropped
copy_response_headers [] target = target
copy_response_headers ((name, value) ∷ source) target =
    copy_response_headers source
      (if is_dropped name then target else Table.insert name value target)
