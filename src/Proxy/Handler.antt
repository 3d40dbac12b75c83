-- ===== src/Proxy/Handler.antt =====
-- src/proxy.rs: a request from its arrival to its answer, errors included. Headers are found by their
-- names in lower case.
pub mod Faults
use ctxward.Prelude.{
  ℕ, Bool, true, false, Option, none, some, [], ◌∷◌, ◌++◌, Text, bytes, eq_text, eqb, if◌then◌else◌,
}
use ctxward.Prelude.Ascii.{to_lowercase}
use ctxward.Prelude.Table
use ctxward.Core.Auth.{Principal, Authenticator, AuthError, AuthResult, authenticate}
use ctxward.Core.Auth
use ctxward.Core.Types.{DecisionAction, request}
use ctxward.Core.Session.{SessionConfig}
use ctxward.Review.Tickets.{ReviewStoreError}
use ctxward.Audit.{AuditRecord}
use ctxward.Audit
use ctxward.App.Engines.{Engines}
use ctxward.App.Errors.{
  AppError, config, auth, detector, opa, presidio, tokenization, review_store, attachment,
  invalid_upstream_url, build_client, metrics, audit_init, runtime_io, bind, serve,
  proxy_config_missing, proxy_listen_addr, ca, proxy, Outcome, ok, err, panicked, ◌>>=◌,
}
use ctxward.Attachments.Errors.{CrateResult, done, failed}
use ctxward.Attachments.Request.{AttachmentConfig}
use ctxward.Proxy.Headers.{HeaderMap, UpstreamHeaders, upstream_headers}
use ctxward.Proxy.Response.{ProcessedPayload}
use ctxward.Proxy.Payload.{PayloadCrates, process_payload}
use ctxward.Proxy.Decide.{ProxyRequest, Gateway, ProxyRuntime}
use ctxward.Proxy.Request.{
  ProxyResult, forwarded, review_required, refused, opa_failed, review_store_failed, handle_proxy,
}

-- A request as it arrives; `read` is what the reading of its body up to the limit gives.
pub record ClientRequest : Type 0 where
  pub request_id : Text
  pub method : Text
  pub path_and_query : Text
  pub headers : HeaderMap
  pub read : CrateResult Text

pub record UpstreamRequest : Type 0 where
  pub method : Text
  pub url : Text
  pub headers : HeaderMap
  pub body : Text

-- What the client gets, or the request that goes upstream.
pub data Answer : Type 0 where
  upstream : UpstreamRequest → Answer
  ticket : ℕ → Text → Text → DecisionAction → Answer
  blocked : ℕ → Text → Answer
  unauthorized : AuthError → Answer
  upstream_error : AppError → Answer
  handler_panicked : Answer

pub proxy_error_kind : AppError → Text
proxy_error_kind (attachment e) = bytes "attachment"
proxy_error_kind (presidio e) = bytes "presidio"
proxy_error_kind (opa e) = bytes "opa"
proxy_error_kind (tokenization e) = bytes "tokenization"
proxy_error_kind (detector e) = bytes "detector"
proxy_error_kind (runtime_io e) = bytes "runtime_io"
proxy_error_kind (invalid_upstream_url e) = bytes "upstream_url"
proxy_error_kind (auth e) = bytes "auth"
proxy_error_kind (review_store e) = bytes "review_store"
proxy_error_kind (config e) = bytes "config"
proxy_error_kind (build_client e) = bytes "build_client"
proxy_error_kind (metrics e) = bytes "metrics"
proxy_error_kind (audit_init e) = bytes "audit"
proxy_error_kind (bind e) = bytes "bind"
proxy_error_kind (serve e) = bytes "serve"
proxy_error_kind proxy_config_missing = bytes "proxy_config_missing"
proxy_error_kind (proxy_listen_addr e) = bytes "proxy_listen_addr"
proxy_error_kind (ca e) = bytes "proxy_ca"
proxy_error_kind (proxy e) = bytes "proxy_serve"

pub should_emit_request_pre_upstream_error_audit : AppError → Bool
should_emit_request_pre_upstream_error_audit (attachment e) = true
should_emit_request_pre_upstream_error_audit (presidio e) = true
should_emit_request_pre_upstream_error_audit (opa e) = true
should_emit_request_pre_upstream_error_audit (tokenization e) = true
should_emit_request_pre_upstream_error_audit (detector e) = true
should_emit_request_pre_upstream_error_audit (review_store e) = true
should_emit_request_pre_upstream_error_audit other = false

abbrev pub stage : Text
stage = bytes "request_pre_upstream"

-- `message` is the `Display` of an error.
module _ (message : AppError → Text) where
  pub request_pre_upstream_error_reason : Text → Text → AppError → Text
  request_pre_upstream_error_reason stage kind error =
      stage ++ (bytes "/" ++ (kind ++ (bytes ": " ++ message error)))

  -- At the time `now`.
  pub build_request_pre_upstream_error_audit :
      ℕ → Principal → ClientRequest → Option Text → AppError → AuditRecord
  unfolding request_pre_upstream_error_reason proxy_error_kind
  build_request_pre_upstream_error_audit now principal r session_id error = record {
    ts = now;
    request_id = r.request_id;
    principal = principal.name;
    tenant_id = principal.tenant_id;
    direction = bytes "request";
    path = r.path_and_query;
    decision = bytes "block";
    policy_source = bytes "request_pre_upstream_error";
    decision_reason = some (request_pre_upstream_error_reason stage (proxy_error_kind error) error);
    matched_labels = [];
    matched_rules = [];
    findings = [];
    session_id = session_id;
    session_escalated = false;
    status_code = some 502;
    error_stage = some stage;
    error_kind = some (proxy_error_kind error);
  }

-- `trim_start_matches('/')`
pub trim_start_slashes : Text → Text
trim_start_slashes [] = []
trim_start_slashes (c ∷ s) = let rest = trim_start_slashes s in if eqb c b'/' then rest else c ∷ s

-- What the handler reads from the state and the runtime: `join` is that of the upstream's base URL,
-- and `reqwest_method` is `Method::from_bytes`.
pub record Runtime : Type 0 where
  pub authenticator : Authenticator
  pub crates : PayloadCrates
  pub engines : Engines
  pub attachments : AttachmentConfig
  pub proxy : ProxyRuntime
  pub to_str : Text → Option Text
  pub message : AppError → Text
  pub upstream_headers : UpstreamHeaders
  pub env : Text → Option Text
  pub join : Text → Option Text
  pub reqwest_method : Text → CrateResult Text

pub header : (Text → Option Text) → Text → HeaderMap → Option Text
header to_str name headers = elim (Table.get (to_lowercase name) headers) [
  | none ↦ none
  | some value ↦ to_str value
]

module _ (rt : Runtime) where
  abbrev pub session_header : ClientRequest → Option Text
  session_header r = header rt.to_str rt.proxy.session.header_name r.headers

  -- The request for `handle_proxy`, once its body is processed.
  pub proxy_request : ClientRequest → Principal → Text → ProcessedPayload → ProxyRequest
  unfolding header
  proxy_request r principal body processed = record {
    request_id = r.request_id;
    principal = principal;
    path_and_query = r.path_and_query;
    body = body;
    request_sha256 = rt.proxy.sha256_hex body;
    review_ticket_header = header rt.to_str (bytes "x-review-ticket-id") r.headers;
    session_id = if rt.proxy.session.enabled then session_header r else none;
    processed = processed;
  }

  abbrev pub or_io : CrateResult Text → Outcome Text
  or_io (done body) = ok body
  or_io (failed text) = err (runtime_io (bytes "failed reading request body: " ++ text))

  -- The body and what is made of it.
  pub process_request : ClientRequest → Principal → Outcome (Text × ProcessedPayload)
  unfolding process_payload header
  process_request r principal = or_io r.read >>= λ body.
      process_payload rt.crates rt.engines principal request rt.attachments
        (header rt.to_str (bytes "content-type") r.headers) body
      >>= λ processed. ok (body, processed)

  -- The answer to an error, and its record if the error is one of those that are audited.
  pub fail_with : ℕ → ClientRequest → Principal → AppError → Gateway → Gateway × Answer
  unfolding should_emit_request_pre_upstream_error_audit build_request_pre_upstream_error_audit
      Audit.push header
  fail_with now r principal error g = (
    if should_emit_request_pre_upstream_error_audit error
        then record g {
          audit =
              Audit.push
                (build_request_pre_upstream_error_audit rt.message now principal r
                  (session_header r) error)
                g.audit;
        }
        else g,
    upstream_error error,
  )

  -- The request that goes upstream; its sending, which may fail, is not modelled.
  pub upstream_request : ClientRequest → Text → Text → Text → UpstreamRequest
  unfolding upstream_headers
  upstream_request r url method body = record {
    method = method;
    url = url;
    headers = upstream_headers rt.to_str rt.env rt.upstream_headers r.request_id r.headers;
    body = body;
  }

  -- The end of `handle_proxy` for a request that is let through, after its audit record: the URL
  -- and the method, either of which may be refused.
  pub send_upstream :
      ℕ
      → ClientRequest
      → Principal
      → Gateway
      → Text
      → Option Text
      → CrateResult Text
      → Gateway × Answer
  unfolding fail_with upstream_request
  send_upstream now r principal g body none method =
      fail_with now r principal (invalid_upstream_url r.path_and_query) g
  send_upstream now r principal g body (some url) (failed text) =
      fail_with now r principal (runtime_io (bytes "invalid method for reqwest: " ++ text)) g
  send_upstream now r principal g body (some url) (done method) =
      (g, upstream (upstream_request r url method body))

  pub answer_proxied : ℕ → ClientRequest → Principal → Gateway × ProxyResult → Gateway × Answer
  unfolding fail_with send_upstream trim_start_slashes
  answer_proxied now r principal (g, forwarded body) =
      send_upstream now r principal g body (rt.join (trim_start_slashes r.path_and_query))
        (rt.reqwest_method r.method)
  answer_proxied now r principal (g, review_required status code id action) =
      (g, ticket status code id action)
  answer_proxied now r principal (g, refused status code) = (g, blocked status code)
  answer_proxied now r principal (g, opa_failed text) = fail_with now r principal (opa text) g
  answer_proxied now r principal (g, review_store_failed e) =
      fail_with now r principal (review_store e) g

  pub answer_processed :
      ℕ
      → Text
      → Option ReviewStoreError
      → ClientRequest
      → Principal
      → Gateway
      → Outcome (Text × ProcessedPayload)
      → Gateway × Answer
  unfolding fail_with handle_proxy proxy_request answer_proxied
  answer_processed now id fault r principal g (err error) = fail_with now r principal error g
  answer_processed now id fault r principal g panicked = (g, handler_panicked)
  answer_processed now id fault r principal g (ok (body, processed)) =
      answer_proxied now r principal
        (handle_proxy rt.proxy now id fault (proxy_request r principal body processed) g)

  abbrev pub answer_authenticated :
      ℕ
      → Text
      → Option ReviewStoreError
      → ClientRequest
      → Gateway
      → AuthResult Principal
      → Gateway × Answer
  answer_authenticated now id fault r g (Auth.err e) = (g, unauthorized e)
  answer_authenticated now id fault r g (Auth.ok principal) =
      answer_processed now id fault r principal g (process_request r principal)

  -- `proxy_handler`, with `handle_proxy` in it
  pub proxy_handler :
      ℕ → Text → Option ReviewStoreError → ClientRequest → Gateway → Gateway × Answer
  unfolding authenticate process_request answer_processed
  proxy_handler now id fault r g =
      answer_authenticated now id fault r g
        (authenticate rt.proxy.sha256_hex rt.to_str rt.authenticator r.headers)
