-- ===== src/Tests/Gateway.antt =====
-- A request and a response through the gateway.
use ctxward.Prelude.{
  ◌≤◌, ◌≡◌, ◌⊎◌, refl, true, false, Option, none, some, [], ◌∷◌, Text, bytes, map, All, eq_text,
  text_eq,
}
use ctxward.Prelude.Table
use ctxward.Prelude.Table.{Table}
use ctxward.Core.Types.{public, allow, redact, review, rank, combine}
use ctxward.Core.Auth.{Principal}
use ctxward.Core.Session.{SessionConfig, record_and_check, is_skipped, active_sessions}
use ctxward.Review.Tickets.{override_rejected}
use ctxward.Review.{lookup_override, pending_count, prune_expired_overrides, get}
use ctxward.Proxy.Outcome.{apply_opa_policy}
use ctxward.Proxy.Response.{ProcessedPayload}
use ctxward.Proxy.Sse.{SseTransformResult, builtin_allow, sse_stream}
use ctxward.Proxy.Sse.Lines.{split_lines}
use ctxward.Proxy.Sse.Chunks.{sent_for, sse_stream-lines}
use ctxward.Proxy.Decide.{
  ProxyRequest, Gateway, ProxyRuntime, request_decision, record_session, decide_request,
  decide_outcome, read_gauges, review_override, header_ticket, override_by_decision,
}
use ctxward.Proxy.Request.{forwarded, finish_request, carry_out, handle_proxy}
use ctxward.Proxy.Request.Forwarded.{IsNotOverridden, handle_proxy-forwards}
use ctxward.Proxy.Headers.{HeaderMap, UpstreamHeaders, upstream_headers}
use ctxward.Proxy.Headers.Kept.{IsSent, upstream_headers-IsAllowed}

abbrev pub alice : Principal
alice = record {
  name = bytes "alice";
  tenant_id = bytes "t";
  role = bytes "user";
  clearance = public;
  allowed_labels = [];
}

abbrev pub cleaned : ProcessedPayload
cleaned = record {
  sanitized_body = bytes "x";
  policy = record { decision = redact; findings = []; source = bytes "builtin"; reason = none };
}

abbrev echo : Text → SseTransformResult
echo line = record { line = line; policy = builtin_allow }

sse_stream-lines_example :
    sse_stream echo builtin_allow [] (map some (bytes "a" ∷ bytes "b\nc" ∷ []))
    ≡ sent_for echo builtin_allow (bytes "ab\n" ∷ bytes "c" ∷ [])
unfolding split_lines
sse_stream-lines_example = sse_stream-lines echo builtin_allow (bytes "a" ∷ bytes "b\nc" ∷ [])

abbrev pub sessions : SessionConfig
sessions = record {
  enabled = false;
  header_name = bytes "x-session-id";
  ttl_secs = 60;
  max_entries = 2;
  correlation_threshold = 2;
  trigger_action = review;
}

abbrev pub runtime : ProxyRuntime
runtime = record {
  session = sessions;
  preview_chars = 10;
  opa = none;
  sha256_hex = λ s. s;
  chars = λ s. none;
}

abbrev pub asked : ProxyRequest
asked = record {
  request_id = bytes "r1";
  principal = alice;
  path_and_query = bytes "/v1";
  body = bytes "secret";
  request_sha256 = bytes "00";
  review_ticket_header = none;
  session_id = none;
  processed = cleaned;
}

abbrev pub fresh : Gateway
fresh = record {
  sessions = [];
  reviews = record {
    inner = record {
      capacity = 2;
      order = [];
      tickets = [];
      pending_by_fingerprint = [];
      overrides_by_fingerprint = [];
    };
    log = [];
  };
  audit = record { capacity = 2; records = [] };
}

-- A request whose content is allowed, in a session that escalates, with a ticket that is not there.
abbrev escalating : ProxyRuntime
escalating = record runtime {
  session = record sessions { enabled = true; correlation_threshold = 0; trigger_action = redact };
}

abbrev allowed : ProxyRequest
allowed = record asked {
  review_ticket_header = some (bytes "T9");
  session_id = some (bytes "s");
  processed = record cleaned { policy = record cleaned.policy { decision = allow } };
}

not_overridden : IsNotOverridden escalating 5 allowed fresh
unfolding lookup_override pending_count prune_expired_overrides Table.get Table.retain header_ticket
    get
not_overridden = record { no_ticket = tt; no_decision = refl }

sent : (handle_proxy escalating 5 (bytes "T1") none allowed fresh).1 ≡ forwarded (bytes "x")
unfolding handle_proxy decide_request decide_outcome finish_request carry_out review_override
    header_ticket override_by_decision lookup_override pending_count prune_expired_overrides
    Table.get Table.retain apply_opa_policy request_decision record_session read_gauges get
    record_and_check is_skipped text_eq active_sessions combine
sent = refl

handle_proxy-forwards_example :
    (rank allow ≤ rank redact)
    × ((true ≡ false) ⊎ (rank redact ≤ rank redact))
    × ((bytes "x" ≡ bytes "x")
        ⊎ ((allow ≡ allow) × ((true ≡ false) ⊎ (redact ≡ allow)) × (bytes "x" ≡ bytes "secret")))
unfolding record_session record_and_check is_skipped text_eq Table.get Table.retain
handle_proxy-forwards_example =
    handle_proxy-forwards escalating 5 (bytes "T1") none allowed fresh (bytes "x") not_overridden
      sent

-- The gateway after an admin rejected this request.
abbrev rejecting : Gateway
rejecting = record fresh {
  reviews = record fresh.reviews {
    inner = record fresh.reviews.inner {
      overrides_by_fingerprint =
          (
            bytes "t|/v1|00",
            record { decision = override_rejected (bytes "T1") (bytes "bob"); expires_at = 9 },
          )
          ∷ [];
    };
  };
}

abbrev pub gateway_headers : UpstreamHeaders
gateway_headers = record {
  forward_headers = bytes "accept" ∷ [];
  auth_header = some (bytes "Authorization");
  auth_value_env = some (bytes "UPSTREAM_KEY");
}

abbrev client_headers : HeaderMap
client_headers = (bytes "X-Request-Id", bytes "1") ∷ (bytes "accept", bytes "*") ∷ []

abbrev secrets : Text → Option Text
secrets name = some (bytes "Bearer up")

upstream_headers-IsAllowed_example :
    let sent_headers =
      upstream_headers (λ v. some v) secrets gateway_headers (bytes "r1") client_headers in
    (Table.get (bytes "x-request-id") sent_headers ≡ some (bytes "r1"))
    × All (IsSent (λ v. some v) secrets gateway_headers (bytes "r1") client_headers) sent_headers
upstream_headers-IsAllowed_example =
    upstream_headers-IsAllowed (λ v. some v) secrets gateway_headers (bytes "r1") client_headers
