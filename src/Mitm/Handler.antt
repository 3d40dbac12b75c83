-- ===== src/Mitm/Handler.antt =====
-- src/mitm/mod.rs and bridge.rs: the hooks on a request and on a response that are intercepted.
-- Decoding and the reading of bodies are hudsucker's. Of the metrics only those on models are
-- modelled.
pub mod Guard
use ctxward.Prelude.{
  ℕ, Bool, true, false, not, ◌&&◌, ◌||◌, Option, none, some, List, [], ◌∷◌, ◌++◌, Text, bytes,
  text_eq, eq_text, filter, if◌then◌else◌,
}
use ctxward.Prelude.Ascii.{split_once}
use ctxward.Core.Auth.{Principal}
use ctxward.Core.Types.{Direction, request, response, block, same_action}
use ctxward.Core.Policy.{PolicyOutcome}
use ctxward.Audit.{AuditRecord, AuditStore}
use ctxward.Audit
use ctxward.App.Engines.{Engines}
use ctxward.App.Errors.{AppError, runtime_io, Outcome, ok, err, panicked, ◌>>=◌}
use ctxward.Attachments.Errors.{CrateResult, done, failed}
use ctxward.Attachments.Request.{AttachmentConfig}
use ctxward.Proxy.Headers.{HeaderMap}
use ctxward.Proxy.Response.{ProcessedPayload, is_sse}
use ctxward.Proxy.Request.Audited.{AuditContext, build_audit_record}
use ctxward.Proxy.Payload.{PayloadCrates, process_payload}
use ctxward.Proxy.Sse.{SseTransformResult}
use ctxward.Mitm.Hosts.{ProxyAction, intercept, passthrough}
use ctxward.Mitm.Classify.{Classifier, classify, signs_body, PinCache, is_pinned}
use ctxward.Mitm.Usage.{Usage, model_from_request, usage_from_response}
use ctxward.Mitm.Stream.{Frame, StreamState, stream_start, redact_sse_stream}

-- A request or a response: `collected` is what the reading of the whole body gives, and `frames` is
-- what the body gives frame by frame.
pub record Message : Type 0 where
  pub uri_host : Option Text
  pub path_and_query : Text
  pub status : ℕ
  pub headers : HeaderMap
  pub collected : CrateResult Text
  pub frames : List Frame

-- The calls of `llm_request` and `llm_tokens`.
pub data MetricsCall : Type 0 where
  llm_request : Text → MetricsCall
  llm_tokens : Text → ℕ → ℕ → MetricsCall

-- What the hooks of all connections share.
pub record Handler : Type 0 where
  pub classifier : Classifier
  pub pins : PinCache
  pub audit : AuditStore AuditRecord
  pub metrics : List MetricsCall

-- What becomes of a request: an answer of the handler's own, or what goes upstream.
pub data RequestOrResponse : Type 0 where
  answered : ℕ → Text → RequestOrResponse
  sent : HeaderMap → Text → RequestOrResponse
  handler_panicked : RequestOrResponse

-- What becomes of a response: an answer of the handler's own, or headers with a body, with lines, or
-- with the body as it came.
pub data Delivered : Type 0 where
  replaced : ℕ → Text → Delivered
  delivered : HeaderMap → Text → Delivered
  streamed : HeaderMap → List Text → Delivered
  untouched : Message → Delivered
  delivery_panicked : Delivered

-- `headers.get(name)`, the first value, and `to_str` on it
pub header_value : Text → HeaderMap → Option Text
header_value name [] = none
header_value name ((n, v) ∷ headers) =
    let rest = header_value name headers in if text_eq n name then some v else rest

abbrev pub visible : (Text → Option Text) → Option Text → Option Text
visible to_str none = none
visible to_str (some v) = to_str v

-- `h.split(':').next()`
abbrev pub before_colon : Text → Option (Text × Text) → Text
before_colon h none = h
before_colon h (some (name, port)) = name

abbrev pub host_of_header : Option Text → Text
host_of_header none = []
host_of_header (some h) = before_colon h (split_once b':' h)

abbrev pub host_or_header : Option Text → Option Text → Text
host_or_header (some h) header = h
host_or_header none header = host_of_header header

pub strip_framing_headers : HeaderMap → HeaderMap
strip_framing_headers headers =
    filter
      (λ (h : Text × Text).
        not (text_eq h.0 (bytes "content-length") || text_eq h.0 (bytes "transfer-encoding")))
      headers

abbrev pub bad_gateway : RequestOrResponse
bad_gateway = answered 502 (bytes "ctxward: upstream error")

abbrev pub blocked_response : RequestOrResponse
blocked_response = answered 403 (
    bytes
      "{\"error\":{\"type\":\"blocked_by_ctxward\",\"message\":\"request blocked by privacy policy\"}}")

abbrev pub bad_gateway_delivered : Delivered
bad_gateway_delivered = replaced 502 (bytes "ctxward: upstream error")

abbrev pub is_intercept : ProxyAction → Bool
is_intercept intercept = true
is_intercept passthrough = false

abbrev pub count_model : Option Text → Handler → Handler
count_model none h = h
count_model (some model) h = record h { metrics = h.metrics ++ llm_request model ∷ [] }

abbrev pub unwrap_or_unknown : Option Text → Text
unwrap_or_unknown none = bytes "unknown"
unwrap_or_unknown (some model) = model

abbrev pub tokens_call : Usage → MetricsCall
tokens_call u = llm_tokens (unwrap_or_unknown u.model) u.prompt_tokens u.completion_tokens

abbrev pub count_tokens : Option Usage → Handler → Handler
count_tokens none h = h
count_tokens (some u) h = record h { metrics = h.metrics ++ tokens_call u ∷ [] }

abbrev pub telemetry_context : Text → Text → AuditContext
telemetry_context request_id path = record {
  request_id = request_id;
  path_and_query = path;
  session_id = none;
  session_escalated = false;
}

-- `emit_decision_telemetry`, at the time `now`
pub emit_decision_telemetry :
    ℕ → Principal → Direction → Text → Text → PolicyOutcome → Option ℕ → Handler → Handler
unfolding build_audit_record Audit.push
emit_decision_telemetry now principal direction request_id path policy status h = record h {
  audit =
      Audit.push
        (build_audit_record now principal direction policy.decision policy
          (telemetry_context request_id path) status)
        h.audit;
}

-- `response_filtering` of the configuration, as far as the handler reads it
pub record ResponseFiltering : Type 0 where
  pub enabled : Bool
  pub scan_sse : Bool

module _ (crates : PayloadCrates) (to_str : Text → Option Text) (decode : Message → Option Message)
    (e : Engines) (config : AttachmentConfig) (principal : Principal) where
  pub request_host : Message → Text
  unfolding header_value split_once
  request_host m =
      host_or_header m.uri_host (visible to_str (header_value (bytes "host") m.headers))

  -- `should_intercept` of a peer's request
  unfoldable pub should_intercept : ℕ → Text → Message → Handler → Handler × Bool
  unfolding request_host is_pinned classify
  should_intercept now peer m h =
      let p = is_pinned now peer (request_host m) h.pins in
      (
        record h { pins = p.0 },
        if p.1 then false else is_intercept (classify h.classifier (request_host m)),
      )

  abbrev pub or_io : CrateResult Text → Outcome Text
  or_io (done raw) = ok raw
  or_io (failed message) = err (runtime_io message)

  -- `filter_body` of bridge.rs
  pub filter_body : Direction → Message → Outcome (Text × ProcessedPayload)
  unfolding process_payload header_value
  filter_body direction m = or_io m.collected >>= λ raw.
      process_payload crates e principal direction config
        (visible to_str (header_value (bytes "content-type") m.headers)) raw
      >>= λ processed. ok (raw, processed)

  -- What goes upstream of a request that is not blocked.
  pub outbound : Handler → Text → Text → Text → Text
  unfolding signs_body
  outbound h host raw sanitized =
      if signs_body h.classifier host && not (text_eq sanitized raw) then raw else sanitized

  -- The request's telemetry, and the decision.
  unfoldable pub finish_request :
      ℕ → Text → Message → Handler → Outcome (Text × ProcessedPayload) → Handler × RequestOrResponse
  unfolding model_from_request emit_decision_telemetry request_host outbound strip_framing_headers
      same_action
  finish_request now request_id m h (err error) = (h, bad_gateway)
  finish_request now request_id m h panicked = (h, handler_panicked)
  finish_request now request_id m h (ok (raw, processed)) =
      let blocked = same_action processed.policy.decision block in
      let counted = count_model (model_from_request crates.parse_json raw) h in
      let h' =
        emit_decision_telemetry now principal request request_id m.path_and_query processed.policy
          (if blocked then some 403 else none) counted in
      (
        h',
        if blocked
            then blocked_response
            else sent (strip_framing_headers m.headers)
                (outbound h' (request_host m) raw processed.sanitized_body),
      )

  abbrev pub with_decoded : ℕ → Text → Handler → Option Message → Handler × RequestOrResponse
  with_decoded now request_id h none = (h, bad_gateway)
  with_decoded now request_id h (some m) = finish_request now request_id m h (filter_body request m)

  -- `handle_request`
  pub handle_request : ℕ → Text → Message → Handler → Handler × RequestOrResponse
  unfolding filter_body finish_request
  handle_request now request_id m h = with_decoded now request_id h (decode m)

  -- The response's telemetry, and what is delivered.
  pub finish_response :
      ℕ → Message → Handler → Outcome (Text × ProcessedPayload) → Handler × Delivered
  unfolding usage_from_response emit_decision_telemetry strip_framing_headers
  finish_response now m h (err error) = (h, bad_gateway_delivered)
  finish_response now m h panicked = (h, delivery_panicked)
  finish_response now m h (ok (raw, processed)) = (
    emit_decision_telemetry now principal response [] [] processed.policy (some m.status)
        (count_tokens (usage_from_response crates.parse_json raw) h),
    delivered (strip_framing_headers m.headers) processed.sanitized_body,
  )

  abbrev pub with_decoded_response : ℕ → Handler → Option Message → Handler × Delivered
  with_decoded_response now h none = (h, bad_gateway_delivered)
  with_decoded_response now h (some m) = finish_response now m h (filter_body response m)

  abbrev pub count_all : List Usage → Handler → Handler
  count_all [] h = h
  count_all (u ∷ us) h = count_all us (count_tokens (some u) h)

  -- The end of a stream; the outcome is emitted when it has ended.
  abbrev pub end_stream : ℕ → Message → Handler → StreamState → Handler × Delivered
  end_stream now m h s = (
    emit_decision_telemetry now principal response [] (bytes "/sse") s.acc_policy none
        (count_all s.llm_tokens h),
    streamed m.headers s.sent,
  )

  -- `handle_response`, where `text_of` and `transform` are what a stream does to its lines
  pub handle_response :
      (Text → Text)
      → (Text → SseTransformResult)
      → ResponseFiltering
      → ℕ
      → Message
      → Handler
      → Handler × Delivered
  unfolding is_sse header_value filter_body finish_response redact_sse_stream
      emit_decision_telemetry
  handle_response text_of transform rt now m h =
      if is_sse (visible to_str (header_value (bytes "content-type") m.headers))
      then (if not rt.enabled || not rt.scan_sse
          then (h, untouched m)
          else end_stream now m h
              (redact_sse_stream crates.parse_json text_of transform m.frames [] stream_start))
      else with_decoded_response now h (decode m)
