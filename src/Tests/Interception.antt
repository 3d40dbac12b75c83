-- ===== src/Tests/Interception.antt =====
-- Messages through the handler of the proxy that intercepts.
use ctxward.Prelude.{◌≡◌, true, Option, none, some, List, [], ◌∷◌, ◌++◌, Text, bytes, map}
use ctxward.Core.RedactApi.{local_principal}
use ctxward.Attachments.Errors.{done}
use ctxward.Audit
use ctxward.Json.Reference.{assign}
use ctxward.Proxy.Outcome.{merge_all}
use ctxward.Proxy.Payload.{PayloadCrates}
use ctxward.Proxy.Sse.{SseTransformResult, builtin_allow}
use ctxward.Proxy.Sse.Chunks.{all_lines}
use ctxward.Mitm.Hosts.{passthrough}
use ctxward.Mitm.Classify.{exact}
use ctxward.Mitm.Stream.{Frame, content, trailers, broken, redact_sse_stream, stream_start}
use ctxward.Mitm.Stream.Lines.{readable, first_some, line_usage, redact_sse_stream-lines}
use ctxward.Mitm.Handler.{Message, Handler, handle_request, handle_response}
use ctxward.Mitm.Handler.Guard.{
  IsGuarded, IsScrubbed, handle_request-IsGuarded, handle_response-IsScrubbed,
}
use ctxward.Tests.Attachments.{documents, attachments}
use ctxward.Tests.Payloads.{engines}

abbrev pub crates : PayloadCrates
crates = record {
  assign = assign;
  parse_json = λ s. none;
  print_json = λ v. none;
  is_utf8 = λ s. true;
  documents = documents;
}

abbrev mark_line : Text → SseTransformResult
mark_line line = record { line = b'>' ∷ line; policy = builtin_allow }

abbrev decoded : Message → Option Message
decoded m = some m

abbrev chunks : List Frame
chunks =
    content (bytes "data: a" ++ 10 ∷ bytes "da")
    ∷ trailers
    ∷ content (bytes "ta: b" ++ 10 ∷ [])
    ∷ broken
    ∷ content (bytes "lost")
    ∷ []

abbrev message : Message
message = record {
  uri_host = some (bytes "api.x.ai");
  path_and_query = bytes "/v1";
  status = 200;
  headers = (bytes "content-length", bytes "3") ∷ (bytes "accept", bytes "x") ∷ [];
  collected = done (bytes "a@b");
  frames = chunks;
}

abbrev handler : Handler
handler = record {
  classifier = record {
    floor_intercept = [];
    intercepted = [];
    passed_through = [];
    default = passthrough;
    signs_body_hosts = exact (bytes "sigv4.test") ∷ [];
  };
  pins = record { ttl = 1; pinned = [] };
  audit = Audit.new 4;
  metrics = [];
}

redact_sse_stream-lines_example :
    let s = redact_sse_stream (λ s. none) (λ s. s) mark_line chunks [] stream_start in
    let ls = all_lines (readable chunks) in
    (s.sent ≡ map (λ l. (mark_line l).line) ls)
    × (s.acc_policy ≡ merge_all builtin_allow (map (λ l. (mark_line l).policy) ls))
    × (s.llm_tokens ≡ first_some (map (line_usage (λ s. none) (λ s. s) mark_line) ls))
redact_sse_stream-lines_example = redact_sse_stream-lines (λ s. none) (λ s. s) mark_line chunks

handle_request-IsGuarded_example :
    IsGuarded crates some decoded engines attachments local_principal 7
      (bytes "id")
      message
      handler
      (handle_request crates some decoded engines attachments local_principal 7
        (bytes "id")
        message
        handler)
handle_request-IsGuarded_example =
    handle_request-IsGuarded crates some decoded engines attachments local_principal 7 (bytes "id")
      message handler

handle_response-IsScrubbed_example :
    IsScrubbed crates some decoded engines attachments local_principal
      (λ s. s)
      mark_line
      (record { enabled = true; scan_sse = true })
      message
      (handle_response crates some decoded engines attachments local_principal
        (λ s. s)
        mark_line
        (record { enabled = true; scan_sse = true })
        7
        message
        handler).1
handle_response-IsScrubbed_example =
    handle_response-IsScrubbed crates some decoded engines attachments local_principal (λ s. s)
      mark_line (record { enabled = true; scan_sse = true }) 7 message handler
