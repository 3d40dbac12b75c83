-- ===== src/Mitm/Stream.antt =====
-- src/mitm/sse.rs: the events of a stream, scrubbed line by line, with the usage metered once.
pub mod Lines
use ctxward.Prelude.{
  ℕ, suc, Bool, true, false, Option, none, some, List, [], ◌∷◌, ◌++◌, Text, length,
}
use ctxward.Core.Policy.{PolicyOutcome}
use ctxward.Proxy.Outcome.{merge_policy_outcomes}
use ctxward.Proxy.Sse.{SseTransformResult, builtin_allow, payload_of, drain_lines}
use ctxward.Json.{Value}
use ctxward.Mitm.Usage.{Usage, usage_from_response}

-- A frame of the body: bytes, trailers, or an error.
pub data Frame : Type 0 where
  content : Text → Frame
  trailers : Frame
  broken : Frame

-- What was sent, the merged outcome, the calls of `llm_tokens`, and the flag that guards them.
pub record StreamState : Type 0 where
  pub sent : List Text
  pub acc_policy : PolicyOutcome
  pub llm_tokens : List Usage
  pub metered : Bool

abbrev pub stream_start : StreamState
stream_start = record { sent = []; acc_policy = builtin_allow; llm_tokens = []; metered = false }

abbrev pub with_usage : Option Usage → StreamState → StreamState
with_usage none s = s
with_usage (some u) s = record s { llm_tokens = s.llm_tokens ++ u ∷ []; metered = true }

abbrev pub unless_metered : Bool → Option Usage → StreamState → StreamState
unless_metered true u s = s
unless_metered false u s = with_usage u s

abbrev pub yield_line : SseTransformResult → StreamState → StreamState
yield_line r s = record s {
  sent = s.sent ++ r.line ∷ [];
  acc_policy = merge_policy_outcomes s.acc_policy r.policy;
}

module _ (parse_json : Text → Option Value) where
  abbrev pub usage_of : Option Text → Option Usage
  usage_of none = none
  usage_of (some payload) = usage_from_response parse_json payload

  -- `meter_sse_usage`
  pub meter_sse_usage : Text → StreamState → StreamState
  unfolding payload_of usage_from_response
  meter_sse_usage line s = unless_metered s.metered (usage_of (payload_of line)) s

-- `transform` is `transform_sse_line` of the line as a `String`, and `text_of` is
-- `String::from_utf8_lossy`.
module _ (parse_json : Text → Option Value) (text_of : Text → Text)
    (transform : Text → SseTransformResult) where
  -- The body of the loop over the lines.
  pub send_line : Text → StreamState → StreamState
  unfolding meter_sse_usage merge_policy_outcomes
  send_line line s =
      yield_line (transform (text_of line)) (meter_sse_usage parse_json (text_of line) s)

  pub send_all : List Text → StreamState → StreamState
  unfolding send_line
  send_all [] s = s
  send_all (l ∷ ls) s = send_all ls (send_line l s)

  -- The rest of the buffer, if any.
  pub flush : Text → StreamState → StreamState
  unfolding send_line
  flush [] s = s
  flush (b ∷ buffer) s = send_line (b ∷ buffer) s

  -- `redact_sse_stream`, but for the telemetry at its end
  unfoldable pub redact_sse_stream : List Frame → Text → StreamState → StreamState
  unfolding drain_lines send_all flush
  redact_sse_stream [] buffer s = flush buffer s
  redact_sse_stream (broken ∷ frames) buffer s = flush buffer s
  redact_sse_stream (trailers ∷ frames) buffer s = redact_sse_stream frames buffer s
  redact_sse_stream (content chunk ∷ frames) buffer s =
      let drained = drain_lines (length (buffer ++ chunk)) (buffer ++ chunk) in
      redact_sse_stream frames drained.1 (send_all drained.0 s)
