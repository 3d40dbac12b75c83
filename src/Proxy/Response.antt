-- ===== src/Proxy/Response.antt =====
-- src/proxy.rs: the body that goes back to the client, where the response is buffered.
pub mod Guard
use ctxward.Prelude.{
  Bool, true, false, not, ◌&&◌, ◌||◌, Option, none, some, List, [], ◌∷◌, ◌++◌, Text, bytes, ltb,
  if◌then◌else◌,
}
use ctxward.Prelude.Ascii.{starts_with, contains_text, to_lowercase}
use ctxward.Core.Auth.{Principal}
use ctxward.Core.Types.{Direction, response, DecisionAction, allow, redact, rank, same_action}
use ctxward.Core.Policy.{ResolvedFinding, PolicyOutcome}
use ctxward.Proxy.Outcome.{OpaAuthorizer, OpaOutcome, outcome, opa_error, apply_opa_policy}

unfoldable pub is_json : Option Text → Bool
unfolding contains_text
is_json none = false
is_json (some value) =
    contains_text (bytes "application/json") value || contains_text (bytes "+json") value

unfoldable pub is_sse : Option Text → Bool
unfolding starts_with
is_sse none = false
is_sse (some value) = starts_with (bytes "text/event-stream") (to_lowercase value)

abbrev pub redacted_json : Text
redacted_json = bytes "{\"error\":\"response redacted by gateway\"}"

unfoldable pub generic_redacted_body : Option Text → Text
unfolding is_json
generic_redacted_body content_type =
    if is_json content_type then redacted_json else bytes "[REDACTED]"

-- `final_decision != Allow && final_decision.rank() > base_decision.rank()`
unfoldable pub should_force_full_response_redaction : DecisionAction → DecisionAction → Bool
unfolding rank same_action
should_force_full_response_redaction base final =
    not (same_action final allow) && ltb (rank base) (rank final)

pub normalize_response_decision : DecisionAction → DecisionAction
unfolding same_action
normalize_response_decision decision = if same_action decision allow then allow else redact

pub resolve_buffered_response_body :
    Option Text → Text → Text → DecisionAction → DecisionAction → Text × DecisionAction
unfolding normalize_response_decision should_force_full_response_redaction generic_redacted_body
resolve_buffered_response_body content_type original sanitized base final =
    if same_action (normalize_response_decision final) allow
    then (original, allow)
    else if should_force_full_response_redaction base final
    then (generic_redacted_body content_type, redact)
    else (sanitized, redact)

pub record ProcessedPayload : Type 0 where
  pub sanitized_body : Text
  pub policy : PolicyOutcome

abbrev pub passthrough : Text → ProcessedPayload
passthrough body = record {
  sanitized_body = body;
  policy = record { decision = allow; findings = []; source = bytes "builtin"; reason = none };
}

-- `ProcessedPayload::error_fallback`
abbrev pub error_fallback : ProcessedPayload
error_fallback = record {
  sanitized_body = redacted_json;
  policy = record {
    decision = redact;
    findings = [];
    source = bytes "processing_error_fallback";
    reason = some (bytes "payload processing failed");
  };
}

abbrev pub unwrap_or_fallback : PolicyOutcome → OpaOutcome → PolicyOutcome
unwrap_or_fallback base (outcome p) = p
unwrap_or_fallback base (opa_error err) = record {
  decision = redact;
  findings = base.findings;
  source = bytes "opa_error_fallback";
  reason = some (bytes "opa failed during response filtering");
}

unfoldable pub finalize_response_policy :
    Option OpaAuthorizer → Principal → Text → Bool → PolicyOutcome → PolicyOutcome
unfolding apply_opa_policy
finalize_response_policy opa principal path session_escalated base =
    unwrap_or_fallback base (apply_opa_policy opa principal response path session_escalated base)

-- What was made of the response: `response_filtering.enabled`, and the result of
-- `process_payload`, or none if it failed.
unfoldable pub processed_response : Bool → Option ProcessedPayload → Text → ProcessedPayload
processed_response true (some p) body = p
processed_response true none body = error_fallback
processed_response false result body = passthrough body

pub record BufferedResponse : Type 0 where
  pub body : Text
  pub decision : DecisionAction
  pub policy : PolicyOutcome

-- `response_from_buffered_body`, after the body is read.
pub response_from_buffered_body :
    Bool
    → Option ProcessedPayload
    → Option OpaAuthorizer
    → Principal
    → Text
    → Bool
    → Option Text
    → Text
    → BufferedResponse
unfolding processed_response finalize_response_policy resolve_buffered_response_body
response_from_buffered_body enabled result opa principal path session_escalated content_type body =
    let processed = processed_response enabled result body in
    let final = finalize_response_policy opa principal path session_escalated processed.policy in
    let out =
      resolve_buffered_response_body content_type body processed.sanitized_body
        processed.policy.decision final.decision in
    record { body = out.0; decision = out.1; policy = final }
