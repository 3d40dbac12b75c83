-- ===== src/Proxy/Payload/Rendered.antt =====
-- src/proxy.rs: what is made of the payload of one event of a stream. An error never lets the
-- payload through.
use ctxward.Prelude.{true, false, Option, none, some, [], Text, bytes}
use ctxward.Core.Auth.{Principal}
use ctxward.Core.Types.{response, redact}
use ctxward.Core.Policy.{PolicyOutcome}
use ctxward.App.Engines.{Engines}
use ctxward.App.Errors.{Outcome, ok, err, panicked}
use ctxward.Json.{Value, string, object, end, field}
use ctxward.Proxy.Payload.{
  TextProcessResult, process_text, JsonProcessResult, sanitize_json_value, PayloadCrates, printed,
}
use ctxward.Proxy.Sse.{RenderedPayload, generic_redacted_sse_payload}

abbrev pub fallback_policy : Text → Text → PolicyOutcome
fallback_policy source reason = record {
  decision = redact;
  findings = [];
  source = source;
  reason = some reason;
}

-- `JsonProcessResult::error_fallback`
abbrev pub json_fallback : JsonProcessResult
json_fallback = record {
  redacted_value =
      object (field (bytes "error") (string (bytes "response redacted by gateway")) end);
  policy =
      fallback_policy (bytes "json_processing_error_fallback")
        (bytes "json payload processing failed");
}

-- `TextProcessResult::error_fallback`
abbrev pub text_fallback : TextProcessResult
text_fallback = record {
  redacted_text = bytes "[REDACTED]";
  policy = fallback_policy (bytes "presidio_error_fallback") (bytes "presidio analysis failed");
}

-- `unwrap_or_else` of a fallback
abbrev pub or_fallback {ℓ} : {A : Type ℓ} → A → Outcome A → Outcome A
or_fallback fallback (ok a) = ok a
or_fallback fallback (err e) = ok fallback
or_fallback fallback panicked = panicked

module _ (crates : PayloadCrates) (e : Engines) (principal : Principal) where
  abbrev pub rendered_json : Outcome JsonProcessResult → Outcome RenderedPayload
  rendered_json (ok r) = ok (record {
    is_json = true;
    rendered = printed (generic_redacted_sse_payload true) (crates.print_json r.redacted_value);
    policy = r.policy;
  })
  rendered_json (err error) = err error
  rendered_json panicked = panicked

  abbrev pub rendered_text : Outcome TextProcessResult → Outcome RenderedPayload
  rendered_text (ok r) =
      ok (record { is_json = false; rendered = r.redacted_text; policy = r.policy })
  rendered_text (err error) = err error
  rendered_text panicked = panicked

  abbrev pub rendered_value : Text → Option Value → Outcome RenderedPayload
  rendered_value payload none =
      rendered_text
        (or_fallback text_fallback (process_text e principal payload (bytes "/sse") response))
  rendered_value payload (some v) =
      rendered_json
        (or_fallback json_fallback (sanitize_json_value crates.assign e principal v response))

  -- The middle of `transform_sse_line`
  unfoldable pub render_payload : Text → Outcome RenderedPayload
  unfolding process_text sanitize_json_value generic_redacted_sse_payload
  render_payload payload = rendered_value payload (crates.parse_json payload)
