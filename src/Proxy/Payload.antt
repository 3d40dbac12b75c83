-- ===== src/Proxy/Payload.antt =====
-- src/proxy.rs: what is made of a text and of a JSON value.
pub mod Plugs
pub mod Rewrite
pub mod Api
pub mod Rendered
use ctxward.Prelude.{
  ℕ, Bool, true, false, Option, none, some, List, [], ◌∷◌, ◌++◌, Text, bytes, if◌then◌else◌,
}
use ctxward.Core.Auth.{Principal}
use ctxward.Core.Types.{Direction, request, response, DecisionAction, allow, combine}
use ctxward.Core.Detect.Findings.{DetectionFinding}
use ctxward.Core.Detect.Scan.{Detector, scan_text, should_ignore_pointer}
use ctxward.Core.Policy.{ResolvedFinding, PolicyOutcome, resolve}
use ctxward.Core.Redact.{TokenizerAt, redact_text}
use ctxward.Presidio.{PresidioAnalyzer, analyze}
use ctxward.App.Engines.{Engines}
use ctxward.App.Errors.{
  Outcome, attachment, ok, err, panicked, ◌>>=◌, of_redacted, of_analysis, of_scan,
}
use ctxward.Attachments.Errors.{Attempt}
use ctxward.Attachments.Errors as Attachments
use ctxward.Attachments.Documents.{DocumentCrates}
use ctxward.Attachments.Multipart.{is_multipart_form}
use ctxward.Attachments.Request.{AttachmentConfig, ScanResult, scan_request}
use ctxward.Proxy.Response.{ProcessedPayload, passthrough, is_json}
use ctxward.Json.{Value, collect_string_nodes}

pub record TextProcessResult : Type 0 where
  pub redacted_text : Text
  pub policy : PolicyOutcome

abbrev pub presidio_findings :
    Engines → Text → Text → Option PresidioAnalyzer → Outcome (List DetectionFinding)
presidio_findings e text pointer none = ok []
presidio_findings e text pointer (some p) = of_analysis (analyze e.sha256_hex p text pointer)

-- `process_text`
pub process_text : Engines → Principal → Text → Text → Direction → Outcome TextProcessResult
unfolding scan_text analyze resolve redact_text
process_text e principal text pointer direction = do
  scanned ← of_scan (scan_text e.sha256_hex e.sum_at_least e.detector text pointer)
  analyzed ← presidio_findings e text pointer e.presidio
  let policy = resolve principal (scanned ++ analyzed) direction
  redacted ← of_redacted (redact_text e.sha256_hex text policy.findings (e.tokenizer pointer))
  ok (record { redacted_text = redacted; policy = policy })

pub record JsonProcessResult : Type 0 where
  pub redacted_value : Value
  pub policy : PolicyOutcome

-- `acc.combine(finding.action)` over the findings
pub combined : DecisionAction → List ResolvedFinding → DecisionAction
unfolding combine
combined acc [] = acc
combined acc (f ∷ fs) = combined (combine acc f.action) fs

-- `if let Some(slot) = value.pointer_mut(&pointer) { *slot = Value::String(text) }`, where `assign`
-- is the value with the slot filled, or none where there is no slot.
abbrev pub filled : Value → Option Value → Value
filled value none = value
filled value (some v) = v

module _ (assign : Text → Text → Value → Option Value) where
  -- The loop over the strings, with the value and the findings so far. `process` is `process_text`
  -- of a text at a pointer, and `ignored` tells the pointers that are skipped.
  pub sanitize_nodes :
      (Text → Bool)
      → (Text → Text → Outcome TextProcessResult)
      → List (Text × Text)
      → Value
      → List ResolvedFinding
      → Outcome (Value × List ResolvedFinding)
  sanitize_nodes ignored process [] value findings = ok (value, findings)
  sanitize_nodes ignored process ((pointer, original) ∷ nodes) value findings =
      elim (ignored pointer) [
        | true ↦ sanitize_nodes ignored process nodes value findings
        | false ↦ process original pointer >>= λ r.
            sanitize_nodes ignored process nodes
              (filled value (assign pointer r.redacted_text value)) (findings ++ r.policy.findings)
      ]

  -- `sanitize_json_value`
  unfoldable pub sanitize_json_value :
      Engines → Principal → Value → Direction → Outcome JsonProcessResult
  unfolding sanitize_nodes collect_string_nodes should_ignore_pointer process_text combined
  sanitize_json_value e principal value direction = do
    r ←
        sanitize_nodes (should_ignore_pointer e.detector)
          (λ text pointer. process_text e principal text pointer direction)
          (collect_string_nodes value []) value []
    ok (record {
      redacted_value = r.0;
      policy = record {
        decision = combined allow r.1;
        findings = r.1;
        source = bytes "builtin";
        reason = none;
      };
    })

-- What the pipeline calls: `pointer_mut` with an assignment, and `serde_json` for bytes.
pub record PayloadCrates : Type 0 where
  pub assign : Text → Text → Value → Option Value
  pub parse_json : Text → Option Value
  pub print_json : Value → Option Text
  pub is_utf8 : Text → Bool
  pub documents : DocumentCrates

abbrev pub printed : Text → Option Text → Text
printed body none = body
printed body (some text) = text

-- `?` on the attachment engine
abbrev pub of_attempt {ℓ} : {A : Type ℓ} → Attempt A → Outcome A
of_attempt (Attachments.ok a) = ok a
of_attempt (Attachments.err e) = err (attachment e)
of_attempt Attachments.panicked = panicked

module _ (crates : PayloadCrates) (e : Engines) (principal : Principal)
    (direction : Direction) where
  -- A payload that is a text, or neither.
  pub process_plain : Text → Outcome ProcessedPayload
  unfolding process_text
  process_plain body =
      if crates.is_utf8 body
      then (process_text e principal body (bytes "/") direction >>= λ r.
          ok (record { sanitized_body = r.redacted_text; policy = r.policy }))
      else ok (passthrough body)

  pub process_json : Text → Option Value → Outcome ProcessedPayload
  unfolding sanitize_json_value process_plain
  process_json body none = process_plain body
  process_json body (some value) =
      sanitize_json_value crates.assign e principal value direction >>= λ r. ok (record {
        sanitized_body = printed body (crates.print_json r.redacted_value);
        policy = r.policy;
      })

  pub process_unscanned : Option Text → Text → Outcome ProcessedPayload
  unfolding is_json process_json process_plain
  process_unscanned content_type body =
      if is_json content_type
      then process_json body (crates.parse_json body)
      else process_plain body

  abbrev pub scanned_or : Option Text → Text → Option ScanResult → Outcome ProcessedPayload
  scanned_or content_type body none = process_unscanned content_type body
  scanned_or content_type body (some scan) =
      ok (record { sanitized_body = scan.sanitized_body; policy = scan.policy })

  -- `process_payload`
  unfoldable pub process_payload : AttachmentConfig → Option Text → Text → Outcome ProcessedPayload
  unfolding is_multipart_form scan_request process_unscanned
  process_payload config content_type body = elim direction [
    | response ↦ process_unscanned content_type body
    | request ↦
        if is_multipart_form content_type
        then of_attempt (scan_request crates.documents e config principal body content_type)
          >>= scanned_or content_type body
        else process_unscanned content_type body
  ]
