-- ===== src/Tests/Payloads.antt =====
-- JSON values, texts and multipart bodies through the pipeline.
use ctxward.Prelude.{◌≡◌, refl, false, none, some, [], ◌∷◌, bytes, text_eq}
use ctxward.Prelude.Decimal.{decimal}
use ctxward.Prelude.Ascii.{upper_byte}
use ctxward.Core.Detect.Findings.{new_finding}
use ctxward.Core.Types.{same_action, at_least, public, request, low, allow, redact, placeholder}
use ctxward.Core.RedactApi.{local_principal, redact_value}
use ctxward.Core.Detect.Scan.{to_metadata, should_ignore_pointer}
use ctxward.Presidio.{
  PresidioEntityConfig, PresidioAnalyzer, answered, results, entity_map_of, analyze,
}
use ctxward.Presidio.Boundaries.{IsFine, analyze-IsFine}
use ctxward.App.Engines.{Engines}
use ctxward.App.Errors.{Outcome, ok, ◌>>=◌}
use ctxward.Json.{
  escape_key, Value, null, number, unsigned, string, array, object, nil, cons, end, field,
}
use ctxward.Json.Pointers.{HasUniqueKeys}
use ctxward.Json.Reference.{assign, assign-PointerLaws}
use ctxward.Proxy.Payload.{JsonProcessResult, process_text, sanitize_json_value}
use ctxward.Proxy.Payload.Rewrite.{rewrite, json_result, sanitize_json_value-rewrite}
use ctxward.Proxy.Payload.Api.{IsLocal, sanitize_json_value-redact_value}
use ctxward.Tests.Detection.{detector, digest, distinct}

abbrev pub engines : Engines
engines = record {
  sha256_hex = digest;
  sum_at_least = distinct;
  detector = detector;
  presidio = none;
  tokenizer = λ pointer. none;
}

-- {"t/~": "a@b", "n": [1, "x"]}
abbrev value : Value
value = object (
    field (bytes "t/~") (string (bytes "a@b"))
      (field (bytes "n") (array (cons (number (unsigned 1)) (cons (string (bytes "x")) nil))) end))

value_unique : HasUniqueKeys value
unfolding text_eq
value_unique = ((refl, tt), tt, (tt, (tt, (tt, tt)), tt))

sanitize_json_value-rewrite_example :
    sanitize_json_value assign engines local_principal value request ≡ (
      rewrite
        (should_ignore_pointer engines.detector)
        (λ text pointer. process_text engines local_principal text pointer request)
        []
        value
      >>= λ r. ok (json_result r))
sanitize_json_value-rewrite_example =
    sanitize_json_value-rewrite assign engines local_principal value request assign-PointerLaws
      value_unique

abbrev json_or_null : Outcome JsonProcessResult → JsonProcessResult
json_or_null (ok r) = r
json_or_null other = record {
  redacted_value = null;
  policy = record { decision = allow; findings = []; source = []; reason = none };
}

engines-IsLocal : IsLocal engines
unfolding should_ignore_pointer
engines-IsLocal = record { no_presidio = refl; no_tokenizer = λ p. refl; ignores_none = λ p. refl }

sanitize_json_value-redact_value_example :
    redact_value digest distinct detector value
    ≡ some (
        object (
          field (bytes "t/~") (string (bytes "[EMAIL]")) (
            field
              (bytes "n")
              (array (cons (number (unsigned 1)) (cons (string (bytes "x")) nil)))
              end)))
unfolding sanitize_json_value assign text_eq same_action at_least new_finding to_metadata escape_key
    decimal upper_byte
sanitize_json_value-redact_value_example =
    sanitize_json_value-redact_value assign engines value
      (json_or_null (sanitize_json_value assign engines local_principal value request))
      assign-PointerLaws value_unique engines-IsLocal refl

abbrev person : PresidioEntityConfig
person = record {
  entity_type = bytes "PERSON";
  label = bytes "NAME";
  severity = low;
  authorized_action = allow;
  unauthorized_action = redact;
  min_clearance = public;
  masking = placeholder;
  min_score = 5;
}

abbrev analyzer : PresidioAnalyzer
analyzer = record {
  exchange = λ text. answered 200 [] (
      results (
        record { start = 1; end = 99; score = 7; entity_type = bytes "PERSON" }
        ∷ record { start = 0; end = 1; score = 7; entity_type = bytes "PERSON" }
        ∷ []));
  entity_map = entity_map_of (person ∷ []) [];
  score_below = λ score least. false;
}

-- The text is an "é" and an "a".
analyze-IsFine_example :
    IsFine
      (195 ∷ 169 ∷ 97 ∷ [])
      (bytes "/x")
      (analyze digest analyzer (195 ∷ 169 ∷ 97 ∷ []) (bytes "/x"))
analyze-IsFine_example = analyze-IsFine digest analyzer (195 ∷ 169 ∷ 97 ∷ []) (bytes "/x")
