-- ===== src/Mitm/Handler/Guard.antt =====
-- src/mitm/mod.rs: what goes upstream of a request, and what a client gets of a response.
use ctxward.Prelude.{
  ℕ, ◌≡◌, refl, ap, ◌∙◌, Bool, true, false, Bool-cases, inl, inr, not, ◌&&◌, ◌||◌, Option, none,
  some, [], ◌∷◌, map, Text, bytes, All, text_eq, text_eq_iff, eq_text, if◌then◌else◌,
}
use ctxward.Core.Auth.{Principal}
use ctxward.Core.Types.{request, response, block, same_action}
use ctxward.Audit
use ctxward.App.Engines.{Engines}
use ctxward.App.Errors.{Outcome, ok, err, panicked}
use ctxward.Attachments.Request.{AttachmentConfig}
use ctxward.Proxy.Headers.{HeaderMap}
use ctxward.Proxy.Response.{ProcessedPayload, is_sse}
use ctxward.Proxy.Request.Audited.{build_audit_record}
use ctxward.Proxy.Payload.{PayloadCrates}
use ctxward.Proxy.Sse.{SseTransformResult}
use ctxward.Proxy.Sse.Chunks.{all_lines}
use ctxward.Mitm.Classify.{signs_body}
use ctxward.Mitm.Usage.{model_from_request}
use ctxward.Mitm.Stream.Lines.{readable, redact_sse_stream-lines}
use ctxward.Mitm.Handler.{
  Message, Handler, RequestOrResponse, answered, sent, handler_panicked, Delivered, replaced,
  delivered, streamed, untouched, delivery_panicked, header_value, visible, strip_framing_headers,
  count_model, telemetry_context, emit_decision_telemetry, ResponseFiltering, request_host,
  filter_body, outbound, finish_request, with_decoded, handle_request, finish_response,
  with_decoded_response, handle_response,
}

abbrev pub IsUnframed : HeaderMap → Type 0
IsUnframed headers =
    All
      (λ (h : Text × Text).
        (text_eq h.0 (bytes "content-length") ≡ false)
        × (text_eq h.0 (bytes "transfer-encoding") ≡ false))
      headers

strip_framing_headers-IsUnframed :
    (headers : HeaderMap) → IsUnframed (strip_framing_headers headers)
unfolding strip_framing_headers
strip_framing_headers-IsUnframed [] = tt
strip_framing_headers-IsUnframed ((name, v) ∷ headers) =
    elim (Bool-cases (text_eq name (bytes "content-length"))) [
      | inl a ↦ rw a (strip_framing_headers-IsUnframed headers)
      | inr a ↦ elim (Bool-cases (text_eq name (bytes "transfer-encoding"))) [
        | inl b ↦ rw (a, b) (strip_framing_headers-IsUnframed headers)
        | inr b ↦ rw (a, b) ((a, b), strip_framing_headers-IsUnframed headers)
      ]
    ]

module _ (crates : PayloadCrates) (to_str : Text → Option Text) (decode : Message → Option Message)
    (e : Engines) (config : AttachmentConfig) (principal : Principal) where
  -- The body that goes upstream: the one that came, if its host checks a signature of it, and else
  -- the sanitized one.
  outbound-choice :
      (h : Handler) (host raw sanitized : Text)
      → outbound crates to_str decode e config principal h host raw sanitized
        ≡ (if signs_body h.classifier host then raw else sanitized)
  unfolding outbound
  outbound-choice h host raw sanitized = elim (Bool-cases (signs_body h.classifier host)) [
    | inl s ↦ elim (Bool-cases (text_eq sanitized raw)) [
      | inl q ↦ rw (s, q) ((text_eq_iff sanitized raw).0 q)
      | inr q ↦ rw (s, q) refl
    ]
    | inr s ↦ rw s refl
  ]

  -- What goes upstream: the request was decoded and processed, is not blocked, and is audited.
  pub record IsForwarded (now : ℕ) (request_id : Text) (m : Message) (h h' : Handler)
      (headers : HeaderMap) (body : Text) : Type 0 where
    pub decoded : Message
    pub raw : Text
    pub processed : ProcessedPayload
    pub decodes : decode m ≡ some decoded
    pub filtered :
        filter_body crates to_str decode e config principal request decoded ≡ ok (raw, processed)
    pub not_blocked : same_action processed.policy.decision block ≡ false
    pub what : body ≡ (
        if signs_body h.classifier (request_host crates to_str decode e config principal decoded)
        then raw
        else processed.sanitized_body)
    pub unframed : IsUnframed headers
    pub audited :
        h'.audit
        ≡ Audit.push
            (build_audit_record now principal request processed.policy.decision processed.policy
              (telemetry_context request_id decoded.path_and_query)
              none)
            h.audit

  abbrev pub IsGuarded : ℕ → Text → Message → Handler → Handler × RequestOrResponse → Type 0
  IsGuarded now request_id m h (h', answered status text) = Unit
  IsGuarded now request_id m h (h', sent headers body) =
      IsForwarded now request_id m h h' headers body
  IsGuarded now request_id m h (h', handler_panicked) = Unit

  count_model-keeps :
      (model : Option Text) (h : Handler)
      → ((count_model model h).classifier ≡ h.classifier) × ((count_model model h).audit ≡ h.audit)
  count_model-keeps none h = (refl, refl)
  count_model-keeps (some model) h = (refl, refl)

  finish_request-IsGuarded :
      (now : ℕ) (request_id : Text) (m decoded : Message) (h : Handler)
      (o : Outcome (Text × ProcessedPayload))
      → decode m ≡ some decoded
      → filter_body crates to_str decode e config principal request decoded ≡ o
      → IsGuarded now request_id m h
          (finish_request crates to_str decode e config principal now request_id decoded h o)
  unfolding finish_request emit_decision_telemetry Audit.push build_audit_record
  finish_request-IsGuarded now request_id m decoded h (err error) d f = tt
  finish_request-IsGuarded now request_id m decoded h panicked d f = tt
  finish_request-IsGuarded now request_id m decoded h (ok (raw, processed)) d f =
      let model = model_from_request crates.parse_json raw in
      let k = count_model-keeps model h in
      let host = request_host crates to_str decode e config principal decoded in
      let h' =
        emit_decision_telemetry now principal request request_id decoded.path_and_query
          processed.policy none (count_model model h) in
      elim (Bool-cases (same_action processed.policy.decision block)) [
        | inl b ↦ rw b tt
        | inr b ↦ rw b (record {
          decoded = decoded;
          raw = raw;
          processed = processed;
          decodes = d;
          filtered = f;
          not_blocked = b;
          what =
              outbound-choice h' host raw processed.sanitized_body
              ∙ ap (λ c. if signs_body c host then raw else processed.sanitized_body) k.0;
          unframed = strip_framing_headers-IsUnframed decoded.headers;
          audited =
              ap
                (Audit.push (
                  build_audit_record now principal request processed.policy.decision
                    processed.policy (telemetry_context request_id decoded.path_and_query) none))
                k.1;
        })
      ]

  with_decoded-IsGuarded :
      (now : ℕ) (request_id : Text) (m : Message) (h : Handler) (o : Option Message)
      → decode m ≡ o
      → IsGuarded now request_id m h
          (with_decoded crates to_str decode e config principal now request_id h o)
  with_decoded-IsGuarded now request_id m h none d = tt
  with_decoded-IsGuarded now request_id m h (some decoded) d =
      finish_request-IsGuarded now request_id m decoded h
        (filter_body crates to_str decode e config principal request decoded) d refl

  -- Whatever request comes: if it goes upstream, then it was decoded and processed without an error,
  -- its decision is not block and is in the audit, no header tells the length or the framing of the
  -- body that came, and the body is the sanitized one, but for a host that checks a signature of the
  -- body, which gets the body as it came.
  pub handle_request-IsGuarded :
      (now : ℕ) (request_id : Text) (m : Message) (h : Handler)
      → IsGuarded now request_id m h
          (handle_request crates to_str decode e config principal now request_id m h)
  unfolding handle_request
  handle_request-IsGuarded now request_id m h =
      with_decoded-IsGuarded now request_id m h (decode m) refl

  module _ (text_of : Text → Text) (transform : Text → SseTransformResult)
      (rt : ResponseFiltering) where
    -- What a client gets of a response.
    abbrev pub IsScrubbed : Message → Delivered → Type 0
    IsScrubbed m (replaced status text) = Unit
    IsScrubbed m (delivered headers body) =
        (decoded : Message) × (raw : Text) × (processed : ProcessedPayload) × (decode m
          ≡ some decoded)
        × (filter_body crates to_str decode e config principal response decoded
            ≡ ok (raw, processed))
        × (body ≡ processed.sanitized_body)
        × IsUnframed headers
    IsScrubbed m (streamed headers lines) =
        lines ≡ map (λ l. (transform (text_of l)).line) (all_lines (readable m.frames))
    IsScrubbed m (untouched m') =
        (m' ≡ m)
        × (is_sse (visible to_str (header_value (bytes "content-type") m.headers)) ≡ true)
        × ((rt.enabled && rt.scan_sse) ≡ false)
    IsScrubbed m delivery_panicked = Unit

    finish_response-IsScrubbed :
        (now : ℕ) (m decoded : Message) (h : Handler) (o : Outcome (Text × ProcessedPayload))
        → decode m ≡ some decoded
        → filter_body crates to_str decode e config principal response decoded ≡ o
        → IsScrubbed m (finish_response crates to_str decode e config principal now decoded h o).1
    unfolding finish_response
    finish_response-IsScrubbed now m decoded h (err error) d f = tt
    finish_response-IsScrubbed now m decoded h panicked d f = tt
    finish_response-IsScrubbed now m decoded h (ok (raw, processed)) d f =
        (decoded, raw, processed, d, f, refl, strip_framing_headers-IsUnframed decoded.headers)

    with_decoded_response-IsScrubbed :
        (now : ℕ) (m : Message) (h : Handler) (o : Option Message)
        → decode m ≡ o
        → IsScrubbed m (with_decoded_response crates to_str decode e config principal now h o).1
    with_decoded_response-IsScrubbed now m h none d = tt
    with_decoded_response-IsScrubbed now m h (some decoded) d =
        finish_response-IsScrubbed now m decoded h
          (filter_body crates to_str decode e config principal response decoded) d refl

    off_scan : (a b : Bool) → (not a || not b) ≡ true → (a && b) ≡ false
    off_scan true true h = cc
    off_scan true false h = refl
    off_scan false b h = refl

    -- Whatever response comes: a body that a client gets is the sanitized body of a response that was
    -- decoded and processed without an error; the lines of an event stream are the transformed lines
    -- of what is read of it; and only a stream passes as it came, where the scan of streams is off.
    pub handle_response-IsScrubbed :
        (now : ℕ) (m : Message) (h : Handler)
        → IsScrubbed m
            (handle_response crates to_str decode e config principal text_of transform rt now m h).1
    unfolding handle_response
    handle_response-IsScrubbed now m h =
        elim (Bool-cases
          (is_sse (visible to_str (header_value (bytes "content-type") m.headers)))) [
            | inl s ↦ elim (Bool-cases (not rt.enabled || not rt.scan_sse)) [
              | inl o ↦ rw (handle_response, s, o) (refl, s, off_scan rt.enabled rt.scan_sse o)
              | inr o ↦
                  rw (handle_response, s, o)
                    (redact_sse_stream-lines crates.parse_json text_of transform m.frames).0
            ]
            | inr s ↦
                rw (handle_response, s) (with_decoded_response-IsScrubbed now m h (decode m) refl)
          ]
