-- ===== src/Lib.antt =====
-- Context Guard (ctxward): a gateway between programs and language models. A request is authenticated,
-- scanned for sensitive data, judged by a built-in policy and by OPA, and then sent on as it is, sent
-- on with its findings masked, held for an admin's review, or blocked; a response is filtered the
-- same way on its way back.
--
-- How the parts work together: the proxy asks the authenticator for the principal, the detector
-- for findings, the policy for a decision and the resolved findings, and the redactor for the sanitized
-- body (which may ask the tokenizer for reversible tokens). It records the labels of the session,
-- which may make the decision stricter, asks OPA, and looks for the decision of an earlier review. A
-- request that needs a review becomes a ticket of the review store, whose events are written to a file
-- and read back at the start. Every decision becomes an audit record. The
-- MITM proxy decides from a classifier which hosts it intercepts, and polls for a signed rule-set that
-- replaces this classifier; a message of such a host goes through the same process_payload as one of
-- the gateway: a multipart request is scanned part by part, each string of a JSON value is processed at
-- its pointer, and any other text as a whole. The redaction API scrubs a body without the gateway.
--
-- The files, and the code that each is about (paths from the repository's root):
--   Prelude      names passed on from the libraries, lists and tests over the native numbers, texts as
--                lists of bytes, the text functions of Rust's standard library, and HashMap as an
--                association list
--   Core/Types   crates/ctxward-core/src/types.rs: the enumerations, rank and combine
--   Core/Auth    crates/ctxward-core/src/auth.rs: Authenticator::new, authenticate
--   Core/Detect  crates/ctxward-core/src/detect.rs: Findings has the data, Entropy has
--                high_entropy_tokens, Scan has Detector::new and scan_text
--   Core/Policy  crates/ctxward-core/src/policy.rs: PolicyEngine::resolve
--   Core/Redact  crates/ctxward-core/src/redact.rs: apply_mask and redact_text
--   Core/Tokenize  crates/ctxward-core/src/tokenize.rs: from_config, tokenize, detokenize
--   Core/Session crates/ctxward-core/src/session.rs: record_and_check, active_sessions
--   Audit        src/audit.rs: AuditStore and read_recent_audit_file
--   Core/RedactApi  crates/ctxward-core/src/redact_api.rs: redact_json
--   Json         serde_json's Value with its pointers, and src/proxy.rs: collect_string_nodes
--   App          src/app.rs: AppError, and the part of RuntimeState that looks at a text
--   Presidio     src/presidio.rs: PresidioAnalyzer::analyze
--   Attachments  src/attachments.rs: Multipart has the parts of a body, Documents what is read of an
--                attachment, Scan what is found in it, Rewriting what is written again, Request has
--                scan_request
--   Review       src/review.rs: ReviewStore, one function for each method; Review/Tickets has the data
--   App/Reload   src/app.rs: RuntimeState::from_config and AppState::reload
--   Proxy/Outcome   src/opa.rs and src/proxy.rs: OpaDecision::merge, apply_opa_policy,
--                merge_policy_outcomes
--   Proxy/Decide    src/proxy.rs: the decision of handle_proxy on a processed payload
--   Proxy/Request   src/proxy.rs: handle_proxy from the processed payload on; Audited has the record
--   Proxy/Payload   src/proxy.rs: process_payload, sanitize_json_value, process_text; Rendered has the
--                payload of an event of a stream
--   Proxy/Handler   src/proxy.rs: proxy_handler, the end of handle_proxy with the request for the
--                upstream, and the audit of errors before it
--   Proxy/Admin     src/proxy.rs: admin_reviews, admin_reviews_resolve, admin_audits, admin_detokenize
--   Proxy/Response  src/proxy.rs: response_from_buffered_body
--   Proxy/Sse    src/proxy.rs: response_from_sse_stream and transform_sse_line
--   Proxy/Headers   src/proxy.rs: attach_forward_headers, copy_response_headers, and
--                the credentials that handle_proxy adds
--   Mitm/Hosts   crates/ctxward-core/src/config.rs: host patterns and the lists that are built in
--   Mitm/Classify   src/mitm/classify.rs: Classifier and PinCache
--   Mitm/Ruleset    src/mitm/ruleset.rs: parse_and_verify
--   Mitm/Usage   src/mitm/usage.rs: model_from_request, usage_from_response
--   Mitm/Stream  src/mitm/sse.rs: redact_sse_stream
--   Mitm/Handler src/mitm/mod.rs and src/mitm/bridge.rs: should_intercept, handle_request,
--                handle_response, filter_body
--   Mitm/Updater    src/proxy_mode.rs: spawn_ruleset_updater and fetch_ruleset
--   Tests        runs at concrete inputs
-- The modules below each of these prove what the list at the end says of it.
--
-- State: a store behind a lock is a value, and each of its methods a function from the store to the
-- new store and the result, since the lock is held for the whole of a method. handle_proxy passes the
-- Gateway record (sessions, reviews and audit buffer) along, as do proxy_handler and the admin's calls;
-- the MITM proxy has a Handler record (classifier, pins, audit buffer, calls of the metrics) for it. Instants are numbers of nanoseconds, given
-- as arguments; a handler reads the clock once. The review file is the list of its events; whether an
-- append fails is an argument. An error is a value of a result type of the part, and a Rust panic is a
-- value too where the code can reach it. Machine integers are the native numbers; the sizes and
-- offsets that the code computes stay far below 2^64, and its saturating subtractions are subtraction
-- here.
--
-- Bounds: drain_lines takes the length of the buffer as its fuel, and each line makes the buffer
-- shorter; trim_start_matches takes the length of the text in the same way, and the loop over the
-- parts of a multipart body takes the length of what is left and one more. A number has fewer digits
-- than itself and one more. All other loops are structural.
--
-- Parameters, for code of other packages: SHA-256, the regex crate, the cipher, Base64, hexadecimal
-- and serde_json, the comparison of the floating-point entropy with its threshold, the conversion of a
-- header to text, ed25519, hudsucker's decoding and reading of bodies, the crates for PDF, XML and ZIP
-- documents, the answer of the Presidio service with the comparison of its scores, and the OPA service.
-- What is assumed of them is named in RegexLaws, CrateLaws and PointerLaws; the last is what
-- Value::pointer_mut is documented to do, and Json/Reference has a function that does it.
-- Case and white space are those of ASCII.
--
-- Not modelled: the admin's pages on the status and the configuration, the metrics but for those on models and tokens, the benchmarks, the
-- platform commands and the desktop application; and, as pure I/O, the sockets, the files and the wiring
-- of the program. The sending to the upstream may fail; what the client then gets is not modelled. An
-- append to a file either writes its line or leaves none, and times to live are those that i64 holds.
pub mod Prelude
pub mod Core
pub mod Audit
pub mod Review
pub mod Presidio
pub mod Attachments
pub mod App
pub mod Json
pub mod Proxy
pub mod Mitm
pub mod Tests
