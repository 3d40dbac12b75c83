-- ===== src/Proxy/Request/Override.antt =====
-- src/proxy.rs: a request that an admin has decided on before.
use ctxward.Prelude.{ℕ, ◌≡◌, refl, Option, none, some, Text, arith}
use ctxward.Core.Types.{allow, redact, review, block, request}
use ctxward.Core.Policy.{PolicyOutcome}
use ctxward.Proxy.Outcome.{outcome, apply_opa_policy, action_code, decision_status}
use ctxward.Review.Tickets.{
  ReviewDecisionOverride, override_approved, override_rejected, ReviewStoreError,
}
use ctxward.Review.{Inner, lookup_override, pending_count}
use ctxward.Proxy.Request.Audited.{AuditContext}
use ctxward.Proxy.Decide.{
  audit_context, ProxyRequest, Gateway, ProxyRuntime, record_session, with_session,
  review_fingerprint, review_override, override_by_decision, read_gauges, decide_outcome,
  decide_request,
}
use ctxward.Proxy.Request.{ProxyResult, forwarded, refused, finish_request, carry_out, handle_proxy}
use ctxward.Proxy.Request.Forwarded.{header_ticket-none}

-- What the client gets by an admin's decision, or nothing if it stays with the policy: an approved
-- action is one of a ticket, to allow or to redact.
unfoldable pub answer_to : ProxyRequest → ReviewDecisionOverride → Option ProxyResult
answer_to r (override_rejected id by) = some (refused 403 (action_code block))
answer_to r (override_approved id allow by) = some (forwarded r.body)
answer_to r (override_approved id redact by) = some (forwarded r.processed.sanitized_body)
answer_to r (override_approved id review by) = none
answer_to r (override_approved id block by) = none

-- The overridden policy is carried out as the admin decided.
carry_out-answer :
    (rt : ProxyRuntime) (now : ℕ) (id : Text) (fault : Option ReviewStoreError) (r : ProxyRequest)
    (g : Gateway) (policy : PolicyOutcome) (context : AuditContext) (d : ReviewDecisionOverride)
    (answer : ProxyResult)
    → answer_to r d ≡ some answer
    → (carry_out rt now id fault r (override_by_decision (some d) policy) context g).1 ≡ answer
unfolding carry_out override_by_decision answer_to decision_status
carry_out-answer rt now id fault r g policy context (override_rejected t by) answer h = ground arith
carry_out-answer rt now id fault r g policy context (override_approved t allow by) answer h =
    ground arith
carry_out-answer rt now id fault r g policy context (override_approved t redact by) answer h =
    ground arith
carry_out-answer rt now id fault r g policy context (override_approved t review by) answer h =
    absurd (ground arith)
carry_out-answer rt now id fault r g policy context (override_approved t block by) answer h =
    absurd (ground arith)

review_override-some :
    (now : ℕ) (fingerprint : Text) (r : ProxyRequest) (policy : PolicyOutcome) (s : Inner)
    (d : ReviewDecisionOverride)
    → r.review_ticket_header ≡ none
    → (lookup_override now fingerprint s).1 ≡ some d
    → (review_override now fingerprint r policy s).1 ≡ override_by_decision (some d) policy
unfolding review_override
review_override-some now fingerprint r policy s d no_ticket found =
    let no_header = header_ticket-none now r s no_ticket in
    rw (review_override, no_header, no_header, found) refl

-- A request without a ticket, whose fingerprint an admin has decided on, gets that decision,
-- whatever the built-in policy, the session and OPA say, unless OPA fails: a rejected one is
-- blocked, and of an approved one the body or the sanitized body is sent.
pub handle_proxy-decided :
    (rt : ProxyRuntime) (now : ℕ) (id : Text) (fault : Option ReviewStoreError) (r : ProxyRequest)
    (g : Gateway) (policy : PolicyOutcome) (d : ReviewDecisionOverride) (answer : ProxyResult)
    → r.review_ticket_header ≡ none
    → (lookup_override now
        (review_fingerprint rt.sha256_hex r.principal r.path_and_query r.request_sha256)
        (pending_count now g.reviews.inner).0).1
      ≡ some d
    → (let escalated = (record_session rt.session now r g.sessions).1 in
        apply_opa_policy rt.opa r.principal request r.path_and_query escalated
          (with_session rt.session escalated r.processed.policy))
      ≡ outcome policy
    → answer_to r d ≡ some answer
    → (handle_proxy rt now id fault r g).1 ≡ answer
unfolding handle_proxy decide_request decide_outcome finish_request read_gauges
handle_proxy-decided rt now id fault r g policy d answer no_ticket found o a =
    let session = record_session rt.session now r g.sessions in
    let fingerprint =
      review_fingerprint rt.sha256_hex r.principal r.path_and_query r.request_sha256 in
    let kept =
      review_override-some now fingerprint r policy
        (read_gauges rt.session now session.0 g).reviews.inner d no_ticket found in
    let after =
      (decide_outcome rt now r session.1 (read_gauges rt.session now session.0 g)
        (outcome policy)).0 in
    rw (o, kept)
      (carry_out-answer rt now id fault r after policy (audit_context r session.1) d answer a)
