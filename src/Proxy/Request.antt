-- ===== src/Proxy/Request.antt =====
-- src/proxy.rs: `handle_proxy`, whose decided request is sent upstream, answered or refused.
-- The clock is read once for the whole request. Metrics and the sending itself are not modelled.
pub mod Audited
pub mod Override
pub mod Forwarded
use ctxward.Prelude.{
  ℕ, Bool, true, false, not, ◌&&◌, Option, none, some, List, [], ◌∷◌, ◌++◌, Text, bytes, text_eq,
  map, take, if◌then◌else◌,
}
use ctxward.Core.Auth.{Principal}
use ctxward.Core.Types.{
  Direction, request, DecisionAction, allow, redact, review, block, combine, same_action,
}
use ctxward.Core.Policy.{ResolvedFinding, PolicyOutcome}
use ctxward.Core.Session.{SessionConfig, SessionStore, record_and_check, active_sessions}
use ctxward.Audit.{AuditRecord, AuditStore}
use ctxward.Audit
use ctxward.Review.Tickets.{
  ReviewStatus, pending, approved, rejected, ReviewTicket, NewReviewTicket, ReviewDecisionOverride,
  override_approved, override_rejected, ReviewStoreError,
}
use ctxward.Review.{
  Inner, ReviewStore, Upserted, upsert_pending, ticket_ok, store_error, lookup_override, get,
  pending_count,
}
use ctxward.Proxy.Outcome.{
  OpaAuthorizer, OpaOutcome, outcome, opa_error, apply_opa_policy, action_name, action_code,
  decision_status,
}
use ctxward.Proxy.Response.{ProcessedPayload}
use ctxward.Proxy.Decide.{
  Decided, Gateway, ProxyRequest, ProxyRuntime, audit_context, decide_outcome, decide_request,
  decided, header_ticket, is_own_ticket, join, override_by_decision, override_by_ticket,
  post_review_action, preview_of, read_gauges, record_session, request_decision, review_fingerprint,
  review_override, undecided, with_override, with_session,
}
use Audited.{AuditContext, audit_finding, build_audit_record}

pub data ProxyResult : Type 0 where
  forwarded : Text → ProxyResult
  review_required : ℕ → Text → Text → DecisionAction → ProxyResult
  refused : ℕ → Text → ProxyResult
  opa_failed : Text → ProxyResult
  review_store_failed : ReviewStoreError → ProxyResult

-- The ticket that a request for review asks for.
pub new_ticket : ProxyRuntime → ProxyRequest → PolicyOutcome → Bool → NewReviewTicket
unfolding preview_of post_review_action review_fingerprint audit_finding
new_ticket rt r policy session_escalated = record {
  request_id = r.request_id;
  principal = r.principal.name;
  tenant_id = r.principal.tenant_id;
  direction = bytes "request";
  path = r.path_and_query;
  policy_source = policy.source;
  decision_reason = policy.reason;
  matched_labels = map (λ f. f.label) policy.findings;
  matched_rules = map (λ f. f.rule_name) policy.findings;
  findings = map audit_finding policy.findings;
  session_id = r.session_id;
  session_escalated = session_escalated;
  request_sha256 = r.request_sha256;
  sanitized_preview = some (preview_of rt.chars rt.preview_chars r.processed.sanitized_body);
  post_approval_action = post_review_action r.processed.policy.decision;
  fingerprint = review_fingerprint rt.sha256_hex r.principal r.path_and_query r.request_sha256;
}

pub emit : ℕ → ProxyRequest → PolicyOutcome → AuditContext → Option ℕ → Gateway → Gateway
unfolding build_audit_record Audit.push
emit now r policy context status g = record g {
  audit =
      Audit.push (build_audit_record now r.principal request policy.decision policy context status)
        g.audit;
}

pub reason_with_ticket : Option Text → Text → Text
reason_with_ticket none id = bytes "admin approval required" ++ (bytes "; review_ticket_id=" ++ id)
reason_with_ticket (some reason) id = reason ++ (bytes "; review_ticket_id=" ++ id)

-- The answer to a request for review, by what the store did.
unfoldable pub answer_upserted :
    ℕ → ProxyRequest → PolicyOutcome → AuditContext → Gateway → Upserted → Gateway × ProxyResult
unfolding pending_count reason_with_ticket emit decision_status action_code post_review_action
answer_upserted now r policy context g (store_error err) = (g, review_store_failed err)
answer_upserted now r policy context g (ticket_ok ticket) =
    let policy' = record policy { reason = some (reason_with_ticket policy.reason ticket.id) } in
    let reviews = record g.reviews { inner = (pending_count now g.reviews.inner).0 } in
    (
      emit now r policy' context (some (decision_status review)) (record g { reviews = reviews }),
      review_required (decision_status review) (action_code review) ticket.id
          (post_review_action r.processed.policy.decision),
    )

unfoldable pub answer_review :
    ProxyRuntime
    → ℕ
    → Text
    → Option ReviewStoreError
    → ProxyRequest
    → PolicyOutcome
    → AuditContext
    → Gateway
    → Gateway × ProxyResult
unfolding new_ticket upsert_pending answer_upserted
answer_review rt now id fault r policy context g =
    let upserted =
      upsert_pending now id fault (new_ticket rt r policy context.session_escalated) g.reviews in
    answer_upserted now r policy context (record g { reviews = upserted.0 }) upserted.1

-- The end of `handle_proxy`: a block or a review is answered, anything else is sent on.
unfoldable pub carry_out :
    ProxyRuntime
    → ℕ
    → Text
    → Option ReviewStoreError
    → ProxyRequest
    → PolicyOutcome
    → AuditContext
    → Gateway
    → Gateway × ProxyResult
unfolding emit answer_review decision_status action_code
carry_out rt now id fault r policy context g = elim policy.decision [
  | block ↦ (
    emit now r policy context (some (decision_status block)) g,
    refused (decision_status block) (action_code block),
  )
  | review ↦ answer_review rt now id fault r policy context g
  | redact ↦ (emit now r policy context none g, forwarded r.processed.sanitized_body)
  | allow ↦ (emit now r policy context none g, forwarded r.body)
]

unfoldable pub finish_request :
    ProxyRuntime
    → ℕ
    → Text
    → Option ReviewStoreError
    → ProxyRequest
    → Gateway
    → Decided
    → Gateway × ProxyResult
unfolding carry_out
finish_request rt now id fault r g (undecided err) = (g, opa_failed err)
finish_request rt now id fault r g (decided policy context) =
    carry_out rt now id fault r policy context g

-- `handle_proxy`, once the request is processed, up to the request for the upstream, which can still
-- fail (`send_upstream` of Proxy/Handler); `id` is the UUID of a new ticket.
unfoldable pub handle_proxy :
    ProxyRuntime
    → ℕ
    → Text
    → Option ReviewStoreError
    → ProxyRequest
    → Gateway
    → Gateway × ProxyResult
unfolding decide_request finish_request
handle_proxy rt now id fault r g =
    let step = decide_request rt now r g in finish_request rt now id fault r step.0 step.1
