-- ===== src/Proxy/Decide.antt =====
-- src/proxy.rs: the decision on a request in `handle_proxy`: the session's, OPA's, and the
-- overrides by earlier reviews. The clock is read once for the whole request.
use ctxward.Prelude.{
  ℕ, Bool, true, false, ◌&&◌, Option, none, some, List, [], ◌∷◌, ◌++◌, Text, bytes, text_eq, map,
  take, if◌then◌else◌,
}
use ctxward.Core.Auth.{Principal}
use ctxward.Core.Types.{request, DecisionAction, allow, redact, block, combine, same_action}
use ctxward.Core.Policy.{PolicyOutcome}
use ctxward.Core.Session.{SessionConfig, SessionStore, record_and_check, active_sessions}
use ctxward.Audit.{AuditRecord, AuditStore}
use ctxward.Review.Tickets.{
  pending, approved, rejected, ReviewTicket, ReviewDecisionOverride, override_approved,
  override_rejected,
}
use ctxward.Review.{Inner, ReviewStore, lookup_override, get, pending_count}
use ctxward.Proxy.Outcome.{OpaAuthorizer, OpaOutcome, outcome, opa_error, apply_opa_policy}
use ctxward.Proxy.Response.{ProcessedPayload}
use ctxward.Proxy.Request.Audited.{AuditContext}

-- A request whose body is read and processed.
pub record ProxyRequest : Type 0 where
  pub request_id : Text
  pub principal : Principal
  pub path_and_query : Text
  pub body : Text
  pub request_sha256 : Text
  pub review_ticket_header : Option Text
  pub session_id : Option Text
  pub processed : ProcessedPayload

-- The state that requests share.
pub record Gateway : Type 0 where
  pub sessions : SessionStore
  pub reviews : ReviewStore
  pub audit : AuditStore AuditRecord

unfoldable pub review_fingerprint : (Text → Text) → Principal → Text → Text → Text
review_fingerprint sha256_hex principal path request_sha256 =
    sha256_hex (principal.tenant_id ++ (bytes "|" ++ (path ++ (bytes "|" ++ request_sha256))))

abbrev pub join : List Text → Text
join [] = []
join (t ∷ ts) = t ++ join ts

-- `preview_text` of a body: `chars` gives the characters of a text, or none if it is not UTF-8.
unfoldable pub preview_of : (Text → Option (List Text)) → ℕ → Text → Text
preview_of chars max_chars body = elim (chars body) [
  | none ↦ take max_chars (bytes "[binary request body]")
  | some cs ↦ join (take max_chars cs)
]

-- The turn of the session, if the request names one.
unfoldable pub record_session :
    SessionConfig → ℕ → ProxyRequest → SessionStore → SessionStore × Bool
unfolding record_and_check
record_session config now r sessions = elim r.session_id [
  | none ↦ (sessions, false)
  | some id ↦
      record_and_check config now id (map (λ f. f.label) r.processed.policy.findings) sessions
]

unfoldable pub request_decision : SessionConfig → Bool → DecisionAction → DecisionAction
unfolding combine
request_decision config session_escalated decision =
    if session_escalated then combine decision config.trigger_action else decision

unfoldable pub post_review_action : DecisionAction → DecisionAction
unfolding same_action
post_review_action decision = if same_action decision redact then redact else allow

-- The ticket of the header, if it is resolved and is one of this very request.
unfoldable pub is_own_ticket : ProxyRequest → ReviewTicket → Bool
is_own_ticket r ticket =
    (elim ticket.status [ pending ↦ false | approved ↦ true | rejected ↦ true ])
    && (text_eq ticket.principal r.principal.name
        && (text_eq ticket.path r.path_and_query && text_eq ticket.request_sha256 r.request_sha256))

unfoldable pub header_ticket : ℕ → ProxyRequest → Inner → Inner × Option ReviewTicket
unfolding is_own_ticket get
header_ticket now r s = elim r.review_ticket_header [
  | none ↦ (s, none)
  | some id ↦
      let found = get now id s in
      (
        found.0,
        elim found.1 [
          | none ↦ none
          | some ticket ↦ if is_own_ticket r ticket then some ticket else none
        ],
      )
]

abbrev pub with_override : DecisionAction → Text → Text → PolicyOutcome → PolicyOutcome
with_override decision source reason policy = record policy {
  decision = decision;
  source = source;
  reason = some reason;
}

pub override_by_ticket : ReviewTicket → PolicyOutcome → PolicyOutcome
override_by_ticket ticket policy = elim ticket.status [
  | approved ↦
      with_override ticket.post_approval_action (bytes "review_override_approved")
        (bytes "request approved via review ticket " ++ ticket.id) policy
  | rejected ↦
      with_override block (bytes "review_override_rejected")
        (bytes "request rejected via review ticket " ++ ticket.id) policy
  | pending ↦ policy
]

unfoldable pub override_by_decision : Option ReviewDecisionOverride → PolicyOutcome → PolicyOutcome
override_by_decision none policy = policy
override_by_decision (some (override_approved id action by)) policy =
    with_override action (bytes "review_override_approved")
      (bytes "request previously approved by admin review") policy
override_by_decision (some (override_rejected id by)) policy =
    with_override block (bytes "review_override_rejected")
      (bytes "request previously rejected by admin review") policy

-- The override by the header's ticket, or else by the fingerprint.
unfoldable pub review_override :
    ℕ → Text → ProxyRequest → PolicyOutcome → Inner → Inner × PolicyOutcome
unfolding header_ticket override_by_ticket override_by_decision lookup_override
review_override now fingerprint r policy s =
    let ticket = header_ticket now r s in
    elim ticket.1 [
      | some t ↦ (ticket.0, override_by_ticket t policy)
      | none ↦
          let found = lookup_override now fingerprint ticket.0 in
          (found.0, override_by_decision found.1 policy)
    ]

-- What the handler reads from the runtime.
pub record ProxyRuntime : Type 0 where
  pub session : SessionConfig
  pub preview_chars : ℕ
  pub opa : Option OpaAuthorizer
  pub sha256_hex : Text → Text
  pub chars : Text → Option (List Text)

pub data Decided : Type 0 where
  decided : PolicyOutcome → AuditContext → Decided
  undecided : Text → Decided

abbrev pub audit_context : ProxyRequest → Bool → AuditContext
audit_context r session_escalated = record {
  request_id = r.request_id;
  path_and_query = r.path_and_query;
  session_id = r.session_id;
  session_escalated = session_escalated;
}

-- The state after the two gauges (sessions and review queue) are read, which prunes both stores.
unfoldable pub read_gauges : SessionConfig → ℕ → SessionStore → Gateway → Gateway
unfolding active_sessions pending_count
read_gauges config now sessions g = record g {
  sessions = (active_sessions config now sessions).0;
  reviews = record g.reviews { inner = (pending_count now g.reviews.inner).0 };
}

-- The decision after OPA's: the overrides of earlier reviews.
unfoldable pub decide_outcome :
    ProxyRuntime → ℕ → ProxyRequest → Bool → Gateway → OpaOutcome → Gateway × Decided
unfolding review_fingerprint review_override
decide_outcome rt now r session_escalated g (opa_error err) = (g, undecided err)
decide_outcome rt now r session_escalated g (outcome policy) =
    let fingerprint =
      review_fingerprint rt.sha256_hex r.principal r.path_and_query r.request_sha256 in
    let final = review_override now fingerprint r policy g.reviews.inner in
    (
      record g { reviews = record g.reviews { inner = final.0 } },
      decided final.1 (audit_context r session_escalated),
    )

-- The built-in policy with the session's decision.
abbrev pub with_session : SessionConfig → Bool → PolicyOutcome → PolicyOutcome
with_session config session_escalated base = record base {
  decision = request_decision config session_escalated base.decision;
}

unfoldable pub decide_request : ProxyRuntime → ℕ → ProxyRequest → Gateway → Gateway × Decided
unfolding record_session read_gauges apply_opa_policy decide_outcome
decide_request rt now r g =
    let session = record_session rt.session now r g.sessions in
    decide_outcome rt now r session.1 (read_gauges rt.session now session.0 g) (
      apply_opa_policy rt.opa r.principal request r.path_and_query session.1
        (with_session rt.session session.1 r.processed.policy))
