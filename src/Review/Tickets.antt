-- ===== src/Review/Tickets.antt =====
-- src/review.rs: tickets, overrides and the events of the log. Instants are numbers of
-- nanoseconds.
use ctxward.Prelude.{ℕ, Bool, Option, none, some, List, Text}
use ctxward.Core.Types.{DecisionAction}
use ctxward.Audit.{AuditFinding}

pub data ReviewStatus : Type 0 where
  pending approved rejected : ReviewStatus

pub record ReviewResolution : Type 0 where
  pub resolved_at : ℕ
  pub resolved_by : Text
  pub note : Option Text
  pub expires_at : Option ℕ

pub record ReviewTicket : Type 0 where
  pub id : Text
  pub created_at : ℕ
  pub updated_at : ℕ
  pub status : ReviewStatus
  pub request_id : Text
  pub principal : Text
  pub tenant_id : Text
  pub direction : Text
  pub path : Text
  pub policy_source : Text
  pub decision_reason : Option Text
  pub matched_labels : List Text
  pub matched_rules : List Text
  pub findings : List AuditFinding
  pub session_id : Option Text
  pub session_escalated : Bool
  pub request_sha256 : Text
  pub sanitized_preview : Option Text
  pub post_approval_action : DecisionAction
  pub resolution : Option ReviewResolution
  pub fingerprint : Text

pub record NewReviewTicket : Type 0 where
  pub request_id : Text
  pub principal : Text
  pub tenant_id : Text
  pub direction : Text
  pub path : Text
  pub policy_source : Text
  pub decision_reason : Option Text
  pub matched_labels : List Text
  pub matched_rules : List Text
  pub findings : List AuditFinding
  pub session_id : Option Text
  pub session_escalated : Bool
  pub request_sha256 : Text
  pub sanitized_preview : Option Text
  pub post_approval_action : DecisionAction
  pub fingerprint : Text

-- `ReviewDecisionOverride`
pub data ReviewDecisionOverride : Type 0 where
  override_approved : Text → DecisionAction → Text → ReviewDecisionOverride
  override_rejected : Text → Text → ReviewDecisionOverride

pub data ReviewFilterStatus : Type 0 where
  only_pending only_approved only_rejected all_tickets : ReviewFilterStatus

pub record StoredOverride : Type 0 where
  pub decision : ReviewDecisionOverride
  pub expires_at : ℕ

-- `PersistedReviewTicket` has the fields of `ReviewTicket`, and differs only in that its
-- fingerprint is written to the log: `from_ticket` and `into_ticket` copy every field.
abbrev pub PersistedReviewTicket : Type 0
PersistedReviewTicket = ReviewTicket

pub record Resolved : Type 0 where
  pub ticket_id : Text
  pub status : ReviewStatus
  pub resolved_by : Text
  pub note : Option Text
  pub resolved_at : ℕ
  pub expires_at : ℕ

pub data ReviewEvent : Type 0 where
  created : PersistedReviewTicket → ReviewEvent
  resolved : Resolved → ReviewEvent

pub data ReviewStoreError : Type 0 where
  open_failed append_failed serialize_failed : ReviewStoreError

pub data ReviewResolveError : Type 0 where
  not_found : ReviewResolveError
  already_resolved : ReviewStatus → ReviewResolveError

-- The ticket that `upsert_pending` makes of a request.
unfoldable pub new_pending : Text → ℕ → NewReviewTicket → ReviewTicket
new_pending id now n = record {
  id = id;
  created_at = now;
  updated_at = now;
  status = pending;
  request_id = n.request_id;
  principal = n.principal;
  tenant_id = n.tenant_id;
  direction = n.direction;
  path = n.path;
  policy_source = n.policy_source;
  decision_reason = n.decision_reason;
  matched_labels = n.matched_labels;
  matched_rules = n.matched_rules;
  findings = n.findings;
  session_id = n.session_id;
  session_escalated = n.session_escalated;
  request_sha256 = n.request_sha256;
  sanitized_preview = n.sanitized_preview;
  post_approval_action = n.post_approval_action;
  resolution = none;
  fingerprint = n.fingerprint;
}

-- The ticket after a resolution.
unfoldable pub resolve_ticket : Resolved → ReviewTicket → ReviewTicket
resolve_ticket r t = record t {
  status = r.status;
  updated_at = r.resolved_at;
  resolution = some (record {
    resolved_at = r.resolved_at;
    resolved_by = r.resolved_by;
    note = r.note;
    expires_at = some r.expires_at;
  });
}

-- What a resolution decides for later requests; a resolution as pending decides nothing.
unfoldable pub override_for : Resolved → ReviewTicket → Option ReviewDecisionOverride
override_for r t = elim r.status [
  | approved ↦ some (override_approved t.id t.post_approval_action r.resolved_by)
  | rejected ↦ some (override_rejected t.id r.resolved_by)
  | pending ↦ none
]
