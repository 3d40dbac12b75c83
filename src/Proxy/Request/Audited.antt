-- ===== src/Proxy/Request/Audited.antt =====
-- src/proxy.rs: the audit record of a decision.
use ctxward.Prelude.{ℕ, Bool, Option, none, Text, bytes, map}
use ctxward.Core.Auth.{Principal}
use ctxward.Core.Types.{
  Direction, request, response, DecisionAction, Severity, low, medium, high, critical,
}
use ctxward.Core.Policy.{ResolvedFinding, PolicyOutcome}
use ctxward.Audit.{AuditFinding, AuditRecord}
use ctxward.Proxy.Outcome.{action_name}

pub record AuditContext : Type 0 where
  pub request_id : Text
  pub path_and_query : Text
  pub session_id : Option Text
  pub session_escalated : Bool

-- `format!("{:?}", severity).to_lowercase()`
pub severity_name : Severity → Text
severity_name low = bytes "low"
severity_name medium = bytes "medium"
severity_name high = bytes "high"
severity_name critical = bytes "critical"

unfoldable pub audit_finding : ResolvedFinding → AuditFinding
unfolding action_name severity_name
audit_finding f = record {
  label = f.label;
  rule_name = f.rule_name;
  action = action_name f.action;
  pointer = f.pointer;
  severity = severity_name f.severity;
  matched_sha256 = f.matched_sha256;
  matched_len = f.matched_len;
}

pub direction_name : Direction → Text
direction_name request = bytes "request"
direction_name response = bytes "response"

-- `build_audit_record`, at the time `now`
unfoldable pub build_audit_record :
    ℕ
    → Principal
    → Direction
    → DecisionAction
    → PolicyOutcome
    → AuditContext
    → Option ℕ
    → AuditRecord
unfolding audit_finding direction_name action_name
build_audit_record now principal direction decision outcome context status_code = record {
  ts = now;
  request_id = context.request_id;
  principal = principal.name;
  tenant_id = principal.tenant_id;
  direction = direction_name direction;
  path = context.path_and_query;
  decision = action_name decision;
  policy_source = outcome.source;
  decision_reason = outcome.reason;
  matched_labels = map (λ f. f.label) outcome.findings;
  matched_rules = map (λ f. f.rule_name) outcome.findings;
  findings = map audit_finding outcome.findings;
  session_id = context.session_id;
  session_escalated = context.session_escalated;
  status_code = status_code;
  error_stage = none;
  error_kind = none;
}
