-- ===== src/Core/Policy.antt =====
-- crates/ctxward-core/src/policy.rs: the built-in policy.
pub mod Strictest
use ctxward.Prelude.{
  ℕ, Bool, ◌&&◌, Option, none, List, [], ◌∷◌, ◌++◌, Text, bytes, length, contains, eq_text,
  if◌then◌else◌,
}
use ctxward.Core.Types.{
  DecisionAction, allow, redact, Severity, MaskingStrategy, Direction, request, response, combine,
  same_action, at_least,
}
use ctxward.Core.Auth.{Principal}
use ctxward.Core.Detect.Findings.{RuleMetadata, DetectionFinding}

pub record ResolvedFinding : Type 0 where
  pub label : Text
  pub rule_name : Text
  pub action : DecisionAction
  pub effective_action : DecisionAction
  pub pointer : Text
  pub severity : Severity
  pub masking : MaskingStrategy
  pub matched_sha256 : Text
  pub matched_len : ℕ
  pub start : ℕ
  pub end : ℕ
  pub matched : Text

pub record PolicyOutcome : Type 0 where
  pub decision : DecisionAction
  pub findings : List ResolvedFinding
  pub source : Text
  pub reason : Option Text

-- The principal is cleared for the rule and allowed its label.
pub is_authorized : Principal → RuleMetadata → Bool
is_authorized p m = at_least p.clearance m.min_clearance && contains p.allowed_labels m.label

pub action_for : Principal → RuleMetadata → DecisionAction
unfolding is_authorized
action_for p m = if is_authorized p m then m.authorized_action else m.unauthorized_action

-- On a response whatever is not allowed is redacted.
pub effective_for : Direction → DecisionAction → DecisionAction
effective_for request action = action
effective_for response action = if same_action action allow then allow else redact

unfoldable pub resolve_finding : Principal → Direction → DetectionFinding → ResolvedFinding
unfolding action_for effective_for
resolve_finding p direction f =
    let action = action_for p f.metadata in
    record {
      label = f.metadata.label;
      rule_name = f.metadata.rule_name;
      action = action;
      effective_action = effective_for direction action;
      pointer = f.pointer;
      severity = f.metadata.severity;
      masking = f.metadata.masking;
      matched_sha256 = f.matched_sha256;
      matched_len = length f.matched;
      start = f.start;
      end = f.end;
      matched = f.matched;
    }

-- The loop of `resolve`: the decision so far, and the findings resolved so far.
unfoldable pub resolve_loop :
    Principal
    → Direction
    → DecisionAction
    → List ResolvedFinding
    → List DetectionFinding
    → PolicyOutcome
unfolding resolve_finding
resolve_loop p direction decision resolved [] = record {
  decision = decision;
  findings = resolved;
  source = bytes "builtin";
  reason = none;
}
resolve_loop p direction decision resolved (f ∷ fs) =
    resolve_loop p direction (combine decision (action_for p f.metadata))
      (resolved ++ resolve_finding p direction f ∷ []) fs

-- `PolicyEngine::resolve`
unfoldable pub resolve : Principal → List DetectionFinding → Direction → PolicyOutcome
unfolding resolve_loop
resolve p findings direction = resolve_loop p direction allow [] findings
