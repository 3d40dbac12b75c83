-- ===== src/Proxy/Outcome.antt =====
-- src/proxy.rs and src/opa.rs: policy outcomes, the answer of OPA, and the names of the actions.
pub mod Merge
use ctxward.Prelude.{
  ℕ, Bool, true, false, not, ◌&&◌, ◌||◌, Option, none, some, List, [], ◌∷◌, ◌++◌, Text, bytes,
  text_eq, ltb, eqb, eq_text, if◌then◌else◌,
}
use ctxward.Core.Auth.{Principal}
use ctxward.Core.Types.{Direction, DecisionAction, allow, redact, review, block, rank, combine}
use ctxward.Core.Policy.{ResolvedFinding, PolicyOutcome}

-- `OpaDecision`
pub record OpaDecision : Type 0 where
  pub action : DecisionAction
  pub reason : Option Text

-- `OpaDecision::merge`
pub merge : OpaDecision → PolicyOutcome → PolicyOutcome
unfolding combine
merge d base = record {
  decision = combine base.decision d.action;
  findings = base.findings;
  source = bytes "opa";
  reason = d.reason;
}

-- What `OpaAuthorizer::evaluate` returns: the policy's result, or the text of the error.
pub data OpaReply : Type 0 where
  replied : Option OpaDecision → OpaReply
  failed : Text → OpaReply

pub record OpaInput : Type 0 where
  pub principal : Principal
  pub direction : Direction
  pub path : Text
  pub session_escalated : Bool
  pub current_decision : DecisionAction
  pub findings : List ResolvedFinding

-- The authorizer, with its service as the function that it is at this moment.
pub record OpaAuthorizer : Type 0 where
  pub fail_open : Bool
  pub evaluate : OpaInput → OpaReply

pub data OpaOutcome : Type 0 where
  outcome : PolicyOutcome → OpaOutcome
  opa_error : Text → OpaOutcome

-- The arms of the `match` in `apply_opa_policy`.
pub settle : Bool → OpaReply → PolicyOutcome → OpaOutcome
unfolding merge
settle fail_open (replied (some decision)) base = outcome (merge decision base)
settle fail_open (replied none) base = outcome base
settle true (failed err) base = outcome (record base {
  source = bytes "builtin_fail_open";
  reason = some (bytes "opa error ignored: " ++ err);
})
settle false (failed err) base = opa_error err

-- `apply_opa_policy`
unfoldable pub apply_opa_policy :
    Option OpaAuthorizer → Principal → Direction → Text → Bool → PolicyOutcome → OpaOutcome
unfolding settle
apply_opa_policy none principal direction path session_escalated base = outcome base
apply_opa_policy (some opa) principal direction path session_escalated base =
    let input : OpaInput = record {
      principal = principal;
      direction = direction;
      path = path;
      session_escalated = session_escalated;
      current_decision = base.decision;
      findings = base.findings;
    } in
    settle opa.fail_open (opa.evaluate input) base

pub is_none : Option Text → Bool
is_none none = true
is_none (some t) = false

-- The second outcome says more: it is stricter, or not the built-in one, or the only one with a
-- reason.
pub is_more_relevant : PolicyOutcome → PolicyOutcome → Bool
unfolding is_none rank
is_more_relevant current next =
    ltb (rank current.decision) (rank next.decision)
    || ((eqb (rank next.decision) (rank current.decision)
          && (text_eq current.source (bytes "builtin")
              && not (text_eq next.source (bytes "builtin"))))
        || (is_none current.reason && not (is_none next.reason)))

-- `merge_policy_outcomes`
unfoldable pub merge_policy_outcomes : PolicyOutcome → PolicyOutcome → PolicyOutcome
unfolding is_more_relevant combine
merge_policy_outcomes current next = record {
  decision = combine current.decision next.decision;
  findings = current.findings ++ next.findings;
  source = if is_more_relevant current next then next.source else current.source;
  reason = if is_more_relevant current next then next.reason else current.reason;
}

-- The outcomes of the parts of a body, merged one after another.
unfoldable pub merge_all : PolicyOutcome → List PolicyOutcome → PolicyOutcome
unfolding merge_policy_outcomes
merge_all current [] = current
merge_all current (p ∷ ps) = merge_all (merge_policy_outcomes current p) ps

unfoldable pub action_name : DecisionAction → Text
action_name allow = bytes "allow"
action_name redact = bytes "redact"
action_name review = bytes "review"
action_name block = bytes "block"

unfoldable pub action_code : DecisionAction → Text
action_code allow = bytes "allow"
action_code redact = bytes "redact"
action_code review = bytes "review_required"
action_code block = bytes "blocked_sensitive_payload"

unfoldable pub decision_status : DecisionAction → ℕ
decision_status allow = 200
decision_status redact = 200
decision_status review = 409
decision_status block = 403
