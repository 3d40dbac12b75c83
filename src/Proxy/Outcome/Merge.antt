-- ===== src/Proxy/Outcome/Merge.antt =====
-- src/proxy.rs, src/opa.rs: outcomes only get stricter on their way.
use ctxward.Prelude.{
  ◌≤◌, ◌≡◌, ap, sym, ◌∙◌, Bool, true, false, Option, none, some, List, [], ◌∷◌, ◌++◌, Text,
  append_nil, append_assoc, arith,
}
use ctxward.Core.Auth.{Principal}
use ctxward.Core.Types.{Direction, DecisionAction, allow, rank, combine}
use ctxward.Core.Types.Order.{rank-combine, combine_assoc, combine_comm, combine-allow}
use ctxward.Core.Policy.{ResolvedFinding, PolicyOutcome}
use ctxward.Proxy.Outcome.{
  merge, settle, OpaReply, replied, failed, OpaAuthorizer, outcome, apply_opa_policy,
  merge_policy_outcomes, merge_all,
}

settle-stricter :
    (fail_open : Bool) (reply : OpaReply) (base after : PolicyOutcome)
    → settle fail_open reply base ≡ outcome after
    → (rank base.decision ≤ rank after.decision) × (after.findings ≡ base.findings)
unfolding settle merge
settle-stricter fail_open (replied (some d)) base after h =
    let made : merge d base ≡ after = ground arith in
    let stricter : rank (combine base.decision d.action) ≡ rank after.decision =
      ap (λ p. rank p.decision) made in
    (omega (arith, rank-combine base.decision d.action), ap (λ p. p.findings) (sym made))
settle-stricter fail_open (replied none) base after h =
    let made : base ≡ after = ground arith in (ground arith, ap (λ p. p.findings) (sym made))
settle-stricter true (failed err) base after h = ground arith
settle-stricter false (failed err) base after h = absurd (ground arith)

-- If OPA gives an outcome, it is at least as strict as the built-in one, and has its findings.
pub apply_opa_policy-stricter :
    (opa : Option OpaAuthorizer) (principal : Principal) (direction : Direction) (path : Text)
    (session_escalated : Bool) (base after : PolicyOutcome)
    → apply_opa_policy opa principal direction path session_escalated base ≡ outcome after
    → (rank base.decision ≤ rank after.decision) × (after.findings ≡ base.findings)
unfolding apply_opa_policy settle
apply_opa_policy-stricter none principal direction path escalated base after h =
    settle-stricter true (replied none) base after h
apply_opa_policy-stricter (some opa) principal direction path escalated base after h =
    settle-stricter opa.fail_open _ base after h

combine_allow : (a : DecisionAction) → combine a allow ≡ a
combine_allow a = combine_comm a allow ∙ combine-allow a

-- The decisions and the findings of many outcomes, merged one after another.
abbrev pub strictest : List PolicyOutcome → DecisionAction
strictest [] = allow
strictest (p ∷ ps) = combine p.decision (strictest ps)

abbrev pub all_findings : List PolicyOutcome → List ResolvedFinding
all_findings [] = []
all_findings (p ∷ ps) = p.findings ++ all_findings ps

-- Merged outcomes decide as the strictest of them, and keep the findings of all.
pub merge_all-strictest :
    (current : PolicyOutcome) (ps : List PolicyOutcome)
    → ((merge_all current ps).decision ≡ combine current.decision (strictest ps))
      × ((merge_all current ps).findings ≡ current.findings ++ all_findings ps)
unfolding merge_all merge_policy_outcomes
merge_all-strictest current [] =
    (sym (combine_allow current.decision), sym (append_nil current.findings))
merge_all-strictest current (p ∷ ps) =
    let rest = merge_all-strictest (merge_policy_outcomes current p) ps in
    (
      rest.0 ∙ combine_assoc current.decision p.decision (strictest ps),
      rest.1 ∙ append_assoc current.findings p.findings (all_findings ps),
    )
