-- ===== src/Core/Detect/Findings.antt =====
-- crates/ctxward-core/src/detect.rs: what a rule says of its matches, and what a match becomes.
use ctxward.Prelude.{ℕ, Text}
use ctxward.Core.Types.{Clearance, DecisionAction, MaskingStrategy, Severity}

pub record RuleMetadata : Type 0 where
  pub rule_name : Text
  pub label : Text
  pub severity : Severity
  pub authorized_action : DecisionAction
  pub unauthorized_action : DecisionAction
  pub min_clearance : Clearance
  pub masking : MaskingStrategy

-- `start` and `end` are byte offsets.
pub record DetectionFinding : Type 0 where
  pub start : ℕ
  pub end : ℕ
  pub matched : Text
  pub matched_sha256 : Text
  pub pointer : Text
  pub metadata : RuleMetadata

-- `DetectionFinding::new`
unfoldable pub new_finding : (Text → Text) → ℕ → ℕ → Text → Text → RuleMetadata → DetectionFinding
new_finding sha256_hex start end matched pointer metadata = record {
  start = start;
  end = end;
  matched = matched;
  matched_sha256 = sha256_hex matched;
  pointer = pointer;
  metadata = metadata;
}
