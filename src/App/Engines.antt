-- ===== src/App/Engines.antt =====
-- src/app.rs: the part of the runtime's state that looks at a text.
use ctxward.Prelude.{ℕ, Bool, Option, List, Text}
use ctxward.Core.Detect.Scan.{Detector}
use ctxward.Core.Redact.{TokenizerAt}
use ctxward.Presidio.{PresidioAnalyzer}

-- The part of `RuntimeState` that looks at a text. The tokenizer, if there is one, draws a UUID for
-- each pointer and start of a finding.
pub record Engines : Type 0 where
  pub sha256_hex : Text → Text
  pub sum_at_least : ℕ → List ℕ → ℕ → Bool
  pub detector : Detector
  pub presidio : Option PresidioAnalyzer
  pub tokenizer : Text → TokenizerAt
