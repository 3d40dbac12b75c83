-- ===== src/Core/Types.antt =====
-- crates/ctxward-core/src/types.rs: the enumerations that the whole gateway decides with.
pub mod Order
use ctxward.Prelude.{ℕ, Bool, true, false, leb, eqb, if◌then◌else◌}

pub data Clearance : Type 0 where
  public internal confidential restricted : Clearance

pub data DecisionAction : Type 0 where
  allow redact review block : DecisionAction

pub data Severity : Type 0 where
  low medium high critical : Severity

pub data MaskingStrategy : Type 0 where
  placeholder partial_email partial_phone keep_last4 hash tokenize full : MaskingStrategy

pub data Direction : Type 0 where
  request response : Direction

-- `DecisionAction::rank`
unfoldable pub rank : DecisionAction → ℕ
rank allow = 0
rank redact = 1
rank review = 2
rank block = 3

-- `DecisionAction::combine`
unfoldable pub combine : DecisionAction → DecisionAction → DecisionAction
unfolding rank
combine a b = if leb (rank b) (rank a) then a else b

-- The derived `==` of `DecisionAction`.
unfoldable pub same_action : DecisionAction → DecisionAction → Bool
unfolding rank
same_action a b = eqb (rank a) (rank b)

-- The derived order of `Clearance` is that of the variants' positions.
unfoldable pub level : Clearance → ℕ
level public = 0
level internal = 1
level confidential = 2
level restricted = 3

-- `a >= b`
unfoldable pub at_least : Clearance → Clearance → Bool
unfolding level
at_least a b = leb (level b) (level a)
