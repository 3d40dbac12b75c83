-- ===== src/Core/Types/Order.antt =====
-- Actions under `combine` are a chain: the strictest action wins.
use ctxward.Prelude.{max, ◌≡◌, refl, ◌↔◌, true, arith}
use ctxward.Core.Types.{DecisionAction, allow, redact, rank, combine, same_action}

pub rank_injective : (a b : DecisionAction) → rank a ≡ rank b → a ≡ b
unfolding rank
rank_injective a b h = ground arith

pub rank-combine : (a b : DecisionAction) → rank (combine a b) ≡ max (rank a) (rank b)
unfolding rank combine
rank-combine a b = ground arith

pub combine_comm : (a b : DecisionAction) → combine a b ≡ combine b a
combine_comm a b =
    rank_injective (combine a b) (combine b a) (omega (arith, rank-combine a b, rank-combine b a))

pub combine_assoc : (a b c : DecisionAction) → combine (combine a b) c ≡ combine a (combine b c)
combine_assoc a b c = rank_injective (combine (combine a b) c) (combine a (combine b c)) (
    omega (
      arith,
      rank-combine (combine a b) c,
      rank-combine a b,
      rank-combine a (combine b c),
      rank-combine b c,
    ))

pub combine_self : (a : DecisionAction) → combine a a ≡ a
unfolding combine
combine_self a = ground arith

pub combine-allow : (a : DecisionAction) → combine allow a ≡ a
unfolding combine
combine-allow a = ground arith

pub same_action_iff : (a b : DecisionAction) → (same_action a b ≡ true) ↔ (a ≡ b)
unfolding same_action
same_action_iff a b = ground arith

pub rank-allow : rank allow ≡ 0
unfolding rank
rank-allow = refl

pub rank-redact : rank redact ≡ 1
unfolding rank
rank-redact = refl
