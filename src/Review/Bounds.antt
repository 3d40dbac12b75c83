-- ===== src/Review/Bounds.antt =====
-- src/review.rs: the bound on the tickets of the store, after the start, a reload and a request.
use ctxward.Prelude.{
  ◌≤◌, ltb, ◌≡◌, Bool-cases, inl, inr, List, [], ◌∷◌, Text, length, eq_text, arith,
}
use ctxward.Review.{Inner, forget, trim_loop, trim_to_capacity}

-- No more tickets are listed than the capacity, and that is at least one.
pub record IsBounded (s : Inner) : Type 0 where
  pub positive : 1 ≤ s.capacity
  pub listed : length s.order ≤ s.capacity

forget-capacity : (id : Text) (s : Inner) → (forget id s).capacity ≡ s.capacity
unfolding forget
forget-capacity id s = ground arith

trim_loop-IsBounded : (ids : List Text) (s : Inner) → 1 ≤ s.capacity → IsBounded (trim_loop ids s)
unfolding trim_loop
trim_loop-IsBounded [] s h = record { positive = h; listed = omega arith }
trim_loop-IsBounded (id ∷ ids) s h = elim (Bool-cases (ltb s.capacity (length (id ∷ ids)))) [
  | inl e ↦ rw e (trim_loop-IsBounded ids (forget id s) (omega (arith, forget-capacity id s)))
  | inr e ↦ rw e (record { positive = h; listed = ground arith })
]

pub trim_to_capacity-IsBounded : (s : Inner) → 1 ≤ s.capacity → IsBounded (trim_to_capacity s)
unfolding trim_to_capacity
trim_to_capacity-IsBounded s h = trim_loop-IsBounded s.order s h
