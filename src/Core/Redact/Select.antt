-- ===== src/Core/Redact/Select.antt =====
-- Which findings are replaced: spans that do not overlap, and how they cover the others.
use ctxward.Prelude.{
  ℕ, ◌≤◌, ◌<◌, ◌≡◌, ◌⊎◌, inl, inr, Bool, true, Bool-cases, List, [], ◌∷◌, Text, length, drop,
  filter, All, All-map, ltb, arith,
}
use ctxward.Core.Policy.{ResolvedFinding}
use ctxward.Core.Redact.{
  starts_char, is_selected, sorts_first, insert_sorted, sort_findings, keep_disjoint, chosen,
}
use ctxward.Core.Redact.Splice.{InOrder}

-- The finding's span lies in the text, on char boundaries.
pub record IsSpan (s : Text) (f : ResolvedFinding) : Type 0 where
  pub forward : f.start ≤ f.end
  pub inside : f.end ≤ length s
  pub at_start : starts_char (drop f.start s) ≡ true
  pub at_end : starts_char (drop f.end s) ≡ true

module _ {ℓ} (P : ResolvedFinding → Type ℓ) where
  All-filter :
      (p : ResolvedFinding → Bool) (fs : List ResolvedFinding) → All P fs → All P (filter p fs)
  All-filter p [] h = tt
  All-filter p (f ∷ fs) h = elim (Bool-cases (p f)) [
    | inl e ↦ rw e (h.0, All-filter p fs h.1)
    | inr e ↦ rw e (All-filter p fs h.1)
  ]

  All-insert_sorted :
      (f : ResolvedFinding) (fs : List ResolvedFinding)
      → P f
      → All P fs
      → All P (insert_sorted f fs)
  unfolding insert_sorted
  All-insert_sorted f [] p h = (p, tt)
  All-insert_sorted f (g ∷ gs) p h = elim (Bool-cases (sorts_first f g)) [
    | inl e ↦ rw e (p, h)
    | inr e ↦ rw e (h.0, All-insert_sorted f gs p h.1)
  ]

  All-sort_findings : (fs : List ResolvedFinding) → All P fs → All P (sort_findings fs)
  unfolding sort_findings
  All-sort_findings [] h = tt
  All-sort_findings (f ∷ fs) h =
      All-insert_sorted f (sort_findings fs) h.0 (All-sort_findings fs h.1)

  All-keep_disjoint :
      (occupied : ℕ) (fs : List ResolvedFinding) → All P fs → All P (keep_disjoint occupied fs)
  unfolding keep_disjoint
  All-keep_disjoint occupied [] h = tt
  All-keep_disjoint occupied (f ∷ fs) h = elim (Bool-cases (ltb f.start occupied)) [
    | inl e ↦ rw e (All-keep_disjoint occupied fs h.1)
    | inr e ↦ rw e (h.0, All-keep_disjoint f.end fs h.1)
  ]

  pub All-chosen : (fs : List ResolvedFinding) → All P fs → All P (chosen fs)
  unfolding chosen
  All-chosen fs h =
      All-keep_disjoint 0 (sort_findings (filter is_selected fs))
        (All-sort_findings (filter is_selected fs) (All-filter is_selected fs h))

keep_disjoint-InOrder :
    (s : Text) (occupied : ℕ) (fs : List ResolvedFinding)
    → All (IsSpan s) fs
    → InOrder s occupied (keep_disjoint occupied fs)
unfolding keep_disjoint
keep_disjoint-InOrder s occupied [] h = tt
keep_disjoint-InOrder s occupied (f ∷ fs) h = elim (Bool-cases (ltb f.start occupied)) [
  | inl e ↦ rw e (keep_disjoint-InOrder s occupied fs h.1)
  | inr e ↦ rw e (
    ground arith,
    h.0.forward,
    h.0.inside,
    h.0.at_start,
    h.0.at_end,
    keep_disjoint-InOrder s f.end fs h.1,
  )
]

-- What is replaced are spans one after the other.
pub chosen-InOrder :
    (s : Text) (fs : List ResolvedFinding) → All (IsSpan s) fs → InOrder s 0 (chosen fs)
unfolding chosen
chosen-InOrder s fs h =
    keep_disjoint-InOrder s 0 (sort_findings (filter is_selected fs)) (
      All-sort_findings (IsSpan s) (filter is_selected fs) (All-filter (IsSpan s) is_selected fs h))

-- `g` begins in the span of `f`, or is `f`.
abbrev pub Covers : ResolvedFinding → ResolvedFinding → Type 0
Covers g f = (f.start ≤ g.start) × ((g.start < f.end) ⊎ (g ≡ f))

-- The starts do not decrease.
abbrev pub IsSorted : List ResolvedFinding → Type 0
IsSorted [] = Unit
IsSorted (f ∷ fs) = All (λ g. f.start ≤ g.start) fs × IsSorted fs

insert_sorted-IsSorted :
    (f : ResolvedFinding) (fs : List ResolvedFinding) → IsSorted fs → IsSorted (insert_sorted f fs)
unfolding insert_sorted sorts_first
insert_sorted-IsSorted f [] h = (tt, tt)
insert_sorted-IsSorted f (g ∷ gs) h = elim (Bool-cases (sorts_first f g)) [
  | inl e ↦
      let le : f.start ≤ g.start = ground arith in
      rw e ((le, All-map _ _ gs (λ k q. omega arith) h.0), h)
  | inr e ↦
      let le : g.start ≤ f.start = ground arith in
      rw e (All-insert_sorted (λ k. g.start ≤ k.start) f gs le h.0, insert_sorted-IsSorted f gs h.1)
]

pub sort_findings-IsSorted : (fs : List ResolvedFinding) → IsSorted (sort_findings fs)
unfolding sort_findings
sort_findings-IsSorted [] = tt
sort_findings-IsSorted (f ∷ fs) =
    insert_sorted-IsSorted f (sort_findings fs) (sort_findings-IsSorted fs)
