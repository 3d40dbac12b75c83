-- ===== src/Core/Redact/Cover.antt =====
-- Every finding that is not allowed begins in a span that is replaced.
use ctxward.Prelude.{
  ℕ, ◌≤◌, ◌<◌, ◌≡◌, refl, sym, ◌⊎◌, inl, inr, Bool, true, false, Bool-cases, List, [], ◌∷◌, filter,
  All, All-map, Some, ltb, ltb→lt, arith,
}
use mathlib.Core.Path.{subst}
use ctxward.Core.Policy.{ResolvedFinding}
use ctxward.Core.Redact.{
  is_selected, sorts_first, insert_sorted, sort_findings, keep_disjoint, chosen,
}
use ctxward.Core.Redact.Select.{Covers, IsSorted, sort_findings-IsSorted}

module _ {ℓ} (P : ResolvedFinding → Type ℓ) where
  All-of_insert_sorted :
      (f : ResolvedFinding) (fs : List ResolvedFinding)
      → All P (insert_sorted f fs)
      → P f × All P fs
  unfolding insert_sorted
  All-of_insert_sorted f [] h = (h.0, tt)
  All-of_insert_sorted f (g ∷ gs) h = elim (Bool-cases (sorts_first f g)) [
    | inl e ↦ rw e at h
    | inr e ↦
        let later : P g × All P (insert_sorted f gs) = rw e at h in
        let (pf, pgs) = All-of_insert_sorted f gs later.1 in (pf, (later.0, pgs))
  ]

  All-of_sort_findings : (fs : List ResolvedFinding) → All P (sort_findings fs) → All P fs
  unfolding sort_findings
  All-of_sort_findings [] h = tt
  All-of_sort_findings (f ∷ fs) h =
      let (pf, later) = All-of_insert_sorted f (sort_findings fs) h in
      (pf, All-of_sort_findings fs later)

  All-of_filter :
      (p : ResolvedFinding → Bool) (fs : List ResolvedFinding)
      → All P (filter p fs)
      → All (λ f. p f ≡ true → P f) fs
  All-of_filter p [] h = tt
  All-of_filter p (f ∷ fs) h = elim (Bool-cases (p f)) [
    | inl e ↦
        let now : P f × All P (filter p fs) = rw e at h in (λ _. now.0, All-of_filter p fs now.1)
    | inr e ↦ let now : All P (filter p fs) = rw e at h in (λ t. cc, All-of_filter p fs now)
  ]

keep_disjoint-skip :
    (occupied : ℕ) (f : ResolvedFinding) (fs : List ResolvedFinding)
    → ltb f.start occupied ≡ true
    → keep_disjoint occupied (f ∷ fs) ≡ keep_disjoint occupied fs
unfolding keep_disjoint
keep_disjoint-skip occupied f fs e = rw e

keep_disjoint-keep :
    (occupied : ℕ) (f : ResolvedFinding) (fs : List ResolvedFinding)
    → ltb f.start occupied ≡ false
    → keep_disjoint occupied (f ∷ fs) ≡ f ∷ keep_disjoint f.end fs
unfolding keep_disjoint
keep_disjoint-keep occupied f fs e = rw e

-- What begins before `occupied` is covered already, by a finding before these.
abbrev Covered : ℕ → List ResolvedFinding → ResolvedFinding → Type 0
Covered occupied kept g = (g.start < occupied) ⊎ Some (Covers g) kept

Covered-cons :
    (occupied : ℕ) (f : ResolvedFinding) (kept gs : List ResolvedFinding)
    → All (λ g. f.start ≤ g.start) gs
    → All (Covered f.end kept) gs
    → All (Covered occupied (f ∷ kept)) gs
Covered-cons occupied f kept [] a b = tt
Covered-cons occupied f kept (g ∷ gs) a b = (
  elim b.0 [ inl lt ↦ inr (inl (a.0, inl lt)) | inr s ↦ inr (inr s) ],
  Covered-cons occupied f kept gs a.1 b.1,
)

keep_disjoint-Covers :
    (occupied : ℕ) (fs : List ResolvedFinding)
    → IsSorted fs
    → All (Covered occupied (keep_disjoint occupied fs)) fs
keep_disjoint-Covers occupied [] h = tt
keep_disjoint-Covers occupied (f ∷ fs) h = elim (Bool-cases (ltb f.start occupied)) [
  | inl e ↦
      subst (λ k. All (Covered occupied k) (f ∷ fs)) (sym (keep_disjoint-skip occupied f fs e))
        (inl (ltb→lt f.start occupied e), keep_disjoint-Covers occupied fs h.1)
  | inr e ↦
      subst (λ k. All (Covered occupied k) (f ∷ fs)) (sym (keep_disjoint-keep occupied f fs e))
        (
          inr (inl (omega arith, inr refl)),
          Covered-cons occupied f (keep_disjoint f.end fs) fs h.0
              (keep_disjoint-Covers f.end fs h.1),
        )
]

-- Whatever the findings, each one that is not allowed begins in a span that is replaced, or is
-- itself replaced.
pub chosen-Covers :
    (fs : List ResolvedFinding) → All (λ g. is_selected g ≡ true → Some (Covers g) (chosen fs)) fs
unfolding chosen
chosen-Covers fs =
    All-of_filter (λ g. Some (Covers g) (chosen fs)) is_selected fs
      (All-of_sort_findings (λ g. Some (Covers g) (chosen fs)) (filter is_selected fs)
        (All-map _ _ (sort_findings (filter is_selected fs))
          (λ g h. elim h [ inl lt ↦ absurd (omega arith) | inr s ↦ s ])
          (keep_disjoint-Covers 0 (sort_findings (filter is_selected fs))
            (sort_findings-IsSorted (filter is_selected fs)))))
