-- ===== src/Proxy/Admin/Audits/Ordered.antt =====
-- src/proxy.rs: sorting, filtering and the removal of duplicates.
use ctxward.Prelude.{
  ℕ, zero, suc, ◌≤◌, ◌≡◌, refl, Bool, true, false, Bool-cases, inl, inr, ◌||◌, List, [], ◌∷◌,
  eq_text, any, filter, take, leb, leb→le, leb_false→lt, All, All-map, All-append, arith,
}
use mathlib.Core.List.{reverse, reverse-cons}
use ctxward.Audit.{AuditRecord}
use ctxward.Proxy.Admin.{insert_newest, sort_newest, retain_first}

-- What holds of all records, and of each record and all after it, holds of those that are left.
pub All-filter :
    (P : AuditRecord → Type 0) (test : AuditRecord → Bool) (rs : List AuditRecord)
    → All P rs
    → All P (filter test rs)
All-filter P test [] h = tt
All-filter P test (r ∷ rs) h = elim (Bool-cases (test r)) [
  | inl e ↦ rw e (h.0, All-filter P test rs h.1)
  | inr e ↦ rw e (All-filter P test rs h.1)
]

pub filter-passed :
    (test : AuditRecord → Bool) (rs : List AuditRecord) → All (λ r. test r ≡ true) (filter test rs)
filter-passed test [] = tt
filter-passed test (r ∷ rs) = elim (Bool-cases (test r)) [
  | inl e ↦ rw e (e, filter-passed test rs)
  | inr e ↦ rw e (filter-passed test rs)
]

pub All-take :
    (P : AuditRecord → Type 0) (n : ℕ) (rs : List AuditRecord) → All P rs → All P (take n rs)
All-take P zero rs h = tt
All-take P (suc n) [] h = tt
All-take P (suc n) (r ∷ rs) h = (h.0, All-take P n rs h.1)

pub All-reverse : (P : AuditRecord → Type 0) (rs : List AuditRecord) → All P rs → All P (reverse rs)
All-reverse P [] h = tt
All-reverse P (r ∷ rs) h =
    rw (reverse-cons r rs) (All-append P (reverse rs) (r ∷ []) (All-reverse P rs h.1) (h.0, tt))

pub All-insert :
    (P : AuditRecord → Type 0) (r : AuditRecord) (rs : List AuditRecord)
    → P r
    → All P rs
    → All P (insert_newest r rs)
unfolding insert_newest
All-insert P r [] p h = (p, tt)
All-insert P r (s ∷ ss) p h = elim (Bool-cases (leb s.ts r.ts)) [
  | inl e ↦ rw e (p, h)
  | inr e ↦ rw e (h.0, All-insert P r ss p h.1)
]

pub All-sort :
    (P : AuditRecord → Type 0) (rs : List AuditRecord) → All P rs → All P (sort_newest rs)
unfolding sort_newest
All-sort P [] h = tt
All-sort P (r ∷ rs) h = All-insert P r (sort_newest rs) h.0 (All-sort P rs h.1)

abbrev pub Ordered : (AuditRecord → AuditRecord → Type 0) → List AuditRecord → Type 0
Ordered R [] = Unit
Ordered R (r ∷ rs) = All (R r) rs × Ordered R rs

pub Ordered-filter :
    (R : AuditRecord → AuditRecord → Type 0) (test : AuditRecord → Bool) (rs : List AuditRecord)
    → Ordered R rs
    → Ordered R (filter test rs)
Ordered-filter R test [] h = tt
Ordered-filter R test (r ∷ rs) h = elim (Bool-cases (test r)) [
  | inl e ↦ rw e (All-filter (R r) test rs h.0, Ordered-filter R test rs h.1)
  | inr e ↦ rw e (Ordered-filter R test rs h.1)
]

pub Ordered-take :
    (R : AuditRecord → AuditRecord → Type 0) (n : ℕ) (rs : List AuditRecord)
    → Ordered R rs
    → Ordered R (take n rs)
Ordered-take R zero rs h = tt
Ordered-take R (suc n) [] h = tt
Ordered-take R (suc n) (r ∷ rs) h = (All-take (R r) n rs h.0, Ordered-take R n rs h.1)

-- No record is newer than one before it.
abbrev pub IsNewestFirst : List AuditRecord → Type 0
IsNewestFirst rs = Ordered (λ r s. s.ts ≤ r.ts) rs

pub insert-IsNewestFirst :
    (r : AuditRecord) (rs : List AuditRecord)
    → IsNewestFirst rs
    → IsNewestFirst (insert_newest r rs)
unfolding insert_newest
insert-IsNewestFirst r [] h = (tt, tt)
insert-IsNewestFirst r (s ∷ ss) h = elim (Bool-cases (leb s.ts r.ts)) [
  | inl e ↦
      let le = leb→le s.ts r.ts e in
      rw e (
        (le, All-map (λ t. t.ts ≤ s.ts) (λ t. t.ts ≤ r.ts) ss (λ t k. omega (arith, le, k)) h.0),
        h,
      )
  | inr e ↦ rw e (
    All-insert (λ t. t.ts ≤ s.ts) r ss (omega (arith, leb_false→lt s.ts r.ts e)) h.0,
    insert-IsNewestFirst r ss h.1,
  )
]

pub sort-IsNewestFirst : (rs : List AuditRecord) → IsNewestFirst (sort_newest rs)
unfolding sort_newest
sort-IsNewestFirst [] = tt
sort-IsNewestFirst (r ∷ rs) = insert-IsNewestFirst r (sort_newest rs) (sort-IsNewestFirst rs)

module _ (same : AuditRecord → AuditRecord → Bool) where
  pub All-retain :
      (P : AuditRecord → Type 0) (seen rs : List AuditRecord)
      → All P rs
      → All P (retain_first same seen rs)
  unfolding retain_first
  All-retain P seen [] h = tt
  All-retain P seen (r ∷ rs) h = elim (Bool-cases (any (same r) seen)) [
    | inl e ↦ rw (retain_first, e) (All-retain P seen rs h.1)
    | inr e ↦ rw (retain_first, e) (h.0, All-retain P (r ∷ seen) rs h.1)
  ]

  pub Ordered-retain :
      (R : AuditRecord → AuditRecord → Type 0) (seen rs : List AuditRecord)
      → Ordered R rs
      → Ordered R (retain_first same seen rs)
  unfolding retain_first
  Ordered-retain R seen [] h = tt
  Ordered-retain R seen (r ∷ rs) h = elim (Bool-cases (any (same r) seen)) [
    | inl e ↦ rw (retain_first, e) (Ordered-retain R seen rs h.1)
    | inr e ↦
        rw (retain_first, e)
          (All-retain (R r) (r ∷ seen) rs h.0, Ordered-retain R (r ∷ seen) rs h.1)
  ]

  pub or_false : (a b : Bool) → (a || b) ≡ false → (a ≡ false) × (b ≡ false)
  or_false true b h = cc
  or_false false b h = (refl, h)

  pub retain-unseen :
      (seen rs : List AuditRecord)
      → All (λ r. any (same r) seen ≡ false) (retain_first same seen rs)
  unfolding retain_first
  retain-unseen seen [] = tt
  retain-unseen seen (r ∷ rs) = elim (Bool-cases (any (same r) seen)) [
    | inl e ↦ rw (retain_first, e) (retain-unseen seen rs)
    | inr e ↦
        rw (retain_first, e)
          (
            e,
            All-map (λ s. any (same s) (r ∷ seen) ≡ false) (λ s. any (same s) seen ≡ false)
                (retain_first same (r ∷ seen) rs)
                (λ s k. (or_false (same s r) (any (same s) seen) k).1)
                (retain-unseen (r ∷ seen) rs),
          )
  ]

  -- No record is the same as one before it.
  abbrev pub IsDistinct : List AuditRecord → Type 0
  IsDistinct rs = Ordered (λ r s. same s r ≡ false) rs

  pub retain-IsDistinct : (seen rs : List AuditRecord) → IsDistinct (retain_first same seen rs)
  unfolding retain_first
  retain-IsDistinct seen [] = tt
  retain-IsDistinct seen (r ∷ rs) = elim (Bool-cases (any (same r) seen)) [
    | inl e ↦ rw (retain_first, e) (retain-IsDistinct seen rs)
    | inr e ↦
        rw (retain_first, e)
          (
            All-map (λ s. any (same s) (r ∷ seen) ≡ false) (λ s. same s r ≡ false)
                (retain_first same (r ∷ seen) rs)
                (λ s k. (or_false (same s r) (any (same s) seen) k).0)
                (retain-unseen (r ∷ seen) rs),
            retain-IsDistinct (r ∷ seen) rs,
          )
  ]
