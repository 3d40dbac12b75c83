-- ===== src/Proxy/Admin/Audits/Complete.antt =====
-- src/proxy.rs: no record that is asked for is lost on the way to the answer of `admin_audits`.
use ctxward.Prelude.{
  ℕ, zero, suc, ◌≤◌, ◌≡◌, refl, sym, ap, ◌∙◌, Bool, true, Bool-cases, inl, inr, ◌⊎◌, Option, none,
  some, List, [], ◌∷◌, ◌++◌, Text, text_eq, text_eq_iff, eq_text, any, filter, take, length, leb,
  Some, All, arith,
}
use mathlib.Core.List.{reverse, reverse-cons}
use ctxward.Audit.{AuditRecord}
use ctxward.Proxy.Admin.{
  AuditQuery, is_expected, is_expected_option, has_label, is_queried, insert_newest, sort_newest,
  retain_first,
}
use ctxward.Proxy.Admin.Audits.Query.{Asks, AsksOption, AsksLabel, IsQueried}

-- A record of a list.
abbrev pub Has : List AuditRecord → AuditRecord → Type 0
Has rs r = Some (λ x. x ≡ r) rs

Has-left : (xs ys : List AuditRecord) (r : AuditRecord) → Has xs r → Has (xs ++ ys) r
Has-left [] ys r h = absurd h
Has-left (x ∷ xs) ys r (inl h) = inl h
Has-left (x ∷ xs) ys r (inr h) = inr (Has-left xs ys r h)

Has-right : (xs ys : List AuditRecord) (r : AuditRecord) → Has ys r → Has (xs ++ ys) r
Has-right [] ys r h = h
Has-right (x ∷ xs) ys r h = inr (Has-right xs ys r h)

pub Has-append :
    (xs ys : List AuditRecord) (r : AuditRecord) → Has xs r ⊎ Has ys r → Has (xs ++ ys) r
Has-append xs ys r (inl h) = Has-left xs ys r h
Has-append xs ys r (inr h) = Has-right xs ys r h

pub Has-reverse : (xs : List AuditRecord) (r : AuditRecord) → Has xs r → Has (reverse xs) r
Has-reverse [] r h = absurd h
Has-reverse (x ∷ xs) r (inl h) = rw (reverse-cons x xs) (Has-right (reverse xs) (x ∷ []) r (inl h))
Has-reverse (x ∷ xs) r (inr h) =
    rw (reverse-cons x xs) (Has-left (reverse xs) (x ∷ []) r (Has-reverse xs r h))

Has-insert :
    (x : AuditRecord) (xs : List AuditRecord) (r : AuditRecord)
    → Has (x ∷ xs) r
    → Has (insert_newest x xs) r
unfolding insert_newest
Has-insert x [] r h = h
Has-insert x (y ∷ ys) r h = elim (Bool-cases (leb y.ts x.ts)) [
  | inl e ↦ rw e h
  | inr e ↦ rw e (elim h [
    | inl a ↦ inr (Has-insert x ys r (inl a))
    | inr a ↦ elim a [ inl b ↦ inl b | inr b ↦ inr (Has-insert x ys r (inr b)) ]
  ])
]

pub Has-sort : (xs : List AuditRecord) (r : AuditRecord) → Has xs r → Has (sort_newest xs) r
unfolding sort_newest
Has-sort [] r h = absurd h
Has-sort (x ∷ xs) r (inl h) = Has-insert x (sort_newest xs) r (inl h)
Has-sort (x ∷ xs) r (inr h) = Has-insert x (sort_newest xs) r (inr (Has-sort xs r h))

-- The records that satisfy `P` are told apart by `same`.
module _ (same : AuditRecord → AuditRecord → Bool) (P : AuditRecord → Type 0)
    (lawful : (a b : AuditRecord) → P a → P b → same a b ≡ true → a ≡ b) where
  seen-Has :
      (x : AuditRecord) (seen : List AuditRecord)
      → P x
      → All P seen
      → any (same x) seen ≡ true
      → Has seen x
  seen-Has x [] p ps h = cc
  seen-Has x (s ∷ seen) p ps h = elim (Bool-cases (same x s)) [
    | inl e ↦ inl (sym (lawful x s p ps.0 e))
    | inr e ↦ inr (seen-Has x seen p ps.1 (rw e at h))
  ]

  -- A record is dropped only if it was seen before.
  pub Has-retain :
      (seen xs : List AuditRecord) (r : AuditRecord)
      → All P seen
      → All P xs
      → Has xs r
      → Has (retain_first same seen xs) r ⊎ Has seen r
  unfolding retain_first
  Has-retain seen [] r ps qs h = absurd h
  Has-retain seen (x ∷ xs) r ps qs h = elim (Bool-cases (any (same x) seen)) [
    | inl e ↦
        rw (retain_first, e)
          (elim h [
            | inl a ↦ inr (rw a at (seen-Has x seen qs.0 ps e))
            | inr a ↦ Has-retain seen xs r ps qs.1 a
          ])
    | inr e ↦
        rw (retain_first, e)
          (elim h [
            | inl a ↦ inl (inl a)
            | inr a ↦ elim (Has-retain (x ∷ seen) xs r (qs.0, ps) qs.1 a) [
              | inl b ↦ inl (inr b)
              | inr b ↦ elim b [ inl c ↦ inl (inl c) | inr c ↦ inr c ]
            ]
          ])
  ]

pub Has-filter :
    (test : AuditRecord → Bool) (xs : List AuditRecord) (r : AuditRecord)
    → test r ≡ true
    → Has xs r
    → Has (filter test xs) r
Has-filter test [] r t h = absurd h
Has-filter test (x ∷ xs) r t (inl h) = let e : test x ≡ true = ap test h ∙ t in rw e (inl h)
Has-filter test (x ∷ xs) r t (inr h) = elim (Bool-cases (test x)) [
  | inl e ↦ rw e (inr (Has-filter test xs r t h))
  | inr e ↦ rw e (Has-filter test xs r t h)
]

-- What is cut off is cut off only at a full answer.
pub Has-take :
    (n : ℕ) (xs : List AuditRecord) (r : AuditRecord)
    → Has xs r
    → Has (take n xs) r ⊎ (n ≤ length (take n xs))
Has-take zero xs r h = inr (omega arith)
Has-take (suc n) [] r h = absurd h
Has-take (suc n) (x ∷ xs) r (inl h) = inl (inl h)
Has-take (suc n) (x ∷ xs) r (inr h) = elim (Has-take n xs r h) [
  | inl a ↦ inl (inr a)
  | inr a ↦ inr (omega (arith, a))
]

Asks-expected : (o : Option Text) (v : Text) → Asks o v → is_expected o v ≡ true
Asks-expected none v h = refl
Asks-expected (some x) v h = (text_eq_iff v x).1 h

AsksOption-expected : (o v : Option Text) → AsksOption o v → is_expected_option o v ≡ true
AsksOption-expected none v h = refl
AsksOption-expected (some x) none h = cc
AsksOption-expected (some x) (some v) h = (text_eq_iff v x).1 cc

AsksLabel-any :
    (x : Text) (labels : List Text)
    → Some (λ l. l ≡ x) labels
    → any (λ l. text_eq l x) labels ≡ true
AsksLabel-any x [] h = absurd h
AsksLabel-any x (l ∷ ls) (inl h) = rw ((text_eq_iff l x).1 h) refl
AsksLabel-any x (l ∷ ls) (inr h) = elim (Bool-cases (text_eq l x)) [
  | inl e ↦ rw e refl
  | inr e ↦ rw e (AsksLabel-any x ls h)
]

AsksLabel-has_label :
    (o : Option Text) (labels : List Text) → AsksLabel o labels → has_label o labels ≡ true
AsksLabel-has_label none labels h = refl
AsksLabel-has_label (some x) labels h = AsksLabel-any x labels h

pub IsQueried-is_queried :
    (q : AuditQuery) (r : AuditRecord) → IsQueried q r → is_queried q r ≡ true
unfolding is_queried
IsQueried-is_queried q r h =
    rw
      (
        Asks-expected q.principal r.principal h.principal,
        Asks-expected q.decision r.decision h.decision,
        Asks-expected q.policy_source r.policy_source h.policy_source,
        Asks-expected q.direction r.direction h.direction,
        Asks-expected q.request_id r.request_id h.request_id,
        AsksOption-expected q.session_id r.session_id h.session_id,
        AsksLabel-has_label q.label r.matched_labels h.label,
        AsksOption-expected q.error_stage r.error_stage h.error_stage,
        AsksOption-expected q.error_kind r.error_kind h.error_kind,
      )
      refl
