-- ===== src/Core/Policy/Strictest.antt =====
-- What `resolve` decides: the strictest of the actions that the rules prescribe.
use ctxward.Prelude.{
  ◌≤◌, ◌≡◌, refl, sym, ap, ◌∙◌, ◌⊎◌, inl, inr, true, Bool-cases, List, [], ◌∷◌, ◌++◌, map, Text,
  All, Some, All-map, Some-map, leb, arith, contains, eq_text,
}
use mathlib.Core.List.{append-nil, append_assoc, Perm, foldr}
use mathlib.Core.List.Perm
use ctxward.Core.Types.{DecisionAction, allow, Direction, request, rank, combine, level, at_least}
use ctxward.Core.Types.Order.{rank-combine, combine_comm, combine_assoc, combine-allow}
use ctxward.Core.Auth.{Principal}
use ctxward.Core.Detect.Findings.{DetectionFinding}
use ctxward.Core.Policy.{ResolvedFinding, action_for, resolve_finding, resolve_loop, resolve}

-- The strictest action of a list, found from its end.
abbrev pub strictest : List DecisionAction → DecisionAction
strictest [] = allow
strictest (a ∷ rest) = combine a (strictest rest)

DecisionAction-set : IsSet DecisionAction
DecisionAction-set = hlevel

combine_left_comm : (a b c : DecisionAction) → combine a (combine b c) ≡ combine b (combine a c)
combine_left_comm a b c =
    sym (combine_assoc a b c) ∙ ap (λ d. combine d c) (combine_comm a b) ∙ combine_assoc b a c

pick_lem : (a r : DecisionAction) → (combine a r ≡ a) ⊎ (combine a r ≡ r)
unfolding combine
pick_lem a r = elim (Bool-cases (leb (rank r) (rank a))) [ inl e ↦ inl (rw e) | inr e ↦ inr (rw e) ]

module _ (p : Principal) (direction : Direction) where
  abbrev pub prescribed : List DetectionFinding → List DecisionAction
  prescribed = map (λ (f : DetectionFinding). action_for p f.metadata)

  resolve_loop-decision :
      (d : DecisionAction) (done : List ResolvedFinding) (fs : List DetectionFinding)
      → (resolve_loop p direction d done fs).decision ≡ combine d (strictest (prescribed fs))
  unfolding resolve_loop
  resolve_loop-decision d done [] = sym (combine_comm d allow ∙ combine-allow d)
  resolve_loop-decision d done (f ∷ fs) =
      resolve_loop-decision (combine d (action_for p f.metadata))
        (done ++ resolve_finding p direction f ∷ []) fs
      ∙ combine_assoc d (action_for p f.metadata) (strictest (prescribed fs))

  resolve_loop-findings :
      (d : DecisionAction) (done : List ResolvedFinding) (fs : List DetectionFinding)
      → (resolve_loop p direction d done fs).findings ≡ done ++ map (resolve_finding p direction) fs
  unfolding resolve_loop
  resolve_loop-findings d done [] = sym (append-nil done)
  resolve_loop-findings d done (f ∷ fs) =
      resolve_loop-findings (combine d (action_for p f.metadata))
        (done ++ resolve_finding p direction f ∷ []) fs
      ∙ append_assoc done (resolve_finding p direction f ∷ [])
          (map (resolve_finding p direction) fs)

  resolve-decision :
      (fs : List DetectionFinding) → (resolve p fs direction).decision ≡ strictest (prescribed fs)
  unfolding resolve
  resolve-decision fs =
      resolve_loop-decision allow [] fs ∙ combine-allow (strictest (prescribed fs))

  resolve-findings :
      (fs : List DetectionFinding)
      → (resolve p fs direction).findings ≡ map (resolve_finding p direction) fs
  unfolding resolve
  resolve-findings fs = resolve_loop-findings allow [] fs

  strictest-foldr :
      (fs : List DetectionFinding)
      → strictest (prescribed fs)
        ≡ foldr (λ (f : DetectionFinding). combine (action_for p f.metadata)) allow fs
  strictest-foldr [] = refl
  strictest-foldr (f ∷ fs) = ap (combine (action_for p f.metadata)) (strictest-foldr fs)

  strictest-ge :
      (fs : List DetectionFinding)
      → All (λ f. rank (action_for p f.metadata) ≤ rank (strictest (prescribed fs))) fs
  strictest-ge [] = tt
  strictest-ge (f ∷ fs) =
      let a = action_for p f.metadata in
      let r = strictest (prescribed fs) in
      (
        omega (arith, rank-combine a r),
        All-map _ _ fs (λ g h. omega (arith, rank-combine a r)) (strictest-ge fs),
      )

  strictest-Some :
      (fs : List DetectionFinding)
      → (strictest (prescribed fs) ≡ allow)
        ⊎ Some (λ f. action_for p f.metadata ≡ strictest (prescribed fs)) fs
  strictest-Some [] = inl refl
  strictest-Some (f ∷ fs) =
      let a = action_for p f.metadata in
      let r = strictest (prescribed fs) in
      elim (pick_lem a r) [
        | inl e ↦ inr (inl (sym e))
        | inr e ↦ elim (strictest-Some fs) [
          | inl n ↦ inl (e ∙ n)
          | inr s ↦ inr (inr (Some-map _ _ fs (λ g h. h ∙ sym e) s))
        ]
      ]

  -- Every finding is kept, in order; the decision is at least as strict as the action of each,
  -- and it is `allow` or the action of one of them.
  pub resolve-strictest :
      (fs : List DetectionFinding)
      → ((resolve p fs direction).findings ≡ map (resolve_finding p direction) fs)
        × All (λ f. rank (action_for p f.metadata) ≤ rank (resolve p fs direction).decision) fs
        × (((resolve p fs direction).decision ≡ allow)
            ⊎ Some (λ f. action_for p f.metadata ≡ (resolve p fs direction).decision) fs)
  resolve-strictest fs = (
    resolve-findings fs,
    rw (resolve-decision fs) (strictest-ge fs),
    rw (resolve-decision fs) (strictest-Some fs),
  )

  -- The order in which the detectors report their findings does not change the decision.
  pub resolve-perm :
      (fs gs : List DetectionFinding)
      → Perm fs gs
      → (resolve p fs direction).decision ≡ (resolve p gs direction).decision
  resolve-perm fs gs h =
      resolve-decision fs
      ∙ strictest-foldr fs
      ∙ Perm.foldr-eq DecisionAction-set _
          (λ f g. combine_left_comm (action_for p f.metadata) (action_for p g.metadata)) h allow
      ∙ sym (strictest-foldr gs)
      ∙ sym (resolve-decision gs)

-- `q` has every label that `p` has, and at least the same clearance.
pub record IsMorePrivileged (p q : Principal) : Type 0 where
  pub clearance : level p.clearance ≤ level q.clearance
  pub labels : (l : Text) → contains p.allowed_labels l ≡ true → contains q.allowed_labels l ≡ true

-- The rule is no stricter with those whom it authorizes.
abbrev pub IsLenient : DetectionFinding → Type 0
IsLenient f = rank f.metadata.authorized_action ≤ rank f.metadata.unauthorized_action

action_for_mono :
    (p q : Principal) (f : DetectionFinding)
    → IsMorePrivileged p q
    → IsLenient f
    → rank (action_for q f.metadata) ≤ rank (action_for p f.metadata)
unfolding action_for at_least
action_for_mono p q f more le = ground (arith, more.labels f.metadata.label)

strictest_mono :
    (p q : Principal) (fs : List DetectionFinding)
    → IsMorePrivileged p q
    → All IsLenient fs
    → rank (strictest (prescribed q request fs)) ≤ rank (strictest (prescribed p request fs))
strictest_mono p q [] more le = omega arith
strictest_mono p q (f ∷ fs) more le = omega (
  arith,
  action_for_mono p q f more le.0,
  strictest_mono p q fs more le.1,
  rank-combine (action_for p f.metadata) (strictest (prescribed p request fs)),
  rank-combine (action_for q f.metadata) (strictest (prescribed q request fs)),
)

-- Where no rule is stricter with those whom it authorizes, a principal with more labels and no
-- less clearance never gets a stricter decision on the same findings.
pub resolve_mono :
    (p q : Principal) (direction : Direction) (fs : List DetectionFinding)
    → IsMorePrivileged p q
    → All IsLenient fs
    → rank (resolve q fs direction).decision ≤ rank (resolve p fs direction).decision
resolve_mono p q direction fs more le =
    rw (resolve-decision q direction fs, resolve-decision p direction fs)
      (strictest_mono p q fs more le)
