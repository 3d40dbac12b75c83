-- ===== src/Attachments/Request/Rewritten.antt =====
-- src/attachments.rs: what the end of a scan makes of the parts that have findings.
use ctxward.Prelude.{
  ◌≡◌, refl, sym, ap, ◌∙◌, Bool, true, false, not, ◌&&◌, Bool-cases, inl, inr, ◌⊎◌, Option, none,
  some, List, [], ◌∷◌, Text, All, All-map, any, map, filter, text_eq, bytes, ◌||◌, ◌++◌,
}
use ctxward.Prelude.Ascii.{starts_with}
use ctxward.Core.Redact.{redact_text}
use ctxward.Core.Redact
use ctxward.Attachments.Rewriting.{rewrite_pdf, rewrite_ooxml}
use ctxward.Core.Types.{redact, same_action}
use ctxward.Core.Policy.{ResolvedFinding, PolicyOutcome}
use ctxward.App.Engines.{Engines}
use ctxward.Attachments.Errors.{
  Attempt, ok, err, panicked, pdf_rewrite, bind-ok, of_redacted, ◌>>=◌,
}
use ctxward.Attachments.Multipart.{MultipartPart, rebuild_multipart_body}
use ctxward.Attachments.Documents.{DocumentCrates}
use ctxward.Attachments.Request.{
  RewritePlan, keep, text_plan, pdf_plan, ooxml_plan, ScannedPart, ScanResult, is_rewritable,
  finding_targets_part, non_rewritable_sensitive, reviewed, with_rewritten, part_result, sent_part,
  rebuilt, rewrite_part, rewrite_parts, finish_scan,
}

-- A finding that is not at a part's pointer, nor below it.
abbrev pub IsElsewhere : Text → ResolvedFinding → Type 0
IsElsewhere pointer f =
    (pointer ≡ [])
    ⊎ ((text_eq f.pointer pointer ≡ false)
        × (starts_with (pointer ++ bytes "/") f.pointer ≡ false)
        × (starts_with (pointer ++ bytes "#") f.pointer ≡ false))

-- A part whose content can be written again, or that no finding is in.
abbrev pub IsCovered : List ResolvedFinding → ScannedPart → Type 0
IsCovered findings part =
    (is_rewritable part.rewrite_plan ≡ true) ⊎ All (IsElsewhere part.pointer) findings

or_none : (a b c : Bool) → (a || (b || c)) ≡ false → (a ≡ false) × (b ≡ false) × (c ≡ false)
or_none true b c h = cc
or_none false true c h = cc
or_none false false c h = (refl, refl, h)

untargeted-IsElsewhere :
    (pointer : Text) (f : ResolvedFinding)
    → finding_targets_part f.pointer pointer ≡ false
    → IsElsewhere pointer f
unfolding finding_targets_part
untargeted-IsElsewhere [] f h = inl refl
untargeted-IsElsewhere (c ∷ s) f h = inr (or_none _ _ _ h)

any-false {ℓ} :
    {A : Type ℓ} (test : A → Bool) (xs : List A)
    → any test xs ≡ false
    → All (λ x. test x ≡ false) xs
any-false test [] h = tt
any-false test (x ∷ xs) h = elim (Bool-cases (test x)) [
  | inl e ↦ cc (rw e at h)
  | inr e ↦ (e, any-false test xs (rw e at h))
]

untargeted-IsCovered :
    (findings : List ResolvedFinding) (part : ScannedPart)
    → (not (is_rewritable part.rewrite_plan)
        && any (λ (f : ResolvedFinding). finding_targets_part f.pointer part.pointer) findings)
      ≡ false
    → IsCovered findings part
untargeted-IsCovered findings part h = elim (Bool-cases (is_rewritable part.rewrite_plan)) [
  | inl e ↦ inl e
  | inr e ↦ inr (
      All-map _ (IsElsewhere part.pointer) findings (untargeted-IsElsewhere part.pointer) (
        any-false (λ (f : ResolvedFinding). finding_targets_part f.pointer part.pointer) findings
          (rw e at h)))
]

non_rewritable_sensitive-IsCovered :
    (findings : List ResolvedFinding) (parts : List ScannedPart)
    → non_rewritable_sensitive parts findings ≡ false
    → All (IsCovered findings) parts
unfolding non_rewritable_sensitive
non_rewritable_sensitive-IsCovered findings parts h =
    let test = λ (part : ScannedPart).
      not (is_rewritable part.rewrite_plan)
      && any (λ (f : ResolvedFinding). finding_targets_part f.pointer part.pointer) findings in
    All-map (λ part. test part ≡ false) (IsCovered findings) parts (untargeted-IsCovered findings)
      (any-false test parts h)

-- Only what can be written again is left to be redacted.
reviewed-redact :
    (parts : List ScannedPart) (policy : PolicyOutcome)
    → same_action (reviewed parts policy).decision redact ≡ true
    → non_rewritable_sensitive parts (reviewed parts policy).findings ≡ false
unfolding reviewed same_action
reviewed-redact parts policy h =
    elim (Bool-cases (non_rewritable_sensitive parts policy.findings)) [
      | inl e ↦ elim (Bool-cases (same_action policy.decision redact)) [
        | inl d ↦ cc (rw (e, d) at h)
        | inr d ↦ cc (rw (e, d) at h)
      ]
      | inr e ↦ rw e e
    ]

pub ok_injective {ℓ} : {A : Type ℓ} (a b : A) → ok a ≡ ok b → a ≡ b
ok_injective a b h = cc

module _ (crates : DocumentCrates) (e : Engines) where
  -- What the plan of a part makes of its body, if anything: a text with findings is redacted, and a
  -- document is written by its own rewriting.
  abbrev pub IsWritten : RewritePlan → Text → Text → List ResolvedFinding → Option Text → Type 0
  IsWritten keep body pointer findings o = o ≡ none
  IsWritten text_plan body pointer findings o =
      ((filter (λ (f : ResolvedFinding). text_eq f.pointer pointer) findings ≡ []) × (o ≡ none))
      ⊎ ((text : Text) × (redact_text e.sha256_hex (crates.utf8_lossy body)
              (filter (λ (f : ResolvedFinding). text_eq f.pointer pointer) findings)
              (e.tokenizer pointer)
            ≡ Redact.ok text)
          × (o ≡ some text))
  IsWritten (pdf_plan d) body pointer findings o =
      rewrite_pdf crates e.sha256_hex e.tokenizer d findings ≡ ok o
  IsWritten (ooxml_plan d) body pointer findings o =
      rewrite_ooxml crates e.sha256_hex e.tokenizer d findings ≡ ok o

  abbrev pub IsBody : Text → Option Text → Text → Type 0
  IsBody original none body = body ≡ original
  IsBody original (some written) body = body ≡ written

  -- Each part is sent under its own headers, with what its plan makes of its body, or its body.
  abbrev pub Sent : List ResolvedFinding → List ScannedPart → List (Text × Text) → Type 0
  Sent findings [] [] = Unit
  Sent findings [] (x ∷ xs) = ⊥
  Sent findings (p ∷ ps) [] = ⊥
  Sent findings (p ∷ ps) ((headers, body) ∷ xs) =
      (headers ≡ p.raw.headers)
      × ((o : Option Text) × IsWritten p.rewrite_plan p.raw.body p.pointer findings o
          × IsBody p.raw.body o body)
      × Sent findings ps xs

  -- The parts are sent with the findings rewritten, and no part with a finding is sent as it came
  -- for want of a way to write it.
  pub record IsRewritten (boundary : Text) (parts : List ScannedPart) (r : ScanResult)
      : Type 0 where
    pub sent : List (Text × Text)
    pub sends : Sent r.policy.findings parts sent
    pub covered : All (IsCovered r.policy.findings) parts
    pub what : r.sanitized_body ≡ rebuild_multipart_body boundary sent

  of_redacted-ok :
      (m : Redact.Redacted Text) (o : Option Text)
      → (of_redacted m >>= λ text. ok (some text)) ≡ ok o
      → (text : Text) × (m ≡ Redact.ok text) × (o ≡ some text)
  of_redacted-ok (Redact.ok text) o h = (text, refl, ok_injective o (some text) (sym h))
  of_redacted-ok (Redact.err x) o h = cc
  of_redacted-ok Redact.panicked o h = cc

  text-IsWritten :
      (body pointer : Text) (findings here : List ResolvedFinding) (o : Option Text)
      → filter (λ (f : ResolvedFinding). text_eq f.pointer pointer) findings ≡ here
      → rewrite_part crates e text_plan body pointer findings ≡ ok o
      → IsWritten text_plan body pointer findings o
  unfolding rewrite_part
  text-IsWritten body pointer findings [] o n h =
      inl (n, ok_injective o none (sym (rw (rewrite_part, n) at h)))
  text-IsWritten body pointer findings (f ∷ fs) o n h =
      inr (rw n (of_redacted-ok _ o (rw (rewrite_part, n) at h)))

  rewrite_part-IsWritten :
      (plan : RewritePlan) (body pointer : Text) (findings : List ResolvedFinding) (o : Option Text)
      → rewrite_part crates e plan body pointer findings ≡ ok o
      → IsWritten plan body pointer findings o
  unfolding rewrite_part
  rewrite_part-IsWritten keep body pointer findings o h = ok_injective o none (sym h)
  rewrite_part-IsWritten text_plan body pointer findings o h =
      text-IsWritten body pointer findings _ o refl h
  rewrite_part-IsWritten (pdf_plan d) body pointer findings o h = h
  rewrite_part-IsWritten (ooxml_plan d) body pointer findings o h = h

  sent_part-IsBody :
      (raw : MultipartPart) (pointer : Text) (plan : RewritePlan) (o : Option Text)
      → IsBody raw.body o
          (sent_part
            (record { raw = raw; pointer = pointer; rewrite_plan = plan; rewritten_body = o })).1
  sent_part-IsBody raw pointer plan none = refl
  sent_part-IsBody raw pointer plan (some written) = refl

  with_rewritten-some :
      (part : ScannedPart) (body : Option Text) (rest : Option (List ScannedPart))
      (qs : List ScannedPart)
      → with_rewritten part body rest ≡ some qs
      → (rs : List ScannedPart) × (rest ≡ some rs)
        × (qs ≡ record part { rewritten_body = body } ∷ rs)
  with_rewritten-some part body none qs h = cc
  with_rewritten-some part body (some rs) qs h = (rs, refl, cc)

  part_result-some :
      (part : ScannedPart) (m : Attempt (Option Text)) (rest : Attempt (Option (List ScannedPart)))
      (qs : List ScannedPart)
      → part_result part m rest ≡ ok (some qs)
      → (body : Option Text) × (m ≡ ok body)
        × (rs : List ScannedPart) × (rest ≡ ok (some rs))
        × (qs ≡ record part { rewritten_body = body } ∷ rs)
  part_result-some part (ok body) rest qs h =
      let r = bind-ok rest (λ parts. ok (with_rewritten part body parts)) (some qs) h in
      let s =
        with_rewritten-some part body r.0 qs
          (ok_injective (with_rewritten part body r.0) (some qs) r.2) in
      (body, refl, s.0, r.1 ∙ ap ok s.1, s.2)
  part_result-some part (err (pdf_rewrite message)) rest qs h = cc
  part_result-some part (err other) rest qs h = cc
  part_result-some part panicked rest qs h = cc

  rewrite_parts-Sent :
      (findings : List ResolvedFinding) (parts qs : List ScannedPart)
      → rewrite_parts crates e findings parts ≡ ok (some qs)
      → Sent findings parts (map sent_part qs)
  unfolding rewrite_parts
  rewrite_parts-Sent findings [] [] h = tt
  rewrite_parts-Sent findings [] (q ∷ qs) h = cc
  rewrite_parts-Sent findings (part ∷ parts) qs h =
      let r =
        part_result-some part
          (rewrite_part crates e part.rewrite_plan part.raw.body part.pointer findings)
          (rewrite_parts crates e findings parts) qs h in
      rw r.4 (
        refl,
        (
          r.0,
          rewrite_part-IsWritten part.rewrite_plan part.raw.body part.pointer findings r.0 r.1,
          sent_part-IsBody part.raw part.pointer part.rewrite_plan r.0,
        ),
        rewrite_parts-Sent findings parts r.2 r.3,
      )

  -- Either nothing is rewritten, under a decision other than redact, or the parts are.
  abbrev pub IsSafe : Text → Text → List ScannedPart → ScanResult → Type 0
  IsSafe boundary body parts r =
      ((same_action r.policy.decision redact ≡ false) × (r.sanitized_body ≡ body))
      ⊎ ((same_action r.policy.decision redact ≡ true) × IsRewritten boundary parts r)

  rebuilt-IsSafe :
      (boundary body : Text) (parts : List ScannedPart) (policy : PolicyOutcome)
      (o : Option (List ScannedPart))
      → same_action policy.decision redact ≡ true
      → non_rewritable_sensitive parts policy.findings ≡ false
      → rewrite_parts crates e policy.findings parts ≡ ok o
      → IsSafe boundary body parts (rebuilt boundary body policy o)
  unfolding same_action
  rebuilt-IsSafe boundary body parts policy none d n h = inl (refl, refl)
  rebuilt-IsSafe boundary body parts policy (some qs) d n h = inr (
    d,
    record {
      sent = map sent_part qs;
      sends = rewrite_parts-Sent policy.findings parts qs h;
      covered = non_rewritable_sensitive-IsCovered policy.findings parts n;
      what = refl;
    },
  )

  pub finish_scan-IsSafe :
      (boundary body : Text) (parts : List ScannedPart) (policy : PolicyOutcome) (r : ScanResult)
      → finish_scan crates e boundary body parts (reviewed parts policy) ≡ ok r
      → IsSafe boundary body parts r
  unfolding finish_scan
  finish_scan-IsSafe boundary body parts policy r h =
      elim (Bool-cases (same_action (reviewed parts policy).decision redact)) [
        | inl d ↦
            let q =
              bind-ok (rewrite_parts crates e (reviewed parts policy).findings parts)
                (λ s. ok (rebuilt boundary body (reviewed parts policy) s)) r
                (rw (finish_scan, d) at h) in
            rw (sym (ok_injective (rebuilt boundary body (reviewed parts policy) q.0) r q.2)) (
              rebuilt-IsSafe boundary body parts (reviewed parts policy) q.0 d
                (reviewed-redact parts policy d) q.1)
        | inr d ↦
            rw
              (sym (
                ok_injective (record { sanitized_body = body; policy = reviewed parts policy }) r
                  (rw (finish_scan, d) at h)))
              (inl (d, refl))
      ]
