-- ===== src/Attachments/Request/Safe.antt =====
-- src/attachments.rs: what is sent of a multipart body under each decision.
use ctxward.Prelude.{
  ◌≡◌, refl, sym, ap, ◌∙◌, not, ◌&&◌, Bool-cases, inl, inr, Option, none, some, List, [], ◌∷◌, Text,
  bytes, ◌||◌, Option-cases, ◌⊎◌, ◌++◌, false, ltb, length,
}
use ctxward.Core.Auth.{Principal}
use ctxward.Core.Types.{allow, request, redact, same_action}
use ctxward.Core.Policy.{PolicyOutcome, resolve}
use ctxward.Core.Detect.Findings.{DetectionFinding}
use ctxward.App.Engines.{Engines}
use ctxward.Attachments.Errors.{Attempt, ok, bind-ok, ◌>>=◌}
use ctxward.Attachments.Multipart
use ctxward.Attachments.Multipart.{
  Parts, parse_boundary, is_multipart_form, parse_multipart_parts, MultipartPart,
  rebuild_multipart_body,
}
use ctxward.Attachments.Documents.{
  DocumentCrates, AttachmentContent, is_attachment, is_media_type_allowed, media_type, file_name,
  extract_attachment_content,
}
use ctxward.Attachments.Scan.{scan_attachment_content}
use ctxward.Attachments.Request.{
  ScannedPart, ScanResult, non_rewritable_sensitive, reviewed, AttachmentConfig, unscanned,
  attachment_pointer, plan_of, scan_part, scan_parts, scan_all, scan_request, rebuilt,
  rewrite_parts, finish_scan,
}
use ctxward.Attachments.Request.Rewritten.{ok_injective, IsSafe, finish_scan-IsSafe}

some_result :
    (a b : ScanResult) → ◌≡◌ {A = Attempt (Option ScanResult)} (ok (some a)) (ok (some b)) → a ≡ b
some_result a b h = cc

nothing_found : Text → ScanResult
nothing_found body = record {
  sanitized_body = body;
  policy = record { decision = allow; findings = []; source = bytes "builtin"; reason = none };
}

module _ (crates : DocumentCrates) (e : Engines) where
  rebuilt-findings :
      (boundary body : Text) (policy : PolicyOutcome) (o : Option (List ScannedPart))
      → (rebuilt boundary body policy o).policy.findings ≡ policy.findings
  rebuilt-findings boundary body policy none = refl
  rebuilt-findings boundary body policy (some qs) = refl

  finish_scan-findings :
      (boundary body : Text) (parts : List ScannedPart) (policy : PolicyOutcome) (r : ScanResult)
      → finish_scan crates e boundary body parts policy ≡ ok r
      → r.policy.findings ≡ policy.findings
  unfolding finish_scan
  finish_scan-findings boundary body parts policy r h =
      elim (Bool-cases (same_action policy.decision redact)) [
        | inl d ↦
            let q =
              bind-ok (rewrite_parts crates e policy.findings parts)
                (λ s. ok (rebuilt boundary body policy s)) r (rw (finish_scan, d) at h) in
            rw (sym (ok_injective (rebuilt boundary body policy q.0) r q.2))
              (rebuilt-findings boundary body policy q.0)
        | inr d ↦
            rw
              (sym (
                ok_injective (record { sanitized_body = body; policy = policy }) r
                  (rw (finish_scan, d) at h)))
              refl
      ]

  reviewed-findings :
      (parts : List ScannedPart) (policy : PolicyOutcome)
      → (reviewed parts policy).findings ≡ policy.findings
  unfolding reviewed
  reviewed-findings parts policy =
      elim (Bool-cases
        (non_rewritable_sensitive parts policy.findings && same_action policy.decision redact)) [
          | inl d ↦ rw d refl
          | inr d ↦ rw d refl
        ]

  -- What the scan makes of a part: nothing is found in what is no attachment, nor in one of a media
  -- type that is not allowed; the content of any other, which is not too large, is taken out and
  -- scanned.
  abbrev pub ScansPart :
      AttachmentConfig → MultipartPart → ScannedPart → List DetectionFinding → Type 0
  ScansPart config part q found =
      ((is_attachment part ≡ false) × (q ≡ unscanned part []) × (found ≡ []))
      ⊎ ((is_media_type_allowed (media_type part) config.allowed_media_types ≡ false)
          × (q ≡ unscanned part (attachment_pointer part))
          × (found ≡ []))
      ⊎ ((ltb config.max_bytes (length part.body) ≡ false)
          × ((content : AttachmentContent) × (extract_attachment_content crates part.body
                  (media_type part) (file_name part) (attachment_pointer part)
                ≡ ok content)
              × (scan_attachment_content e content (attachment_pointer part) config.max_text_chars
                  ≡ ok found)
              × (q ≡ record (unscanned part (attachment_pointer part)) {
                rewrite_plan = plan_of content;
              })))

  -- What is found in the parts is what is found in the first, then in the next, and so on.
  abbrev pub Scans :
      AttachmentConfig → List MultipartPart → List ScannedPart → List DetectionFinding → Type 0
  Scans config [] [] found = found ≡ []
  Scans config [] (q ∷ qs) found = ⊥
  Scans config (p ∷ ps) [] found = ⊥
  Scans config (p ∷ ps) (q ∷ qs) found =
      (here rest : List DetectionFinding) × ScansPart config p q here
      × Scans config ps qs rest
      × (found ≡ here ++ rest)

  pair_injective :
      (q q' : ScannedPart) (fs fs' : List DetectionFinding)
      → ◌≡◌ {A = Attempt (ScannedPart × List DetectionFinding)} (ok (q, fs)) (ok (q', fs'))
      → (q' ≡ q) × (fs' ≡ fs)
  pair_injective q q' fs fs' h =
      let e : (q, fs) ≡ (q', fs') = ok_injective (q, fs) (q', fs') h in
      (
        sym (ap (λ (x : ScannedPart × List DetectionFinding). x.0) e),
        sym (ap (λ (x : ScannedPart × List DetectionFinding). x.1) e),
      )

  scan_part-Scans :
      (config : AttachmentConfig) (part : MultipartPart) (q : ScannedPart)
      (found : List DetectionFinding)
      → scan_part crates e config part ≡ ok (q, found)
      → ScansPart config part q found
  unfolding scan_part
  scan_part-Scans config part q found h = elim (Bool-cases (is_attachment part)) [
    | inr a ↦ let s = pair_injective _ q _ found (rw (scan_part, a) at h) in inl (a, s.0, s.1)
    | inl a ↦
        elim (Bool-cases (is_media_type_allowed (media_type part) config.allowed_media_types)) [
          | inr m ↦
              let s = pair_injective _ q _ found (rw (scan_part, a, m) at h) in
              inr (inl (m, s.0, s.1))
          | inl m ↦ elim (Bool-cases (ltb config.max_bytes (length part.body))) [
            | inl l ↦ cc (rw (scan_part, a, m, l) at h)
            | inr l ↦
                let pointer = attachment_pointer part in
                let c =
                  bind-ok
                    (extract_attachment_content crates part.body (media_type part) (file_name part)
                      pointer)
                    (λ content.
                      scan_attachment_content e content pointer config.max_text_chars >>= λ fs.
                      ok (record (unscanned part pointer) { rewrite_plan = plan_of content }, fs))
                    (q, found) (rw (scan_part, a, m, l) at h) in
                let f =
                  bind-ok (scan_attachment_content e c.0 pointer config.max_text_chars)
                    (λ fs. ok (record (unscanned part pointer) { rewrite_plan = plan_of c.0 }, fs))
                    (q, found) c.2 in
                let same = pair_injective _ q f.0 found f.2 in
                inr (inr (l, (c.0, c.1, f.1 ∙ ap ok (sym same.1), same.0)))
          ]
        ]
  ]

  scan_parts-Scans :
      (config : AttachmentConfig) (parts : List MultipartPart)
      (o : List ScannedPart × List DetectionFinding)
      → scan_parts crates e config parts ≡ ok o
      → Scans config parts o.0 o.1
  unfolding scan_parts
  scan_parts-Scans config [] o h = rw (sym (ok_injective ([], []) o h)) refl
  scan_parts-Scans config (part ∷ parts) o h =
      let r =
        bind-ok (scan_part crates e config part)
          (λ r. scan_parts crates e config parts >>= λ s. ok (r.0 ∷ s.0, r.1 ++ s.1)) o h in
      let s =
        bind-ok (scan_parts crates e config parts) (λ s. ok (r.0.0 ∷ s.0, r.0.1 ++ s.1)) o r.2 in
      rw (sym (ok_injective (r.0.0 ∷ s.0.0, r.0.1 ++ s.0.1) o s.2)) (
        r.0.1,
        s.0.1,
        scan_part-Scans config part r.0.0 r.0.1 r.1,
        scan_parts-Scans config parts s.0 s.1,
        refl,
      )

  -- The parts were scanned, what was found in them is what the policy was resolved for, and what is
  -- sent is safe.
  pub record IsScanned (config : AttachmentConfig) (principal : Principal) (boundary body : Text)
      (parts : List MultipartPart) (r : ScanResult) : Type 0 where
    pub scanned : List ScannedPart
    pub found : List DetectionFinding
    pub scans : Scans config parts scanned found
    pub resolved : r.policy.findings ≡ (resolve principal found request).findings
    pub safe : IsSafe crates e boundary body scanned r

  scan_all-IsScanned :
      (config : AttachmentConfig) (principal : Principal) (boundary body : Text) (ps : Parts)
      (r : ScanResult)
      → scan_all crates e config principal boundary body ps ≡ ok r
      → (parts : List MultipartPart) × (ps ≡ Multipart.ok parts)
        × IsScanned config principal boundary body parts r
  unfolding scan_all scan_parts nothing_found resolve same_action
  scan_all-IsScanned config principal boundary body (Multipart.err error) r h = cc
  scan_all-IsScanned config principal boundary body Multipart.out_of_fuel r h = cc
  scan_all-IsScanned config principal boundary body (Multipart.ok []) r h = (
    [],
    refl,
    rw (sym (ok_injective (nothing_found body) r h)) (record {
      scanned = [];
      found = [];
      scans = refl;
      resolved = refl;
      safe = inl (refl, refl);
    }),
  )
  scan_all-IsScanned config principal boundary body (Multipart.ok (part ∷ parts)) r h =
      let q =
        bind-ok (scan_parts crates e config (part ∷ parts))
          (λ q.
            finish_scan crates e boundary body q.0 (reviewed q.0 (resolve principal q.1 request)))
          r h in
      let policy = resolve principal q.0.1 request in
      (
        part ∷ parts,
        refl,
        record {
          scanned = q.0.0;
          found = q.0.1;
          scans = scan_parts-Scans config (part ∷ parts) q.0 q.1;
          resolved =
              finish_scan-findings boundary body q.0.0 (reviewed q.0.0 policy) r q.2
              ∙ reviewed-findings q.0.0 policy;
          safe = finish_scan-IsSafe crates e boundary body q.0.0 policy r q.2;
        },
      )

  -- A request with a scan result was parsed into parts. Each attachment of an allowed media type is
  -- not too large and was scanned, and the policy has the findings of all the parts, in their order,
  -- resolved for the principal. Either the decision is other than redact and the body is sent as it
  -- came, or each part is sent under its own headers: a text with findings of its own redacted, a
  -- document as its rewriting gives it, and what these leave alone with its body as it came; and no
  -- finding is at or below a part that cannot be written again.
  pub scan_request-IsScanned :
      (config : AttachmentConfig) (principal : Principal) (body content_type : Text)
      (r : ScanResult)
      → scan_request crates e config principal body (some content_type) ≡ ok (some r)
      → (boundary : Text) × (parts : List MultipartPart) × (parse_boundary content_type
          ≡ some boundary)
        × (parse_multipart_parts crates.utf8_lossy body boundary ≡ Multipart.ok parts)
        × IsScanned config principal boundary body parts r
  unfolding scan_request
  scan_request-IsScanned config principal body content_type r h =
      elim (Bool-cases (not config.enabled || not (is_multipart_form (some content_type)))) [
        | inl d ↦ cc (rw (scan_request, d) at h)
        | inr d ↦ elim (Option-cases (parse_boundary content_type)) [
          | inl n ↦ cc (rw (scan_request, d, n) at h)
          | inr (boundary, n) ↦
              let parsed = parse_multipart_parts crates.utf8_lossy body boundary in
              let q =
                bind-ok (scan_all crates e config principal boundary body parsed) (λ r. ok (some r))
                  (some r) (rw (scan_request, d, n) at h) in
              let s =
                scan_all-IsScanned config principal boundary body parsed r
                  (q.1 ∙ ap ok (some_result q.0 r q.2)) in
              (boundary, s.0, n, s.1, s.2)
        ]
      ]
