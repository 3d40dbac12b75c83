-- ===== src/Attachments/Request.antt =====
-- src/attachments.rs: the scan of a multipart request, part by part, and the body that is sent.
pub mod Rewritten
pub mod Safe
use ctxward.Prelude.{
  ℕ, zero, suc, ◌+◌, ◌-◌, Bool, true, false, not, ◌&&◌, ◌||◌, Option, none, some, List, [], ◌∷◌,
  ◌++◌, map, Text, bytes, any, length, ltb, eqb, text_eq, if◌then◌else◌,
}
use ctxward.Prelude.Ascii.{trim, starts_with}
use ctxward.Core.Auth.{Principal}
use ctxward.Core.Types.{request, allow, redact, review, same_action}
use ctxward.Core.Detect.Findings.{DetectionFinding}
use ctxward.Core.Detect.Scan.{scan_text}
use ctxward.Core.Policy.{ResolvedFinding, PolicyOutcome, resolve}
use ctxward.Core.Redact.{TokenizerAt, starts_char, redact_text}
use ctxward.Presidio.{PresidioAnalyzer, analyze, is_empty}
use ctxward.App.Engines.{Engines}
use ctxward.Attachments.Errors.{
  AttachmentError, missing_boundary, too_large, pdf_rewrite, Attempt, ok, err, panicked, ◌>>=◌,
  of_redacted, of_scan, of_analysis,
}
use ctxward.Attachments.Multipart.{
  MultipartPart, Parts, is_multipart_form, parse_boundary, parse_multipart_parts,
  rebuild_multipart_body,
}
use ctxward.Attachments.Multipart
use ctxward.Attachments.Documents.{
  DocumentCrates, PdfPage, PdfDocument, OoxmlTextNode, OoxmlEntry, OoxmlDocument, AttachmentContent,
  nothing, plain, extracted, pdf_content, ooxml_content, is_media_type_allowed, file_name,
  is_attachment, pointer_name, media_type, extract_attachment_content,
}
use ctxward.Attachments.Scan.{scan_attachment_content}
use ctxward.Attachments.Rewriting.{rewrite_pdf, rewrite_ooxml, findings_at}

-- `AttachmentConfig` of config.rs
pub record AttachmentConfig : Type 0 where
  pub enabled : Bool
  pub max_bytes : ℕ
  pub max_text_chars : ℕ
  pub allowed_media_types : List Text

pub data RewritePlan : Type 0 where
  keep : RewritePlan
  text_plan : RewritePlan
  pdf_plan : PdfDocument → RewritePlan
  ooxml_plan : OoxmlDocument → RewritePlan

-- `RewritePlan::from_content`
abbrev pub plan_of : AttachmentContent → RewritePlan
plan_of nothing = keep
plan_of (plain text) = text_plan
plan_of (extracted text) = keep
plan_of (pdf_content d) = pdf_plan d
plan_of (ooxml_content d) = ooxml_plan d

abbrev pub is_rewritable : RewritePlan → Bool
is_rewritable keep = false
is_rewritable text_plan = true
is_rewritable (pdf_plan d) = true
is_rewritable (ooxml_plan d) = true

pub record ScannedPart : Type 0 where
  pub raw : MultipartPart
  pub pointer : Text
  pub rewrite_plan : RewritePlan
  pub rewritten_body : Option Text

-- `finding_targets_part`
pub finding_targets_part : Text → Text → Bool
unfolding starts_with
finding_targets_part pointer part_pointer =
    if is_empty part_pointer
    then false
    else text_eq pointer part_pointer
      || (starts_with (part_pointer ++ bytes "/") pointer
          || starts_with (part_pointer ++ bytes "#") pointer)

-- `AttachmentScanResult`
pub record ScanResult : Type 0 where
  pub sanitized_body : Text
  pub policy : PolicyOutcome

abbrev pub unscanned : MultipartPart → Text → ScannedPart
unscanned part pointer = record {
  raw = part;
  pointer = pointer;
  rewrite_plan = keep;
  rewritten_body = none;
}

abbrev pub attachment_pointer : MultipartPart → Text
attachment_pointer part = bytes "/attachments/" ++ pointer_name part

pub non_rewritable_sensitive : List ScannedPart → List ResolvedFinding → Bool
unfolding finding_targets_part
non_rewritable_sensitive parts findings =
    any
      (λ (part : ScannedPart).
        not (is_rewritable part.rewrite_plan)
        && any (λ (f : ResolvedFinding). finding_targets_part f.pointer part.pointer) findings)
      parts

abbrev pub to_review : PolicyOutcome → PolicyOutcome
to_review policy = record policy {
  decision = review;
  source = bytes "attachment_review_fallback";
  reason = some (bytes "attachment contains sensitive content that cannot be rewritten safely");
}

pub reviewed : List ScannedPart → PolicyOutcome → PolicyOutcome
unfolding non_rewritable_sensitive
reviewed parts policy =
    if non_rewritable_sensitive parts policy.findings && same_action policy.decision redact
    then to_review policy
    else policy

abbrev pub with_rewritten :
    ScannedPart → Option Text → Option (List ScannedPart) → Option (List ScannedPart)
with_rewritten part body none = none
with_rewritten part body (some parts) = some (record part { rewritten_body = body } ∷ parts)

-- A part and the parts after it. A PDF that cannot be written ends the loop without an error.
abbrev pub part_result :
    ScannedPart
    → Attempt (Option Text)
    → Attempt (Option (List ScannedPart))
    → Attempt (Option (List ScannedPart))
part_result part (ok body) rest = rest >>= λ parts. ok (with_rewritten part body parts)
part_result part (err (pdf_rewrite message)) rest = ok none
part_result part (err other) rest = err other
part_result part panicked rest = panicked

abbrev pub sent_part : ScannedPart → Text × Text
sent_part part = (part.raw.headers, elim part.rewritten_body [ none ↦ part.raw.body | some b ↦ b ])

abbrev pub rebuilt : Text → Text → PolicyOutcome → Option (List ScannedPart) → ScanResult
rebuilt boundary body policy none = record { sanitized_body = body; policy = to_review policy }
rebuilt boundary body policy (some parts) = record {
  sanitized_body = rebuild_multipart_body boundary (map sent_part parts);
  policy = policy;
}

module _ (crates : DocumentCrates) (e : Engines) where
  -- `RewritePlan::rewrite`
  pub rewrite_part : RewritePlan → Text → Text → List ResolvedFinding → Attempt (Option Text)
  unfolding redact_text rewrite_pdf rewrite_ooxml
  rewrite_part keep body pointer findings = ok none
  rewrite_part text_plan body pointer findings = elim (findings_at pointer findings) [
    | [] ↦ ok none
    | f ∷ fs ↦
        of_redacted
          (redact_text e.sha256_hex (crates.utf8_lossy body) (f ∷ fs) (e.tokenizer pointer))
        >>= λ rewritten. ok (some rewritten)
  ]
  rewrite_part (pdf_plan d) body pointer findings =
      rewrite_pdf crates e.sha256_hex e.tokenizer d findings
  rewrite_part (ooxml_plan d) body pointer findings =
      rewrite_ooxml crates e.sha256_hex e.tokenizer d findings

  -- The content of one attachment, and what is found in it.
  pub scan_part : AttachmentConfig → MultipartPart → Attempt (ScannedPart × List DetectionFinding)
  unfolding is_media_type_allowed media_type pointer_name extract_attachment_content
      scan_attachment_content is_attachment
  scan_part config part =
      if not (is_attachment part)
      then ok (unscanned part [], [])
      else if not (is_media_type_allowed (media_type part) config.allowed_media_types)
      then ok (unscanned part (attachment_pointer part), [])
      else if ltb config.max_bytes (length part.body)
      then err (too_large (length part.body))
      else (extract_attachment_content crates part.body (media_type part) (file_name part)
            (attachment_pointer part)
          >>= λ content.
              scan_attachment_content e content (attachment_pointer part) config.max_text_chars
              >>= λ found. ok (
                record {
                  raw = part;
                  pointer = attachment_pointer part;
                  rewrite_plan = plan_of content;
                  rewritten_body = none;
                },
                found,
              ))

  pub scan_parts :
      AttachmentConfig → List MultipartPart → Attempt (List ScannedPart × List DetectionFinding)
  unfolding scan_part
  scan_parts config [] = ok ([], [])
  scan_parts config (part ∷ parts) =
      scan_part config part >>= λ r. scan_parts config parts >>= λ s. ok (r.0 ∷ s.0, r.1 ++ s.1)

  -- The loop over the parts: all of them rewritten, or none where a PDF cannot be.
  pub rewrite_parts : List ResolvedFinding → List ScannedPart → Attempt (Option (List ScannedPart))
  unfolding rewrite_part
  rewrite_parts findings [] = ok (some [])
  rewrite_parts findings (part ∷ parts) =
      part_result part (rewrite_part part.rewrite_plan part.raw.body part.pointer findings)
        (rewrite_parts findings parts)

  -- What is sent, by the policy for the scanned parts.
  pub finish_scan : Text → Text → List ScannedPart → PolicyOutcome → Attempt ScanResult
  unfolding rewrite_parts rebuild_multipart_body
  finish_scan boundary body parts policy =
      if same_action policy.decision redact
      then (rewrite_parts policy.findings parts >>= λ r. ok (rebuilt boundary body policy r))
      else ok (record { sanitized_body = body; policy = policy })

  pub scan_all : AttachmentConfig → Principal → Text → Text → Parts → Attempt ScanResult
  unfolding scan_parts resolve reviewed finish_scan
  scan_all config principal boundary body (Multipart.err error) = err error
  scan_all config principal boundary body Multipart.out_of_fuel = panicked
  scan_all config principal boundary body (Multipart.ok []) = ok (record {
    sanitized_body = body;
    policy = record { decision = allow; findings = []; source = bytes "builtin"; reason = none };
  })
  scan_all config principal boundary body (Multipart.ok (part ∷ parts)) =
      scan_parts config (part ∷ parts) >>= λ r.
      finish_scan boundary body r.0 (reviewed r.0 (resolve principal r.1 request))

  -- `AttachmentEngine::scan_request`
  unfoldable pub scan_request :
      AttachmentConfig → Principal → Text → Option Text → Attempt (Option ScanResult)
  unfolding is_multipart_form parse_boundary parse_multipart_parts scan_all
  scan_request config principal body none = ok none
  scan_request config principal body (some content_type) =
      if not config.enabled || not (is_multipart_form (some content_type))
      then ok none
      else elim (parse_boundary content_type) [
        | none ↦ err missing_boundary
        | some boundary ↦
            scan_all config principal boundary body
              (parse_multipart_parts crates.utf8_lossy body boundary)
            >>= λ r. ok (some r)
      ]
