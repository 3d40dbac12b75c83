-- ===== src/Attachments/Scan.antt =====
-- src/attachments.rs: what is found in an attachment. Characters are counted by the bytes that
-- begin one.
use ctxward.Prelude.{
  ℕ, zero, suc, ◌-◌, true, false, Option, none, some, List, [], ◌∷◌, ◌++◌, map, Text, eqb,
  if◌then◌else◌,
}
use ctxward.Prelude.Ascii.{trim}
use ctxward.Core.Detect.Findings.{DetectionFinding}
use ctxward.Core.Detect.Scan.{scan_text}
use ctxward.Core.Redact.{starts_char}
use ctxward.Presidio.{PresidioAnalyzer, analyze, is_empty}
use ctxward.App.Engines.{Engines}
use ctxward.Attachments.Errors.{Attempt, ok, ◌>>=◌, of_scan, of_analysis}
use ctxward.Attachments.Documents.{
  PdfPage, OoxmlTextNode, OoxmlEntry, AttachmentContent, nothing, plain, extracted, pdf_content,
  ooxml_content,
}

-- `input.chars().take(max_chars)`
pub limit_text : Text → ℕ → Text
unfolding starts_char
limit_text [] n = []
limit_text (b ∷ s) zero = if starts_char (b ∷ s) then [] else b ∷ limit_text s 0
limit_text (b ∷ s) (suc n) = b ∷ limit_text s (if starts_char (b ∷ s) then n else suc n)

-- `chars().count()`
pub char_count : Text → ℕ
unfolding starts_char
char_count [] = 0
char_count (b ∷ s) = if starts_char (b ∷ s) then suc (char_count s) else char_count s

module _ (e : Engines) where
  abbrev pub presidio_part : Text → Text → Option PresidioAnalyzer → Attempt (List DetectionFinding)
  presidio_part text pointer none = ok []
  presidio_part text pointer (some p) = of_analysis (analyze e.sha256_hex p text pointer)

  pub scan_text_with_engines : Text → Text → Attempt (List DetectionFinding)
  unfolding scan_text analyze trim
  scan_text_with_engines text pointer =
      if is_empty (trim text)
      then ok []
      else (of_scan (scan_text e.sha256_hex e.sum_at_least e.detector text pointer) >>= λ found.
          presidio_part text pointer e.presidio >>= λ more. ok (found ++ more))

  -- `scan_pdf_document` and `scan_ooxml_document` over texts with their pointers: each takes from
  -- the characters that remain.
  pub scan_texts : ℕ → List (Text × Text) → Attempt (List DetectionFinding)
  unfolding scan_text_with_engines limit_text char_count
  scan_texts remaining [] = ok []
  scan_texts remaining ((text, pointer) ∷ rest) = elim (eqb remaining 0) [
    | true ↦ ok []
    | false ↦
        let limited = limit_text text remaining in
        scan_text_with_engines limited pointer >>= λ found.
        scan_texts (remaining - char_count limited) rest >>= λ more. ok (found ++ more)
  ]

  abbrev pub node_texts : List OoxmlTextNode → List (Text × Text)
  node_texts nodes = map (λ (n : OoxmlTextNode). (n.text, n.pointer)) nodes

  abbrev pub entry_texts : List OoxmlEntry → List (Text × Text)
  entry_texts [] = []
  entry_texts (entry ∷ entries) = node_texts entry.nodes ++ entry_texts entries

  unfoldable pub scan_attachment_content :
      AttachmentContent → Text → ℕ → Attempt (List DetectionFinding)
  unfolding scan_texts scan_text_with_engines limit_text
  scan_attachment_content nothing pointer max_chars = ok []
  scan_attachment_content (plain text) pointer max_chars =
      scan_text_with_engines (limit_text text max_chars) pointer
  scan_attachment_content (extracted text) pointer max_chars =
      scan_text_with_engines (limit_text text max_chars) pointer
  scan_attachment_content (pdf_content d) pointer max_chars =
      scan_texts max_chars (map (λ (p : PdfPage). (p.text, p.pointer)) d.pages)
  scan_attachment_content (ooxml_content d) pointer max_chars =
      scan_texts max_chars (entry_texts d.entries)
