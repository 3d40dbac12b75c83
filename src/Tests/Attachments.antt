-- ===== src/Tests/Attachments.antt =====
-- Multipart bodies, and messages through the handler of the proxy that intercepts.
use ctxward.Prelude.{◌≡◌, refl, true, Option, none, some, [], ◌∷◌, ◌++◌, Text, bytes, List, text_eq}
use ctxward.Prelude.Ascii.{lower_byte}
use ctxward.Prelude.Split.{lines_from, split_from}
use ctxward.Prelude.Table
use ctxward.Core.RedactApi.{local_principal}
use ctxward.Core.Types.{allow, same_action, combine, at_least}
use ctxward.Core.Detect.Findings.{new_finding}
use ctxward.Core.Detect.Scan.{to_metadata}
use ctxward.Attachments.Errors.{CrateResult, failed, Attempt}
use ctxward.Attachments.Errors
use ctxward.Attachments.Documents.{DocumentCrates}
use ctxward.Attachments.Multipart.{
  MultipartPart, ok, out_of_fuel, parse_boundary, parse_multipart_parts, rebuild_multipart_body,
}
use ctxward.Attachments.Multipart.RoundTrip.{parse-rebuild}
use ctxward.Attachments.Multipart.Fuel.{parse_multipart_parts-ends}
use ctxward.Attachments.Request.{AttachmentConfig, ScanResult, scan_request}
use ctxward.Attachments.Request.Safe.{IsScanned, scan_request-IsScanned}
use ctxward.Tests.Payloads.{engines}

abbrev body : Text
body =
    bytes "--b"
    ++ (13 ∷ 10 ∷ bytes "h:1")
    ++ (13 ∷ 10 ∷ 13 ∷ 10 ∷ bytes "a@b")
    ++ (13 ∷ 10 ∷ bytes "--b--")
    ++ 13 ∷ 10 ∷ []

abbrev part : MultipartPart
part = record {
  headers = bytes "h:1";
  body = bytes "a@b";
  content_disposition = none;
  content_type = none;
}

parse-rebuild_example :
    parse_multipart_parts
      (λ s. s)
      (rebuild_multipart_body (bytes "b") ((bytes "h:1", bytes "--b") ∷ []))
      (bytes "b")
    ≡ ok (record part { body = bytes "--b" } ∷ [])
unfolding parse_multipart_parts Table.get Table.insert lines_from text_eq lower_byte
parse-rebuild_example =
    parse-rebuild (λ s. s) (bytes "b") body (part ∷ []) (λ p. bytes "--b") refl
      ((refl, (refl, (refl, tt))), tt)

parse_multipart_parts-ends_example :
    ¬ (parse_multipart_parts (λ s. s) body (bytes "b") ≡ out_of_fuel)
parse_multipart_parts-ends_example = parse_multipart_parts-ends (λ s. s) (bytes "b") body

-- No crate reads a document.
abbrev pub documents : DocumentCrates
documents = record {
  utf8_lossy = λ s. s;
  debug = λ s. s;
  load_pdf = λ s. failed [];
  pdf_pages = λ s. [];
  replace_partial_text = λ s n t u. failed [];
  save_pdf = λ s. failed [];
  extract_pdf_text = λ s. failed [];
  xml_events = λ s. [];
  write_text = λ s. s;
  write_cdata = λ s. s;
  read_archive = λ s. failed [];
  write_archive = λ s. failed [];
}

abbrev pub attachments : AttachmentConfig
attachments = record {
  enabled = true;
  max_bytes = 100;
  max_text_chars = 100;
  allowed_media_types = bytes "text/plain" ∷ [];
}

-- One file with a text.
abbrev upload : Text
upload =
    bytes "--b"
    ++ (13 ∷ 10 ∷ bytes "content-disposition: form-data; filename=\"f.txt\"")
    ++ (13 ∷ 10 ∷ 13 ∷ 10 ∷ bytes "a@b")
    ++ (13 ∷ 10 ∷ bytes "--b--")
    ++ 13 ∷ 10 ∷ []

abbrev form_type : Text
form_type = bytes "multipart/form-data; boundary=b"

abbrev scan_or_empty : Attempt (Option ScanResult) → ScanResult
scan_or_empty (Errors.ok (some r)) = r
scan_or_empty other = record {
  sanitized_body = [];
  policy = record { decision = allow; findings = []; source = []; reason = none };
}

abbrev uploaded : ScanResult
uploaded =
    scan_or_empty
      (scan_request documents engines attachments local_principal upload (some form_type))

scan_request-IsScanned_example :
    (boundary : Text) × (parts : List MultipartPart) × (parse_boundary form_type ≡ some boundary)
    × (parse_multipart_parts documents.utf8_lossy upload boundary ≡ ok parts)
    × IsScanned documents engines attachments local_principal boundary upload parts uploaded
unfolding scan_request lower_byte split_from Table.get lines_from Table.insert text_eq same_action
    combine at_least new_finding to_metadata
scan_request-IsScanned_example =
    scan_request-IsScanned documents engines attachments local_principal upload form_type uploaded
      refl
