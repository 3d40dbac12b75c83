-- ===== src/Attachments/Documents.antt =====
-- src/attachments.rs: what is read of an attachment. The crates for PDF, XML and ZIP are
-- parameters: a document, an event or an archive is what they give for its bytes.
use ctxward.Prelude.{
  ℕ, suc, Bool, true, false, ◌&&◌, ◌||◌, Option, none, some, List, [], ◌∷◌, ◌++◌, Text, bytes, any,
  text_eq, if◌then◌else◌,
}
use ctxward.Prelude.Ascii.{to_lowercase, trim, starts_with, contains_text}
use ctxward.Prelude.Split.{trim_end_byte, ends_with}
use ctxward.Prelude.Decimal.{decimal}
use ctxward.Presidio.{is_empty}
use ctxward.Attachments.Errors.{pdf, zip, xml, Attempt, ok, err, ◌>>=◌, CrateResult, or_err}
use ctxward.Attachments.Multipart.{MultipartPart, parse_disposition_param}

-- An event of `quick_xml`: a text or a CDATA section, as it stands and decoded; any other event as it
-- stands; or an error.
pub data XmlEvent : Type 0 where
  text_event : Text → CrateResult Text → XmlEvent
  cdata_event : Text → CrateResult Text → XmlEvent
  other_event : Text → XmlEvent
  error_event : Text → XmlEvent

-- An entry of an archive: its name, whether it is a directory, and its contents as a text.
pub record ZipEntry : Type 0 where
  pub name : Text
  pub is_dir : Bool
  pub contents : CrateResult Text

-- An entry of the archive that is written: a directory, a file, or a copy of the entry read.
pub data ZipOutput : Type 0 where
  directory : Text → ZipOutput
  file : Text → Text → ZipOutput
  copied : ZipEntry → ZipOutput

-- A loaded PDF document is what `save_to` would write of it. `write_text` and `write_cdata` are the
-- bytes of a new text and of the CDATA sections for a text; a writer to memory does not fail.
pub record DocumentCrates : Type 0 where
  pub utf8_lossy : Text → Text
  pub debug : Text → Text
  pub load_pdf : Text → CrateResult Text
  pub pdf_pages : Text → List (ℕ × CrateResult Text)
  pub replace_partial_text : Text → ℕ → Text → Text → CrateResult (Text × ℕ)
  pub save_pdf : Text → CrateResult Text
  pub extract_pdf_text : Text → CrateResult Text
  pub xml_events : Text → List XmlEvent
  pub write_text : Text → Text
  pub write_cdata : Text → Text
  pub read_archive : Text → CrateResult (List (CrateResult ZipEntry))
  pub write_archive : List ZipOutput → CrateResult Text

pub record PdfPage : Type 0 where
  pub page_number : ℕ
  pub pointer : Text
  pub text : Text

pub record PdfDocument : Type 0 where
  pub original : Text
  pub pages : List PdfPage

pub record OoxmlTextNode : Type 0 where
  pub pointer : Text
  pub event_index : ℕ
  pub text : Text

pub record OoxmlEntry : Type 0 where
  pub path : Text
  pub xml_text : Text
  pub nodes : List OoxmlTextNode

pub record OoxmlDocument : Type 0 where
  pub original : Text
  pub entries : List OoxmlEntry

pub data AttachmentContent : Type 0 where
  nothing : AttachmentContent
  plain : Text → AttachmentContent
  extracted : Text → AttachmentContent
  pdf_content : PdfDocument → AttachmentContent
  ooxml_content : OoxmlDocument → AttachmentContent

unfoldable pub is_media_type_allowed : Text → List Text → Bool
unfolding ends_with starts_with trim_end_byte
is_media_type_allowed media_type allowed =
    any
      (λ candidate.
        text_eq (to_lowercase candidate) (to_lowercase media_type)
        || (ends_with (bytes "/*") (to_lowercase candidate)
            && starts_with (trim_end_byte b'*' (to_lowercase candidate)) (to_lowercase media_type)))
      allowed

abbrev pub office : Text → Text
office kind = bytes "application/vnd.openxmlformats-officedocument." ++ kind

pub detect_media_type : Text → Text
unfolding ends_with
detect_media_type file_name =
    let lower = to_lowercase file_name in
    if ends_with (bytes ".pdf") lower
    then bytes "application/pdf"
    else if ends_with (bytes ".docx") lower
    then office (bytes "wordprocessingml.document")
    else if ends_with (bytes ".xlsx") lower
    then office (bytes "spreadsheetml.sheet")
    else if ends_with (bytes ".pptx") lower
    then office (bytes "presentationml.presentation")
    else if ends_with (bytes ".json") lower
    then bytes "application/json"
    else if ends_with (bytes ".csv") lower
    then bytes "text/csv"
    else if ends_with (bytes ".xml") lower
    then bytes "application/xml"
    else bytes "text/plain"

-- The methods of `MultipartPart`.
pub disposition_param : MultipartPart → Text → Option Text
unfolding parse_disposition_param
disposition_param p key = elim p.content_disposition [
  | none ↦ none
  | some value ↦ parse_disposition_param value key
]

abbrev pub file_name : MultipartPart → Option Text
file_name p = disposition_param p (bytes "filename")

abbrev pub is_some {ℓ} : {A : Type ℓ} → Option A → Bool
is_some none = false
is_some (some a) = true

abbrev pub or_else {ℓ} : {A : Type ℓ} → Option A → A → A
or_else none b = b
or_else (some a) b = a

unfoldable pub is_attachment : MultipartPart → Bool
unfolding disposition_param
is_attachment p = is_some (file_name p)

unfoldable pub pointer_name : MultipartPart → Text
unfolding disposition_param
pointer_name p = or_else (disposition_param p (bytes "name")) (or_else (file_name p) (bytes "file"))

unfoldable pub media_type : MultipartPart → Text
unfolding detect_media_type disposition_param trim
media_type p =
    let declared : Text = elim p.content_type [ none ↦ [] | some value ↦ trim value ] in
    if is_empty declared
      || (text_eq (to_lowercase declared) (bytes "application/octet-stream")
          || text_eq (to_lowercase declared) (bytes "binary/octet-stream"))
    then detect_media_type (or_else (file_name p) [])
    else declared

pub is_ooxml_name : Option Text → Bool
unfolding ends_with
is_ooxml_name none = false
is_ooxml_name (some name) =
    ends_with (bytes ".docx") (to_lowercase name)
    || (ends_with (bytes ".xlsx") (to_lowercase name)
        || ends_with (bytes ".pptx") (to_lowercase name))

unfoldable pub is_ooxml_attachment : Text → Option Text → Bool
unfolding contains_text is_ooxml_name
is_ooxml_attachment media name =
    contains_text (bytes "wordprocessingml.document") media
    || (contains_text (bytes "spreadsheetml.sheet") media
        || (contains_text (bytes "presentationml.presentation") media || is_ooxml_name name))

pub is_ooxml_xml_entry : Text → Bool
unfolding ends_with starts_with
is_ooxml_xml_entry path =
    let lower = to_lowercase path in
    ends_with (bytes ".xml") lower
    && (starts_with (bytes "word/") lower
        || (starts_with (bytes "xl/") lower || starts_with (bytes "ppt/") lower))

-- `format!("{attachment_pointer}/{entry_path}#text/{text_index}")`
pub node_pointer : Text → Text → ℕ → Text
unfolding decimal
node_pointer attachment_pointer entry_path text_index =
    attachment_pointer ++ (bytes "/" ++ (entry_path ++ (bytes "#text/" ++ decimal text_index)))

-- The loop over the events, with the numbers of the next text event and of the next node.
pub text_nodes : Text → Text → ℕ → ℕ → List XmlEvent → Attempt (List OoxmlTextNode)
unfolding node_pointer trim
text_nodes pointer path event_index text_index [] = ok []
text_nodes pointer path event_index text_index (other_event raw ∷ events) =
    text_nodes pointer path event_index text_index events
text_nodes pointer path event_index text_index (error_event message ∷ events) = err (xml message)
text_nodes pointer path event_index text_index (text_event raw decoded ∷ events) =
    or_err xml decoded >>= λ text. elim (is_empty (trim text)) [
      | true ↦ text_nodes pointer path (suc event_index) text_index events
      | false ↦ text_nodes pointer path (suc event_index) (suc text_index) events >>= λ rest. ok (
          record {
            pointer = node_pointer pointer path text_index;
            event_index = event_index;
            text = text;
          }
          ∷ rest)
    ]
text_nodes pointer path event_index text_index (cdata_event raw decoded ∷ events) =
    or_err xml decoded >>= λ text. elim (is_empty (trim text)) [
      | true ↦ text_nodes pointer path (suc event_index) text_index events
      | false ↦ text_nodes pointer path (suc event_index) (suc text_index) events >>= λ rest. ok (
          record {
            pointer = node_pointer pointer path text_index;
            event_index = event_index;
            text = text;
          }
          ∷ rest)
    ]

module _ (crates : DocumentCrates) where
  -- `collect_ooxml_text_nodes`
  abbrev pub collect_ooxml_text_nodes : Text → Text → Text → Attempt (List OoxmlTextNode)
  collect_ooxml_text_nodes xml_text pointer path =
      text_nodes pointer path 0 0 (crates.xml_events xml_text)

  -- The loop over the entries of the archive.
  pub ooxml_entries : Text → List (CrateResult ZipEntry) → Attempt (List OoxmlEntry)
  unfolding text_nodes is_ooxml_xml_entry
  ooxml_entries pointer [] = ok []
  ooxml_entries pointer (entry ∷ rest) = or_err zip entry >>= λ e.
      elim (is_ooxml_xml_entry e.name) [
        | false ↦ ooxml_entries pointer rest
        | true ↦ or_err xml e.contents >>= λ xml_text.
            collect_ooxml_text_nodes xml_text pointer e.name >>= λ nodes.
            ooxml_entries pointer rest >>= λ entries.
            ok (record { path = e.name; xml_text = xml_text; nodes = nodes } ∷ entries)
      ]

  pub extract_ooxml_document : Text → Text → Attempt OoxmlDocument
  unfolding ooxml_entries
  extract_ooxml_document body pointer = do
    archive ← or_err zip (crates.read_archive body)
    entries ← ooxml_entries pointer archive
    ok (record { original = body; entries = entries })

  -- The loop over the pages; those without a text are left out.
  pub pdf_page_texts : Text → List (ℕ × CrateResult Text) → Attempt (List PdfPage)
  unfolding decimal trim
  pdf_page_texts pointer [] = ok []
  pdf_page_texts pointer ((number, page) ∷ rest) = or_err pdf page >>= λ text.
      elim (is_empty (trim text)) [
        | true ↦ pdf_page_texts pointer rest
        | false ↦ pdf_page_texts pointer rest >>= λ pages. ok (
            record {
              page_number = number;
              pointer = pointer ++ (bytes "/page/" ++ decimal number);
              text = text;
            }
            ∷ pages)
      ]

  pub extract_pdf_document : Text → Text → Attempt PdfDocument
  unfolding pdf_page_texts
  extract_pdf_document body pointer = do
    document ← or_err pdf (crates.load_pdf body)
    pages ← pdf_page_texts pointer (crates.pdf_pages document)
    ok (record { original = body; pages = pages })

  -- A PDF document with pages that have text, or else the text that another crate extracts.
  pub pdf_or_text : Text → Attempt PdfDocument → Attempt AttachmentContent
  pdf_or_text body (ok document) =
      if is_empty document.pages
      then (or_err pdf (crates.extract_pdf_text body) >>= λ text. ok (extracted text))
      else ok (pdf_content document)
  pdf_or_text body other = or_err pdf (crates.extract_pdf_text body) >>= λ text. ok (extracted text)

  pub is_text_media : Text → Bool
  unfolding starts_with
  is_text_media media =
      starts_with (bytes "text/") media
      || (text_eq media (bytes "application/json") || text_eq media (bytes "application/xml"))

  unfoldable pub extract_attachment_content :
      Text → Text → Option Text → Text → Attempt AttachmentContent
  unfolding is_text_media pdf_or_text extract_pdf_document extract_ooxml_document
      is_ooxml_attachment
  extract_attachment_content body media name pointer =
      if is_text_media (to_lowercase media)
      then ok (plain (crates.utf8_lossy body))
      else if text_eq (to_lowercase media) (bytes "application/pdf")
      then pdf_or_text body (extract_pdf_document body pointer)
      else if is_ooxml_attachment (to_lowercase media) name
      then (extract_ooxml_document body pointer >>= λ d. ok (ooxml_content d))
      else ok nothing
