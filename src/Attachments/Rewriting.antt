-- ===== src/Attachments/Rewriting.antt =====
-- src/attachments.rs: an attachment with its findings masked.
use ctxward.Prelude.{
  ℕ, suc, ◌+◌, Bool, true, false, not, ◌&&◌, ◌||◌, Option, none, some, List, [], ◌∷◌, ◌++◌, filter,
  Text, bytes, length, text_eq, eq_text, eq_number, eqb, ltb, if◌then◌else◌,
}
use ctxward.Prelude.Decimal.{decimal}
use ctxward.Prelude.Table
use ctxward.Prelude.Table.{Table}
use ctxward.Core.Types.{allow, same_action}
use ctxward.Core.Policy.{ResolvedFinding}
use ctxward.Core.Redact.{TokenizerAt, mask_finding, redact_text}
use ctxward.Attachments.Errors.{
  pdf_rewrite, zip, zip_write, xml, Attempt, ok, err, ◌>>=◌, CrateResult, or_err, of_redacted,
}
use ctxward.Attachments.Documents.{
  DocumentCrates, XmlEvent, text_event, cdata_event, other_event, error_event, ZipEntry, ZipOutput,
  directory, file, copied, PdfPage, PdfDocument, OoxmlTextNode, OoxmlEntry, OoxmlDocument,
}

-- `left.cmp(right)` on texts: `left` does not come after `right`.
pub text_leb : Text → Text → Bool
text_leb [] t = true
text_leb (a ∷ s) [] = false
text_leb (a ∷ s) (b ∷ t) = ltb a b || (eqb a b && text_leb s t)

-- Longer texts come first, and texts of one length in their order.
pub replaced_first : Text → Text → Bool
unfolding text_leb
replaced_first left right =
    if ltb (length right) (length left)
    then true
    else if ltb (length left) (length right)
    then false
    else text_leb left right

pub insert_replacement : Text × Text → List (Text × Text) → List (Text × Text)
unfolding replaced_first
insert_replacement r [] = r ∷ []
insert_replacement r (q ∷ qs) =
    if replaced_first r.0 q.0 then r ∷ q ∷ qs else q ∷ insert_replacement r qs

-- `ordered.sort_by(..)`
pub sort_replacements : List (Text × Text) → List (Text × Text)
unfolding insert_replacement
sort_replacements [] = []
sort_replacements (r ∷ rs) = insert_replacement r (sort_replacements rs)

abbrev pub keep_changed : Text → Text → Table Text Text → Table Text Text
keep_changed matched replacement t =
    if text_eq replacement matched then t else Table.insert matched replacement t

module _ (sha256_hex : Text → Text) (tokenizer : Text → TokenizerAt) where
  -- What is replaced on a page; a later finding of one text replaces an earlier one.
  pub page_replacements : Text → List ResolvedFinding → Table Text Text → Attempt (Table Text Text)
  unfolding mask_finding
  page_replacements pointer [] t = ok t
  page_replacements pointer (f ∷ fs) t =
      elim (not (text_eq f.pointer pointer) || same_action f.effective_action allow) [
        | true ↦ page_replacements pointer fs t
        | false ↦ of_redacted (mask_finding sha256_hex (tokenizer f.pointer) f) >>= λ replacement.
            page_replacements pointer fs (keep_changed f.matched replacement t)
      ]

  abbrev pub keep_page : ℕ → Table Text Text → Table ℕ (Table Text Text) → Table ℕ (Table Text Text)
  keep_page number [] by_page = by_page
  keep_page number (r ∷ rs) by_page = Table.insert number (r ∷ rs) by_page

  pub replacements_by_page :
      List ResolvedFinding
      → List PdfPage
      → Table ℕ (Table Text Text)
      → Attempt (Table ℕ (Table Text Text))
  unfolding page_replacements
  replacements_by_page findings [] by_page = ok by_page
  replacements_by_page findings (page ∷ pages) by_page =
      page_replacements page.pointer findings [] >>= λ t.
      replacements_by_page findings pages (keep_page page.page_number t by_page)

module _ (crates : DocumentCrates) where
  abbrev pub not_replaced : ℕ → Text → Text
  not_replaced number matched =
      bytes "page "
      ++ (decimal number
          ++ (bytes " content stream did not replace target " ++ crates.debug matched))

  -- The replacements of one page, with the document and the number of replacements so far. A text
  -- that is not found is an error.
  pub replace_on_page : ℕ → List (Text × Text) → Text × ℕ → Attempt (Text × ℕ)
  replace_on_page number [] state = ok state
  replace_on_page number ((matched, replacement) ∷ rest) (document, total) =
      or_err pdf_rewrite (crates.replace_partial_text document number matched replacement) >>= λ r.
      elim (eqb r.1 0) [
        | true ↦ err (pdf_rewrite (not_replaced number matched))
        | false ↦ replace_on_page number rest (r.0, total + r.1)
      ]

  pub replace_on_pages : Table ℕ (Table Text Text) → List PdfPage → Text × ℕ → Attempt (Text × ℕ)
  unfolding replace_on_page sort_replacements
  replace_on_pages by_page [] state = ok state
  replace_on_pages by_page (page ∷ pages) state = elim (Table.get page.page_number by_page) [
    | none ↦ replace_on_pages by_page pages state
    | some t ↦ replace_on_page page.page_number (sort_replacements t) state >>= λ s.
        replace_on_pages by_page pages s
  ]

  pub rewrite_pages : PdfDocument → Table ℕ (Table Text Text) → Attempt (Option Text)
  unfolding replace_on_pages
  rewrite_pages d by_page = do
    document ← or_err pdf_rewrite (crates.load_pdf d.original)
    state ← replace_on_pages by_page d.pages (document, 0)
    if eqb state.1 0
        then ok none
        else (or_err pdf_rewrite (crates.save_pdf state.0) >>= λ output. ok (some output))

  -- `rewrite_ooxml_xml`: the loop over the events, with the number of the next text event.
  pub rewrite_events : Table ℕ Text → ℕ → List XmlEvent → Attempt Text
  rewrite_events replacements index [] = ok []
  rewrite_events replacements index (other_event raw ∷ events) =
      rewrite_events replacements index events >>= λ rest. ok (raw ++ rest)
  rewrite_events replacements index (error_event message ∷ events) = err (xml message)
  rewrite_events replacements index (text_event raw decoded ∷ events) =
      rewrite_events replacements (suc index) events >>= λ rest.
      ok (elim (Table.get index replacements) [
        | none ↦ raw ++ rest
        | some text ↦ crates.write_text text ++ rest
      ])
  rewrite_events replacements index (cdata_event raw decoded ∷ events) =
      rewrite_events replacements (suc index) events >>= λ rest.
      ok (elim (Table.get index replacements) [
        | none ↦ raw ++ rest
        | some text ↦ crates.write_cdata text ++ rest
      ])

  -- `rebuild_ooxml_archive`
  pub archive_outputs : Table Text Text → List (CrateResult ZipEntry) → Attempt (List ZipOutput)
  archive_outputs rewritten [] = ok []
  archive_outputs rewritten (entry ∷ rest) = or_err zip entry >>= λ e.
      archive_outputs rewritten rest >>= λ outputs. ok (
        (if e.is_dir
          then directory e.name
          else elim (Table.get e.name rewritten) [ none ↦ copied e | some t ↦ file e.name t ])
        ∷ outputs)

  pub rebuild_ooxml_archive : Text → Table Text Text → Attempt Text
  unfolding archive_outputs
  rebuild_ooxml_archive original rewritten = do
    archive ← or_err zip (crates.read_archive original)
    outputs ← archive_outputs rewritten archive
    or_err zip_write (crates.write_archive outputs)

-- The findings at a pointer, in their order.
abbrev pub findings_at : Text → List ResolvedFinding → List ResolvedFinding
findings_at pointer findings = filter (λ f. text_eq f.pointer pointer) findings

abbrev pub keep_text : ℕ → Text → Text → Table ℕ Text → Table ℕ Text
keep_text index text rewritten t =
    if text_eq rewritten text then t else Table.insert index rewritten t

module _ (crates : DocumentCrates) (sha256_hex : Text → Text) (tokenizer : Text → TokenizerAt) where
  abbrev pub keep_pages : PdfDocument → Table ℕ (Table Text Text) → Attempt (Option Text)
  keep_pages d [] = ok none
  keep_pages d (p ∷ ps) = rewrite_pages crates d (p ∷ ps)

  -- `PdfDocument::rewrite`
  unfoldable pub rewrite_pdf : PdfDocument → List ResolvedFinding → Attempt (Option Text)
  unfolding replacements_by_page rewrite_pages
  rewrite_pdf d findings =
      replacements_by_page sha256_hex tokenizer findings d.pages [] >>= λ by_page.
      keep_pages d by_page

  -- What is replaced in an entry.
  pub entry_replacements :
      List ResolvedFinding → List OoxmlTextNode → Table ℕ Text → Attempt (Table ℕ Text)
  unfolding redact_text
  entry_replacements findings [] t = ok t
  entry_replacements findings (node ∷ nodes) t = elim (findings_at node.pointer findings) [
    | [] ↦ entry_replacements findings nodes t
    | f ∷ fs ↦
        of_redacted (redact_text sha256_hex node.text (f ∷ fs) (tokenizer node.pointer))
        >>= λ rewritten.
            entry_replacements findings nodes (keep_text node.event_index node.text rewritten t)
  ]

  pub rewrite_entry : OoxmlEntry → Table ℕ Text → Table Text Text → Attempt (Table Text Text)
  unfolding rewrite_events
  rewrite_entry entry [] done_entries = ok done_entries
  rewrite_entry entry (r ∷ rs) done_entries =
      rewrite_events crates (r ∷ rs) 0 (crates.xml_events entry.xml_text) >>= λ text.
      ok (Table.insert entry.path text done_entries)

  pub rewrite_entries :
      List ResolvedFinding → List OoxmlEntry → Table Text Text → Attempt (Table Text Text)
  unfolding entry_replacements rewrite_entry
  rewrite_entries findings [] done_entries = ok done_entries
  rewrite_entries findings (entry ∷ entries) done_entries =
      entry_replacements findings entry.nodes [] >>= λ t.
      rewrite_entry entry t done_entries >>= λ next. rewrite_entries findings entries next

  abbrev pub rebuild_changed : OoxmlDocument → Table Text Text → Attempt (Option Text)
  rebuild_changed d [] = ok none
  rebuild_changed d (e ∷ es) =
      rebuild_ooxml_archive crates d.original (e ∷ es) >>= λ output. ok (some output)

  -- `OoxmlDocument::rewrite`
  unfoldable pub rewrite_ooxml : OoxmlDocument → List ResolvedFinding → Attempt (Option Text)
  unfolding rewrite_entries rebuild_ooxml_archive
  rewrite_ooxml d findings =
      rewrite_entries findings d.entries [] >>= λ entries. rebuild_changed d entries
