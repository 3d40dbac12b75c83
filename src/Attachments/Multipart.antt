-- ===== src/Attachments/Multipart.antt =====
-- src/attachments.rs: the parts of a multipart body. A place in the body is what stands from there
-- on; all slices of the code lie inside, since each place is one that a search has found.
pub mod RoundTrip
pub mod Fuel
use ctxward.Prelude.{
  ℕ, zero, suc, ◌+◌, Bool, true, false, ◌&&◌, ◌||◌, Option, none, some, List, [], ◌∷◌, ◌++◌, Text,
  bytes, length, take, drop, text_eq, eq_text, any, if◌then◌else◌,
}
use ctxward.Prelude.Ascii.{to_lowercase, trim, strip_prefix, starts_with, split_once, contains_text}
use ctxward.Prelude.Split.{split, lines, trim_byte, trim_end_byte, ends_with, find_subslice}
use ctxward.Prelude.Table
use ctxward.Prelude.Table.{Table}
use ctxward.Attachments.Errors.{AttachmentError, malformed_multipart}

-- `is_multipart_form`
unfoldable pub is_multipart_form : Option Text → Bool
unfolding starts_with
is_multipart_form none = false
is_multipart_form (some value) = starts_with (bytes "multipart/form-data") (to_lowercase value)

-- The first part with this prefix, without it and without quotes.
pub param_of : Text → List Text → Option Text
unfolding strip_prefix trim trim_byte
param_of prefix [] = none
param_of prefix (part ∷ parts) = elim (strip_prefix prefix (trim part)) [
  | some value ↦ some (trim_byte b'"' value)
  | none ↦ param_of prefix parts
]

-- `skip(1)`
abbrev pub skip_one {ℓ} : {A : Type ℓ} → List A → List A
skip_one [] = []
skip_one (x ∷ xs) = xs

unfoldable pub parse_boundary : Text → Option Text
unfolding param_of
parse_boundary content_type = param_of (bytes "boundary=") (skip_one (split b';' content_type))

unfoldable pub parse_disposition_param : Text → Text → Option Text
unfolding param_of
parse_disposition_param disposition key =
    param_of (key ++ bytes "=") (skip_one (split b';' disposition))

-- `parse_headers`: a later header replaces an earlier one of its name.
pub parse_header_lines : List Text → Table Text Text → Table Text Text
unfolding split_once trim
parse_header_lines [] t = t
parse_header_lines (line ∷ rest) t = elim (split_once b':' line) [
  | none ↦ parse_header_lines rest t
  | some (name, value) ↦
      parse_header_lines rest (Table.insert (to_lowercase (trim name)) (trim value) t)
]

abbrev pub parse_headers : Text → Table Text Text
parse_headers input = parse_header_lines (lines input) []

pub record MultipartPart : Type 0 where
  pub headers : Text
  pub body : Text
  pub content_disposition : Option Text
  pub content_type : Option Text

-- The result of the loop, which has a value of its own for a loop that has not ended.
pub data Parts : Type 0 where
  ok : List MultipartPart → Parts
  err : AttachmentError → Parts
  out_of_fuel : Parts

abbrev pub cons_part : MultipartPart → Parts → Parts
cons_part p (ok ps) = ok (p ∷ ps)
cons_part p (err e) = err e
cons_part p out_of_fuel = out_of_fuel

abbrev pub crlf : Text
crlf = 13 ∷ 10 ∷ []

abbrev pub blank_line : Text
blank_line = 13 ∷ 10 ∷ 13 ∷ 10 ∷ []

abbrev pub marker : Text → Text
marker boundary = bytes "--" ++ boundary

-- The line end after a boundary, if there is one.
pub skip_line_end : Text → Text
unfolding starts_with
skip_line_end s = if starts_with crlf s then drop 2 s else s

-- `String::from_utf8_lossy`
module _ (utf8_lossy : Text → Text) where
  pub make_part : Text → Text → MultipartPart
  unfolding parse_header_lines
  make_part headers body =
      let parsed = parse_headers (utf8_lossy headers) in
      record {
        headers = headers;
        body = body;
        content_disposition = Table.get (bytes "content-disposition") parsed;
        content_type = Table.get (bytes "content-type") parsed;
      }

  -- The loop, from a place after a boundary. The test at the end of the loop's body is the one at
  -- its head. Each part shortens what is left, so a fuel above its length is enough.
  pub parts_loop : ℕ → Text → Text → Parts
  unfolding starts_with find_subslice make_part skip_line_end
  parts_loop zero boundary s = out_of_fuel
  parts_loop (suc fuel) boundary s = elim (starts_with (bytes "--") s) [
    | true ↦ ok []
    | false ↦
        let part = skip_line_end s in
        elim (find_subslice blank_line part) [
          | none ↦ err malformed_multipart
          | some headers_end ↦
              let after = drop (headers_end + 4) part in
              elim (find_subslice (crlf ++ marker boundary) after) [
                | none ↦ err malformed_multipart
                | some body_end ↦
                    cons_part (make_part (take headers_end part) (take body_end after)) (
                      parts_loop fuel boundary
                        (drop (body_end + 2 + length (marker boundary)) after))
              ]
        ]
  ]

  -- `parse_multipart_parts`
  unfoldable pub parse_multipart_parts : Text → Text → Parts
  unfolding find_subslice parts_loop
  parse_multipart_parts body boundary = elim (find_subslice (marker boundary) body) [
    | none ↦ err malformed_multipart
    | some cursor ↦
        let s = drop (cursor + length (marker boundary)) body in
        parts_loop (suc (length s)) boundary s
  ]

-- `rebuild_multipart_body`, of the headers and the body of each part
unfoldable pub rebuild_multipart_body : Text → List (Text × Text) → Text
rebuild_multipart_body boundary [] = marker boundary ++ (bytes "--" ++ crlf)
rebuild_multipart_body boundary ((headers, body) ∷ parts) =
    marker boundary
    ++ (crlf
        ++ (headers ++ (blank_line ++ (body ++ (crlf ++ rebuild_multipart_body boundary parts)))))
