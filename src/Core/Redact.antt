-- ===== src/Core/Redact.antt =====
-- crates/ctxward-core/src/redact.rs: masks, and a text with its findings masked. A text is the
-- list of its UTF-8 bytes; a slice or a replacement off a char boundary panics, as in Rust.
pub mod Select
pub mod Cover
pub mod Splice
pub mod Masks
pub mod Exact
pub mod Overlap
use ctxward.Prelude.{
  ℕ, ◌+◌, ◌-◌, Bool, true, false, not, ◌&&◌, ◌||◌, Option, none, some, List, [], ◌∷◌, ◌++◌, Text,
  bytes, length, take, drop, filter, leb, ltb, eqb, if◌then◌else◌,
}
use ctxward.Prelude.Ascii.{to_uppercase, split_once}
use ctxward.Core.Types.{
  DecisionAction, allow, MaskingStrategy, placeholder, partial_email, partial_phone, keep_last4,
  hash, tokenize, full, rank, same_action,
}
use ctxward.Core.Policy.{ResolvedFinding}
use ctxward.Core.Tokenize.{TokenizationError, required_but_disabled, Tokenized}
use ctxward.Core.Tokenize

-- A text, an error of the tokenizer, or a panic.
pub data Redacted {ℓ} (A : Type ℓ) : Type ℓ where
  ok : A → Redacted A
  err : TokenizationError → Redacted A
  panicked : Redacted A

infixl 5 ◌>>=◌
abbrev pub ◌>>=◌ {ℓ κ} : {A : Type ℓ} {B : Type κ} → Redacted A → (A → Redacted B) → Redacted B
ok a >>= f = f a
err e >>= f = err e
panicked >>= f = panicked

-- No continuation byte of UTF-8 stands at the beginning.
unfoldable pub starts_char : Text → Bool
starts_char [] = true
starts_char (b ∷ s) = not (leb 128 b && leb b 191)

-- `str::is_char_boundary`
unfoldable pub is_char_boundary : Text → ℕ → Bool
unfolding starts_char
is_char_boundary s i = eqb i 0 || (leb i (length s) && starts_char (drop i s))

-- `&input[..i]` and `&input[i..]`
abbrev slice_to : Text → ℕ → Redacted Text
slice_to s i = if is_char_boundary s i then ok (take i s) else panicked

abbrev slice_from : Text → ℕ → Redacted Text
slice_from s i = if is_char_boundary s i then ok (drop i s) else panicked

-- `String::replace_range(start..end, with)`
pub replace_range : Text → ℕ → ℕ → Text → Redacted Text
unfolding is_char_boundary
replace_range s start end with =
    if leb start end && (is_char_boundary s start && is_char_boundary s end)
    then ok (take start s ++ (with ++ drop end s))
    else panicked

-- The number of bytes of the char that begins with this byte.
pub char_width : ℕ → ℕ
char_width b = if ltb b 192 then 1 else if ltb b 224 then 2 else if ltb b 240 then 3 else 4

-- `local.chars().next().unwrap_or('*')`
pub first_char : Text → Text
unfolding char_width
first_char [] = bytes "*"
first_char (b ∷ s) = take (char_width b) (b ∷ s)

pub mask_email : Text → Text
unfolding first_char
mask_email input = elim (split_once b'@' input) [
  | none ↦ bytes "[EMAIL]"
  | some (local, domain) ↦ first_char local ++ (bytes "***@" ++ domain)
]

pub mask_phone : Text → Redacted Text
mask_phone input =
    if ltb (length input) 7
    then ok (bytes "[PHONE]")
    else slice_to input 3 >>= λ prefix.
        slice_from input (length input - 4) >>= λ suffix. ok (prefix ++ (bytes "****" ++ suffix))

pub mask_keep_last4 : Text → Redacted Text
mask_keep_last4 input =
    if leb (length input) 4
    then ok (bytes "[ID]")
    else slice_from input (length input - 4) >>= λ suffix. ok (bytes "************" ++ suffix)

abbrev pub of_tokenized : Tokenized Text → Redacted Text
of_tokenized (Tokenize.ok s) = ok s
of_tokenized (Tokenize.err e) = err e

-- `sha256_hex` is the digest in hexadecimal. The tokenizer, if there is one, is a function of the
-- label and the value; `apply_mask` is given it with the UUID that this call draws.
module _ (sha256_hex : Text → Text) where
  unfoldable pub apply_mask :
      Option (Text → Text → Tokenized Text) → Text → MaskingStrategy → Text → Redacted Text
  unfolding mask_email mask_phone mask_keep_last4
  apply_mask tokenizer input placeholder label = ok (b'[' ∷ (to_uppercase label ++ bytes "]"))
  apply_mask tokenizer input partial_email label = ok (mask_email input)
  apply_mask tokenizer input partial_phone label = mask_phone input
  apply_mask tokenizer input keep_last4 label = mask_keep_last4 input
  apply_mask tokenizer input hash label =
      ok (b'[' ∷ (to_uppercase label ++ (bytes ":" ++ (take 12 (sha256_hex input) ++ bytes "]"))))
  apply_mask none input tokenize label = err required_but_disabled
  apply_mask (some run) input tokenize label = of_tokenized (run label input)
  apply_mask tokenizer input full label = ok (bytes "[REDACTED]")

unfoldable pub is_selected : ResolvedFinding → Bool
is_selected f = not (same_action f.effective_action allow)

-- `a` does not sort after `b`: by start, then the longer span, then the stricter action.
unfoldable pub sorts_first : ResolvedFinding → ResolvedFinding → Bool
sorts_first a b =
    if ltb a.start b.start
    then true
    else if ltb b.start a.start
    then false
    else if ltb (b.end - b.start) (a.end - a.start)
    then true
    else if ltb (a.end - a.start) (b.end - b.start)
    then false
    else leb (rank b.effective_action) (rank a.effective_action)

-- `sort_by` is stable.
unfoldable pub insert_sorted : ResolvedFinding → List ResolvedFinding → List ResolvedFinding
unfolding sorts_first
insert_sorted f [] = f ∷ []
insert_sorted f (g ∷ gs) = if sorts_first f g then f ∷ g ∷ gs else g ∷ insert_sorted f gs

unfoldable pub sort_findings : List ResolvedFinding → List ResolvedFinding
unfolding insert_sorted
sort_findings [] = []
sort_findings (f ∷ fs) = insert_sorted f (sort_findings fs)

-- The loop that skips what starts before the last kept finding ends.
unfoldable pub keep_disjoint : ℕ → List ResolvedFinding → List ResolvedFinding
keep_disjoint occupied [] = []
keep_disjoint occupied (f ∷ fs) =
    let rest = keep_disjoint (if ltb f.start occupied then occupied else f.end) fs in
    if ltb f.start occupied then rest else f ∷ rest

-- The findings that are replaced, from left to right.
unfoldable pub chosen : List ResolvedFinding → List ResolvedFinding
unfolding is_selected sort_findings keep_disjoint
chosen findings = keep_disjoint 0 (sort_findings (filter is_selected findings))

module _ (mask : ResolvedFinding → Redacted Text) where
  -- The loop over the chosen findings from right to left.
  unfoldable pub replace_all : Text → List ResolvedFinding → Redacted Text
  unfolding replace_range
  replace_all output [] = ok output
  replace_all output (f ∷ fs) =
      replace_all output fs >>= λ out. mask f >>= λ r. replace_range out f.start f.end r

-- The tokenizer as a function of the start of the finding, for which it draws a UUID.
abbrev pub TokenizerAt : Type 0
TokenizerAt = Option (ℕ → Text → Text → Tokenized Text)

abbrev pub tokenizer_at : TokenizerAt → ℕ → Option (Text → Text → Tokenized Text)
tokenizer_at none i = none
tokenizer_at (some run) i = some (run i)

module _ (sha256_hex : Text → Text) where
  unfoldable pub mask_finding : TokenizerAt → ResolvedFinding → Redacted Text
  unfolding apply_mask
  mask_finding tokenizer f =
      apply_mask sha256_hex (tokenizer_at tokenizer f.start) f.matched f.masking f.label

  -- `redact_text`; the early return for no selected finding is the empty loop.
  unfoldable pub redact_text : Text → List ResolvedFinding → TokenizerAt → Redacted Text
  unfolding chosen replace_all mask_finding
  redact_text input findings tokenizer =
      replace_all (mask_finding tokenizer) input (chosen findings)
