-- ===== src/Core/Redact/Exact.antt =====
-- What `redact_text` returns.
use ctxward.Prelude.{ℕ, ◌≡◌, true, List, [], ◌∷◌, Text, All, arith}
use ctxward.Core.Policy.{ResolvedFinding}
use ctxward.Core.Redact.{
  ok, starts_char, chosen, TokenizerAt, tokenizer_at, mask_finding, redact_text,
}
use ctxward.Core.Redact.Select.{IsSpan, chosen-InOrder}
use ctxward.Core.Redact.Splice.{splice, Masks, replace_all-from}
use ctxward.Core.Redact.Masks.{TokensStart, apply_mask-starts_char}

module _ (sha256_hex : Text → Text) (tokenizer : TokenizerAt) (m : ResolvedFinding → Text) where
  -- The mask of the finding is `m`, and what it matched does not begin inside a char.
  abbrev pub IsMasked : ResolvedFinding → Type 0
  IsMasked f = (mask_finding sha256_hex tokenizer f ≡ ok (m f)) × (starts_char f.matched ≡ true)

  mask_finding-Masks :
      (s : Text) (fs : List ResolvedFinding)
      → ((i : ℕ) → TokensStart (tokenizer_at tokenizer i))
      → All IsMasked fs
      → All (Masks (mask_finding sha256_hex tokenizer) m s) fs
  unfolding mask_finding
  mask_finding-Masks s [] t h = tt
  mask_finding-Masks s (f ∷ fs) t h = (
    (
      h.0.0,
      apply_mask-starts_char sha256_hex (tokenizer_at tokenizer f.start) f.matched f.masking f.label
          (m f) (t f.start) h.0.1 h.0.0,
    ),
    mask_finding-Masks s fs t h.1,
  )

  -- For findings whose spans lie in the text on char boundaries, and chosen findings whose masks
  -- succeed, `redact_text` returns the text with the mask of each chosen finding in the place of
  -- its span, and all else unchanged: it does not panic.
  pub redact_text-splice :
      (s : Text) (fs : List ResolvedFinding)
      → All (IsSpan s) fs
      → ((i : ℕ) → TokensStart (tokenizer_at tokenizer i))
      → All IsMasked (chosen fs)
      → redact_text sha256_hex s fs tokenizer ≡ ok (splice m s 0 (chosen fs))
  unfolding redact_text
  redact_text-splice s fs spans t h =
      replace_all-from (mask_finding sha256_hex tokenizer) m s 0 (chosen fs) (omega arith)
        (chosen-InOrder s fs spans) (mask_finding-Masks s (chosen fs) t h)
