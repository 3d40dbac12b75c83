-- ===== src/Tests/Redaction.antt =====
-- A text with two findings, apart and overlapping.
use ctxward.Prelude.{
  ℕ, ◌≤◌, ◌≡◌, refl, true, none, List, [], ◌∷◌, Text, bytes, drop, All, Some, arith,
}
use ctxward.Core.Types.{high, redact, full, rank, same_action}
use ctxward.Core.Policy.{ResolvedFinding}
use ctxward.Core.Redact.{
  ok, is_selected, chosen, starts_char, sort_findings, insert_sorted, sorts_first, keep_disjoint,
  mask_finding, apply_mask, redact_text,
}
use ctxward.Core.Redact.Select.{IsSpan, Covers}
use ctxward.Core.Redact.Cover.{chosen-Covers}
use ctxward.Core.Redact.Exact.{redact_text-splice}
use ctxward.Core.Redact.Overlap.{Overlaps, redact_text-Overlaps}

abbrev digest : Text → Text
digest s = 99 ∷ s

abbrev text : Text
text = bytes "abcdefgh"

abbrev at : ℕ → ℕ → ResolvedFinding
at start end = record {
  label = bytes "X";
  rule_name = bytes "x";
  action = redact;
  effective_action = redact;
  pointer = [];
  severity = high;
  masking = full;
  matched_sha256 = [];
  matched_len = 2;
  start = start;
  end = end;
  matched = bytes "ab";
}

abbrev redacted : ResolvedFinding → Text
redacted f = bytes "[REDACTED]"

abbrev apart : List ResolvedFinding
apart = at 5 7 ∷ at 1 3 ∷ []

span :
    (start end : ℕ)
    → start ≤ end
    → end ≤ 8
    → starts_char (drop start text) ≡ true
    → starts_char (drop end text) ≡ true
    → IsSpan text (at start end)
span start end a b c d = record { forward = a; inside = b; at_start = c; at_end = d }

redact_text-splice_example :
    redact_text digest text apart none ≡ ok (bytes "a[REDACTED]de[REDACTED]h")
unfolding chosen sort_findings insert_sorted sorts_first keep_disjoint is_selected same_action rank
    starts_char mask_finding apply_mask
redact_text-splice_example =
    redact_text-splice digest none redacted text apart
      (
        span 5 7 (omega arith) (omega arith) refl refl,
        (span 1 3 (omega arith) (omega arith) refl refl, tt),
      )
      (λ i. tt) ((refl, refl), ((refl, refl), tt))

chosen-Covers_example : All (λ g. is_selected g ≡ true → Some (Covers g) (chosen apart)) apart
chosen-Covers_example = chosen-Covers apart

overlap : Overlaps (at 1 4) (at 2 6)
overlap = record { after = omega arith; inside = omega arith; beyond = omega arith }

redact_text-Overlaps_example :
    redact_text digest text (at 1 4 ∷ at 2 6 ∷ []) none ≡ ok (bytes "a[REDACTED]efgh")
unfolding is_selected same_action rank starts_char mask_finding apply_mask
redact_text-Overlaps_example =
    redact_text-Overlaps digest none redacted text (at 1 4) (at 2 6) overlap refl refl
      (span 1 4 (omega arith) (omega arith) refl refl)
      (span 2 6 (omega arith) (omega arith) refl refl) (λ i. tt) (refl, refl)
