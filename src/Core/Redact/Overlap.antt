-- ===== src/Core/Redact/Overlap.antt =====
-- Two findings that overlap in part: the end of the second one stays in the clear.
use ctxward.Prelude.{ℕ, ◌-◌, ◌<◌, ◌≡◌, true, [], ◌∷◌, ◌++◌, Text, take, drop, arith}
use ctxward.Core.Policy.{ResolvedFinding}
use ctxward.Core.Redact.{
  ok, is_selected, sort_findings, keep_disjoint, chosen, TokenizerAt, tokenizer_at, redact_text,
}
use ctxward.Core.Redact.Select.{IsSpan}
use ctxward.Core.Redact.Masks.{TokensStart}
use ctxward.Core.Redact.Exact.{IsMasked, redact_text-splice}

-- The second finding begins inside the first and ends after it.
pub record Overlaps (f g : ResolvedFinding) : Type 0 where
  pub after : f.start < g.start
  pub inside : g.start < f.end
  pub beyond : f.end < g.end

chosen-Overlaps :
    (f g : ResolvedFinding)
    → Overlaps f g
    → is_selected f ≡ true
    → is_selected g ≡ true
    → chosen (f ∷ g ∷ []) ≡ f ∷ []
unfolding chosen sort_findings keep_disjoint
chosen-Overlaps f g o sf sg = ground arith

sub-zero : (n : ℕ) → n - 0 ≡ n
sub-zero n = omega arith

-- If neither finding is allowed, the result keeps the whole text from the end of the first one
-- on, and so the bytes of the second one that lie there.
pub redact_text-Overlaps :
    (sha256_hex : Text → Text) (tokenizer : TokenizerAt) (m : ResolvedFinding → Text) (s : Text)
    (f g : ResolvedFinding)
    → Overlaps f g
    → is_selected f ≡ true
    → is_selected g ≡ true
    → IsSpan s f
    → IsSpan s g
    → ((i : ℕ) → TokensStart (tokenizer_at tokenizer i))
    → IsMasked sha256_hex tokenizer m f
    → redact_text sha256_hex s (f ∷ g ∷ []) tokenizer ≡ ok (take f.start s ++ (m f ++ drop f.end s))
redact_text-Overlaps sha tokenizer m s f g o sf sg at_f at_g t h =
    let pick = chosen-Overlaps f g o sf sg in
    rw (
      redact_text-splice sha tokenizer m s (f ∷ g ∷ []) (at_f, (at_g, tt)) t (rw pick (h, tt)),
      pick,
      sub-zero f.start,
    )
