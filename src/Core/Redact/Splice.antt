-- ===== src/Core/Redact/Splice.antt =====
-- The replacements from right to left give the text with each span's mask in its place.
use ctxward.Prelude.{
  ℕ, zero, suc, ◌-◌, ◌≤◌, ◌≡◌, refl, sym, ap, ◌∙◌, true, List, [], ◌∷◌, ◌++◌, Text, length, take,
  drop, length-append, length-take, take-append-drop, All, arith, le→leb,
}
use ctxward.Prelude.Slices.{take-take-append, drop-take-append, take-split}
use mathlib.Core.List.{append_assoc}
use ctxward.Core.Policy.{ResolvedFinding}
use ctxward.Core.Redact.{Redacted, ok, starts_char, is_char_boundary, replace_range, replace_all}

-- The spans lie one after the other, from `lo` on, on char boundaries of the text.
abbrev pub InOrder : Text → ℕ → List ResolvedFinding → Type 0
InOrder s lo [] = Unit
InOrder s lo (f ∷ fs) =
    (lo ≤ f.start)
    × (f.start ≤ f.end)
    × (f.end ≤ length s)
    × (starts_char (drop f.start s) ≡ true)
    × (starts_char (drop f.end s) ≡ true)
    × InOrder s f.end fs

-- The text from offset `lo` on, with the mask of each span in its place.
abbrev pub splice : (ResolvedFinding → Text) → Text → ℕ → List ResolvedFinding → Text
splice m s lo [] = drop lo s
splice m s lo (f ∷ fs) = take (f.start - lo) (drop lo s) ++ (m f ++ splice m s f.end fs)

pub starts_char-append :
    (a b : Text) → starts_char a ≡ true → starts_char b ≡ true → starts_char (a ++ b) ≡ true
unfolding starts_char
starts_char-append [] b h k = k
starts_char-append (c ∷ a) b h k = h

pub starts_char-take : (n : ℕ) (s : Text) → starts_char s ≡ true → starts_char (take n s) ≡ true
unfolding starts_char
starts_char-take zero s h = refl
starts_char-take (suc n) [] h = refl
starts_char-take (suc n) (c ∷ s) h = h

starts_char-drop :
    (i j : ℕ) (s x : Text)
    → i ≤ j
    → j ≤ length s
    → starts_char (drop i s) ≡ true
    → starts_char x ≡ true
    → starts_char (drop i (take j s ++ x)) ≡ true
unfolding starts_char
starts_char-drop zero zero s x h k here there = there
starts_char-drop zero (suc j) [] x h k here there = absurd (omega arith)
starts_char-drop zero (suc j) (c ∷ s) x h k here there = here
starts_char-drop (suc i) zero s x h k here there = absurd (omega arith)
starts_char-drop (suc i) (suc j) [] x h k here there = absurd (omega arith)
starts_char-drop (suc i) (suc j) (c ∷ s) x h k here there =
    starts_char-drop i j s x (omega arith) (omega arith) here there

boundary-prefix :
    (s x : Text) (i j : ℕ)
    → i ≤ j
    → j ≤ length s
    → starts_char (drop i s) ≡ true
    → starts_char x ≡ true
    → is_char_boundary (take j s ++ x) i ≡ true
unfolding is_char_boundary
boundary-prefix s x i j h k here there =
    rw
      (
        starts_char-drop i j s x h k here there,
        le→leb i (length (take j s ++ x))
            (omega (arith, length-append (take j s) x, length-take j s)),
      )
      (ground arith)

-- One replacement, in a text that is unchanged up to the end of the span.
replace_range-prefix :
    (s x r : Text) (a e : ℕ)
    → a ≤ e
    → e ≤ length s
    → starts_char (drop a s) ≡ true
    → starts_char (drop e s) ≡ true
    → starts_char x ≡ true
    → replace_range (take e s ++ x) a e r ≡ ok (take a s ++ (r ++ x))
unfolding replace_range
replace_range-prefix s x r a e h k at_a at_e at_x = rw (
  le→leb a e h,
  boundary-prefix s x a e h k at_a at_x,
  boundary-prefix s x e e (omega arith) k at_e at_x,
  take-take-append a e s x h k,
  drop-take-append e s x k,
)

module _ (mask : ResolvedFinding → Redacted Text) (m : ResolvedFinding → Text) (s : Text) where
  -- The mask succeeds with this text, which does not begin inside a char.
  abbrev pub Masks : ResolvedFinding → Type 0
  Masks f = (mask f ≡ ok (m f)) × (starts_char (m f) ≡ true)

  splice-starts_char :
      (lo : ℕ) (fs : List ResolvedFinding)
      → starts_char (drop lo s) ≡ true
      → InOrder s lo fs
      → All Masks fs
      → starts_char (splice m s lo fs) ≡ true
  splice-starts_char lo [] h o ms = h
  splice-starts_char lo (f ∷ fs) h o ms =
      starts_char-append (take (f.start - lo) (drop lo s)) (m f ++ splice m s f.end fs)
        (starts_char-take (f.start - lo) (drop lo s) h)
        (starts_char-append (m f) (splice m s f.end fs) ms.0.1
          (splice-starts_char f.end fs o.4 o.5 ms.1))

  pub replace_all-from :
      (lo : ℕ) (fs : List ResolvedFinding)
      → lo ≤ length s
      → InOrder s lo fs
      → All Masks fs
      → replace_all mask s fs ≡ ok (take lo s ++ splice m s lo fs)
  unfolding replace_all
  replace_all-from lo [] h o ms = ap ok (sym (take-append-drop lo s))
  replace_all-from lo (f ∷ fs) h o ms =
      let later = replace_all-from f.end fs o.2 o.5 ms.1 in
      let x = splice m s f.end fs in
      let assoc : take lo s ++ (take (f.start - lo) (drop lo s) ++ (m f ++ x))
          ≡ take f.start s ++ (m f ++ x) =
        sym (append_assoc (take lo s) (take (f.start - lo) (drop lo s)) (m f ++ x))
        ∙ ap (λ t. t ++ (m f ++ x)) (take-split lo f.start s o.0) in
      rw (later, ms.0.0, assoc)
        (replace_range-prefix s x (m f) f.start f.end o.1 o.2 o.3 o.4
          (splice-starts_char f.end fs o.4 o.5 ms.1))
