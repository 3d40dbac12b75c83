-- ===== src/Attachments/Multipart/Fuel.antt =====
-- The loop over the parts ends: its fuel is enough.
use ctxward.Prelude.{
  ℕ, zero, suc, ◌+◌, ◌≤◌, ◌<◌, ◌≡◌, refl, sym, ap, ◌∙◌, Bool-cases, inl, inr, Option-cases, some,
  [], ◌∷◌, ◌++◌, Text, bytes, length, length-drop, drop, take, arith,
}
use ctxward.Prelude.Ascii.{starts_with}
use ctxward.Prelude.Split.{find_subslice}
use ctxward.Prelude.Search.{find_nil}
use ctxward.Attachments.Multipart.RoundTrip.{part_step}
use ctxward.Attachments.Multipart.{
  MultipartPart, Parts, ok, err, out_of_fuel, cons_part, crlf, blank_line, marker, make_part,
  skip_line_end, parts_loop, parse_multipart_parts,
}

skip_line_end-le : (s : Text) → length (skip_line_end s) ≤ length s
unfolding skip_line_end
skip_line_end-le s = elim (Bool-cases (starts_with crlf s)) [
  | inl e ↦ rw e (omega (arith, length-drop 2 s))
  | inr e ↦ rw e (omega arith)
]

-- What is found is found in something.
found_nonempty : (needle s : Text) (i : ℕ) → find_subslice needle s ≡ some i → 0 < length s
found_nonempty needle [] i h = cc (find_nil needle)
found_nonempty needle (c ∷ s) i h = omega arith

module _ (utf8_lossy : Text → Text) (boundary : Text) where
  -- What is left after a part is shorter.
  rest-shorter :
      (s : Text) (i j : ℕ) (after : Text)
      → drop (i + 4) (skip_line_end s) ≡ after
      → find_subslice (crlf ++ marker boundary) after ≡ some j
      → length (drop (j + 2 + length (marker boundary)) after) < length s
  rest-shorter s i j after e m = omega (
    arith,
    ap length e,
    length-drop (i + 4) (skip_line_end s),
    skip_line_end-le s,
    found_nonempty (crlf ++ marker boundary) after j m,
    length-drop (j + 2 + length (marker boundary)) after,
  )

  cons_part-ends :
      (p : MultipartPart) (o : Parts) → ¬ (o ≡ out_of_fuel) → ¬ (cons_part p o ≡ out_of_fuel)
  cons_part-ends p (ok ps) h e = cc
  cons_part-ends p (err x) h e = cc
  cons_part-ends p out_of_fuel h e = h refl

  not_out : (o : Parts) → ¬ (o ≡ out_of_fuel) → (o' : Parts) → o' ≡ o → ¬ (o' ≡ out_of_fuel)
  not_out o h o' e f = h (sym e ∙ f)

  parts_loop-ends :
      (fuel : ℕ) (s : Text)
      → length s < fuel
      → ¬ (parts_loop utf8_lossy fuel boundary s ≡ out_of_fuel)
  unfolding parts_loop
  parts_loop-ends zero s a = absurd (omega (arith, a))
  parts_loop-ends (suc fuel) s a = elim (Bool-cases (starts_with (bytes "--") s)) [
    | inl e ↦ rw (parts_loop, e) (λ h. cc)
    | inr e ↦
        let part = skip_line_end s in
        elim (Option-cases (find_subslice blank_line part)) [
          | inl n ↦ rw (parts_loop, e, n) (λ h. cc)
          | inr (i, n) ↦
              let after = drop (i + 4) part in
              elim (Option-cases (find_subslice (crlf ++ marker boundary) after)) [
                | inl m ↦ rw (parts_loop, e, n, m) (λ h. cc)
                | inr (j, m) ↦
                    let rest = drop (j + 2 + length (marker boundary)) after in
                    let shorter : length rest < length s = rest-shorter s i j after refl m in
                    not_out
                      (cons_part (make_part utf8_lossy (take i part) (take j after))
                        (parts_loop utf8_lossy fuel boundary rest))
                      (cons_part-ends _ _ (parts_loop-ends fuel rest (omega (arith, shorter, a)))) _
                      (part_step utf8_lossy boundary fuel s part after i j e refl n refl m)
              ]
        ]
  ]

  -- The loop of parse_multipart_parts ends: whatever the body, its fuel, the length of the text after
  -- the first boundary and one more, does not run out.
  pub parse_multipart_parts-ends :
      (body : Text) → ¬ (parse_multipart_parts utf8_lossy body boundary ≡ out_of_fuel)
  unfolding parse_multipart_parts
  parse_multipart_parts-ends body h = elim (Option-cases (find_subslice (marker boundary) body)) [
    | inl n ↦ cc (rw (parse_multipart_parts, n) at h)
    | inr (i, n) ↦
        let s = drop (i + length (marker boundary)) body in
        parts_loop-ends (suc (length s)) s (omega arith) (rw (parse_multipart_parts, n) at h)
  ]
