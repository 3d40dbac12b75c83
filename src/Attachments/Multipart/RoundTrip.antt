-- ===== src/Attachments/Multipart/RoundTrip.antt =====
-- The parts of a rebuilt body.
use ctxward.Prelude.{
  ℕ, zero, suc, ◌+◌, ◌≤◌, ◌<◌, ◌≡◌, refl, sym, ap, ◌∙◌, false, Bool-cases, inl, inr, Option-cases,
  some, List, [], ◌∷◌, ◌++◌, map, Text, All, bytes, length, length-append, take, drop, append_assoc,
  arith,
}
use ctxward.Prelude.Ascii.{starts_with}
use ctxward.Prelude.Split.{find_subslice}
use ctxward.Prelude.Search.{drop-append, take-append, Free, find_subslice-Free, find_subslice-some}
use ctxward.Attachments.Multipart.{
  MultipartPart, Parts, ok, err, out_of_fuel, cons_part, crlf, blank_line, marker, make_part,
  skip_line_end, parts_loop, parse_multipart_parts, rebuild_multipart_body,
}

-- What follows the first boundary of a rebuilt body.
tail : Text → List (Text × Text) → Text
tail boundary [] = bytes "--" ++ crlf
tail boundary ((headers, body) ∷ parts) =
    crlf
    ++ (headers ++ (blank_line ++ (body ++ ((crlf ++ marker boundary) ++ tail boundary parts))))

rebuild-tail :
    (boundary : Text) (parts : List (Text × Text))
    → rebuild_multipart_body boundary parts ≡ marker boundary ++ tail boundary parts
unfolding rebuild_multipart_body tail
rebuild-tail boundary [] = refl
rebuild-tail boundary ((headers, body) ∷ parts) =
    ap (λ t. marker boundary ++ (crlf ++ (headers ++ (blank_line ++ (body ++ (crlf ++ t))))))
      (rebuild-tail boundary parts)

length-tail :
    (boundary : Text) (parts : List (Text × Text)) → length parts ≤ length (tail boundary parts)
unfolding tail
length-tail boundary [] = omega arith
length-tail boundary ((headers, body) ∷ parts) = omega (
  arith,
  length-append headers
      (blank_line ++ (body ++ ((crlf ++ marker boundary) ++ tail boundary parts))),
  length-append body ((crlf ++ marker boundary) ++ tail boundary parts),
  length-append boundary (tail boundary parts),
  length-tail boundary parts,
)

length-map {ℓ κ} :
    {A : Type ℓ} {B : Type κ} (f : A → B) (xs : List A) → length (map f xs) ≡ length xs
length-map f [] = refl
length-map f (x ∷ xs) = ap suc (length-map f xs)

drop_past : (h x y : Text) → drop (length h + length x) (h ++ (x ++ y)) ≡ y
drop_past h x y =
    ap (λ n. drop n (h ++ (x ++ y))) (sym (length-append h x))
    ∙ ap (drop (length (h ++ x))) (sym (append_assoc h x y))
    ∙ drop-append (h ++ x) y

ok_injective : (ps qs : List MultipartPart) → ◌≡◌ {A = Parts} (ok ps) (ok qs) → qs ≡ ps
ok_injective ps qs h = cc

module _ (utf8_lossy : Text → Text) (boundary : Text) where
  -- A part whose headers hold no blank line, and are those that were read.
  IsRead : MultipartPart → Type 0
  IsRead p = Free blank_line p.headers × (p ≡ make_part utf8_lossy p.headers p.body)

  cons_part-ok :
      (p : MultipartPart) (o : Parts) (ps : List MultipartPart)
      → cons_part p o ≡ ok ps
      → (rest : List MultipartPart) × (o ≡ ok rest) × (ps ≡ p ∷ rest)
  cons_part-ok p (ok rest) ps h = (rest, refl, cc)
  cons_part-ok p (err e) ps h = cc
  cons_part-ok p out_of_fuel ps h = cc

  -- One round of the loop.
  pub part_step :
      (fuel : ℕ) (s part after : Text) (i j : ℕ)
      → starts_with (bytes "--") s ≡ false
      → skip_line_end s ≡ part
      → find_subslice blank_line part ≡ some i
      → drop (i + 4) part ≡ after
      → find_subslice (crlf ++ marker boundary) after ≡ some j
      → parts_loop utf8_lossy (suc fuel) boundary s
        ≡ cons_part
            (make_part utf8_lossy (take i part) (take j after))
            (parts_loop utf8_lossy fuel boundary (drop (j + 2 + length (marker boundary)) after))
  unfolding parts_loop
  part_step fuel s part after i j more skip found rest ended =
      rw (parts_loop, more, skip, found, skip, rest, ended, skip, rest) refl

  loop_zero : (s : Text) → parts_loop utf8_lossy 0 boundary s ≡ out_of_fuel
  unfolding parts_loop
  loop_zero s = refl

  make_part-IsRead :
      (part body : Text) (i : ℕ)
      → find_subslice blank_line part ≡ some i
      → IsRead (make_part utf8_lossy (take i part) body)
  unfolding IsRead make_part
  make_part-IsRead part body i found = ((find_subslice-some blank_line part i found).0, refl)

  parts_loop-IsRead :
      (fuel : ℕ) (s : Text) (ps : List MultipartPart)
      → parts_loop utf8_lossy fuel boundary s ≡ ok ps
      → All IsRead ps
  unfolding parts_loop
  parts_loop-IsRead zero s ps h = cc (loop_zero s)
  parts_loop-IsRead (suc fuel) s ps h = elim (Bool-cases (starts_with (bytes "--") s)) [
    | inl e ↦ rw (ok_injective [] ps (rw (parts_loop, e) at h)) tt
    | inr e ↦ elim (Option-cases (find_subslice blank_line (skip_line_end s))) [
      | inl n ↦ cc (rw (parts_loop, e, n) at h)
      | inr (i, n) ↦
          elim (Option-cases
            (find_subslice (crlf ++ marker boundary) (drop (i + 4) (skip_line_end s)))) [
              | inl m ↦ cc (rw (parts_loop, e, n, m) at h)
              | inr (j, m) ↦
                  let part = skip_line_end s in
                  let after = drop (i + 4) part in
                  let r =
                    cons_part-ok (make_part utf8_lossy (take i part) (take j after))
                      (parts_loop utf8_lossy fuel boundary
                        (drop (j + 2 + length (marker boundary)) after))
                      ps (sym (part_step fuel s part after i j e refl n refl m) ∙ h) in
                  rw r.2 (
                    make_part-IsRead part (take j after) i n,
                    parts_loop-IsRead fuel (drop (j + 2 + length (marker boundary)) after) r.0 r.1,
                  )
            ]
    ]
  ]

  with_body : (MultipartPart → Text) → MultipartPart → MultipartPart
  with_body f p = record p { body = f p }

  pair_of : (MultipartPart → Text) → MultipartPart → Text × Text
  pair_of f p = (p.headers, f p)

  same_part :
      (f : MultipartPart → Text) (p : MultipartPart)
      → IsRead p
      → make_part utf8_lossy p.headers (f p) ≡ with_body f p
  unfolding IsRead make_part with_body
  same_part f p r = ap (λ (q : MultipartPart). record q { body = f p }) (sym r.1)

  loop-tail :
      (f : MultipartPart → Text) (ps : List MultipartPart) (fuel : ℕ)
      → All IsRead ps
      → All (λ p. Free (crlf ++ marker boundary) (f p)) ps
      → length ps < fuel
      → parts_loop utf8_lossy fuel boundary (tail boundary (map (pair_of f) ps))
        ≡ ok (map (with_body f) ps)
  unfolding parts_loop tail IsRead pair_of
  loop-tail f ps zero r free h = absurd (omega (arith, h))
  loop-tail f [] (suc fuel) r free h = refl
  loop-tail f (p ∷ ps) (suc fuel) r free h =
      let rest = tail boundary (map (pair_of f) ps) in
      let after = f p ++ ((crlf ++ marker boundary) ++ rest) in
      let part = p.headers ++ (blank_line ++ after) in
      let n : length (f p) + 2 + length (marker boundary)
          ≡ length (f p) + length (crlf ++ marker boundary) =
        omega arith in
      part_step fuel (crlf ++ part) part after (length p.headers) (length (f p)) refl refl
        (find_subslice-Free 13 (10 ∷ 13 ∷ 10 ∷ []) p.headers after r.0.0)
        (drop_past p.headers blank_line after)
        (find_subslice-Free 13 (10 ∷ marker boundary) (f p) rest free.0)
      ∙ rw
          (
            n,
            drop_past (f p) (crlf ++ marker boundary) rest,
            take-append p.headers (blank_line ++ after),
            take-append (f p) ((crlf ++ marker boundary) ++ rest),
            loop-tail f ps fuel r.1 free.1 (omega (arith, h)),
          )
          (ap (λ q. ok (q ∷ map (with_body f) ps)) (same_part f p r.0))

module _ (utf8_lossy : Text → Text) (boundary : Text) where
  parse_multipart_parts-IsRead :
      (body : Text) (ps : List MultipartPart)
      → parse_multipart_parts utf8_lossy body boundary ≡ ok ps
      → All (IsRead utf8_lossy boundary) ps
  unfolding parse_multipart_parts
  parse_multipart_parts-IsRead body ps h =
      elim (Option-cases (find_subslice (marker boundary) body)) [
        | inl n ↦ cc (rw (parse_multipart_parts, n) at h)
        | inr (cursor, n) ↦
            let s = drop (cursor + length (marker boundary)) body in
            parts_loop-IsRead utf8_lossy boundary (suc (length s)) s ps
              (rw (parse_multipart_parts, n) at h)
      ]

  parse-found :
      (body s : Text) (cursor : ℕ)
      → find_subslice (marker boundary) body ≡ some cursor
      → drop (cursor + length (marker boundary)) body ≡ s
      → parse_multipart_parts utf8_lossy body boundary
        ≡ parts_loop utf8_lossy (suc (length s)) boundary s
  unfolding parse_multipart_parts
  parse-found body s cursor n d =
      rw (parse_multipart_parts, n) (ap (λ t. parts_loop utf8_lossy (suc (length t)) boundary t) d)

  -- A body that is parsed, and then rebuilt with new bodies for its parts in which no boundary
  -- begins, is parsed as the same parts with the new bodies: nothing that stands in a part is taken
  -- for a header or a part of its own.
  pub parse-rebuild :
      (body : Text) (ps : List MultipartPart) (f : MultipartPart → Text)
      → parse_multipart_parts utf8_lossy body boundary ≡ ok ps
      → All (λ p. Free (crlf ++ marker boundary) (f p)) ps
      → parse_multipart_parts utf8_lossy
          (rebuild_multipart_body boundary (map (λ (p : MultipartPart). (p.headers, f p)) ps))
          boundary
        ≡ ok (map (λ (p : MultipartPart). record p { body = f p }) ps)
  unfolding pair_of with_body
  parse-rebuild body ps f h free =
      let parts = map (pair_of utf8_lossy boundary f) ps in
      let n : 0 + length (marker boundary) ≡ length (marker boundary) = omega arith in
      ap (λ t. parse_multipart_parts utf8_lossy t boundary) (rebuild-tail boundary parts)
      ∙ parse-found (marker boundary ++ tail boundary parts) (tail boundary parts) 0
          (find_subslice-Free b'-' (b'-' ∷ boundary) [] (tail boundary parts) tt)
          (ap (λ k. drop k (marker boundary ++ tail boundary parts)) n
            ∙ drop-append (marker boundary) (tail boundary parts))
      ∙ loop-tail utf8_lossy boundary f ps (suc (length (tail boundary parts)))
          (parse_multipart_parts-IsRead body ps h) free
          (omega (arith, length-tail boundary parts, length-map (pair_of utf8_lossy boundary f) ps))
