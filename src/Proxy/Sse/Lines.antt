-- ===== src/Proxy/Sse/Lines.antt =====
-- src/proxy.rs: the lines that the stream's buffer is cut into.
use ctxward.Prelude.{
  ℕ, zero, suc, ◌≤◌, ◌≡◌, refl, sym, Bool-cases, Option-cases, inl, inr, none, some, false, List,
  [], ◌∷◌, ◌++◌, Text, eqb, take, drop, length, length-drop, arith, if◌then◌else◌,
}
use ctxward.Proxy.Sse.{newline_at, drain_lines}

abbrev pub Split : Type 0
Split = List Text × Text

-- A byte in front of a text that is split already.
abbrev pub push_front : ℕ → Split → Split
push_front b ([], rest) = ([], b ∷ rest)
push_front b (l ∷ ls, rest) = ((b ∷ l) ∷ ls, rest)

abbrev pub cons_byte : ℕ → Split → Split
cons_byte b p = if eqb b 10 then ((b ∷ []) ∷ p.0, p.1) else push_front b p

-- The lines of a text, each with its newline, and what follows the last newline.
unfoldable pub split_lines : Text → Split
split_lines [] = ([], [])
split_lines (b ∷ s) = cons_byte b (split_lines s)

abbrev pub prepend : List Text → Split → Split
prepend ls p = (ls ++ p.0, p.1)

-- One more byte in front of the first part.
append_step :
    (b : ℕ) (ls : List Text) (r t : Text) (p : Split)
    → p ≡ prepend ls (split_lines (r ++ t))
    → cons_byte b p ≡ prepend (cons_byte b (ls, r)).0 (split_lines ((cons_byte b (ls, r)).1 ++ t))
unfolding split_lines
append_step b [] r t p h = elim (Bool-cases (eqb b 10)) [
  | inl e ↦ rw (h, e) refl
  | inr e ↦ rw (h, e) (rw e refl)
]
append_step b (l ∷ ls) r t p h = elim (Bool-cases (eqb b 10)) [
  | inl e ↦ rw (h, e) refl
  | inr e ↦ rw (h, e) refl
]

-- A text is split like its first part, and what is left of that with the second one.
pub split_lines-append :
    (s t : Text)
    → split_lines (s ++ t) ≡ prepend (split_lines s).0 (split_lines ((split_lines s).1 ++ t))
unfolding split_lines
split_lines-append [] t = refl
split_lines-append (b ∷ s) t =
    append_step b (split_lines s).0 (split_lines s).1 t (split_lines (s ++ t))
      (split_lines-append s t)

cons_byte-rest :
    (b : ℕ) (ls : List Text) (r : Text)
    → split_lines r ≡ ([], r)
    → let rest = (cons_byte b (ls, r)).1 in split_lines rest ≡ ([], rest)
unfolding split_lines
cons_byte-rest b [] r h = elim (Bool-cases (eqb b 10)) [
  | inl e ↦ rw e h
  | inr e ↦ rw e (rw (h, e) refl)
]
cons_byte-rest b (l ∷ ls) r h = elim (Bool-cases (eqb b 10)) [ inl e ↦ rw e h | inr e ↦ rw e h ]

-- What is left of a text has no line in it.
pub split_lines-rest : (s : Text) → split_lines (split_lines s).1 ≡ ([], (split_lines s).1)
unfolding split_lines
split_lines-rest [] = refl
split_lines-rest (b ∷ s) = cons_byte-rest b (split_lines s).0 (split_lines s).1 (split_lines-rest s)

no_newline : (s : Text) → newline_at s ≡ none → split_lines s ≡ ([], s)
unfolding newline_at split_lines
no_newline [] h = refl
no_newline (b ∷ s) h = elim (Bool-cases (eqb b 10)) [
  | inl e ↦ absurd (ground arith)
  | inr e ↦ rw (no_newline s (ground arith), e) refl
]

some_newline :
    (s : Text) (i : ℕ)
    → newline_at s ≡ some i
    → split_lines s ≡ prepend (take (suc i) s ∷ []) (split_lines (drop (suc i) s))
unfolding newline_at split_lines
some_newline [] i h = absurd (ground arith)
some_newline (b ∷ s) zero h = elim (Bool-cases (eqb b 10)) [
  | inl e ↦ rw e refl
  | inr e ↦ absurd (ground arith)
]
some_newline (b ∷ s) (suc i) h =
    let later : newline_at s ≡ some i = ground arith in
    let other : eqb b 10 ≡ false = ground arith in rw (some_newline s i later, other) refl

-- The loop splits the buffer.
pub drain_lines-split : (fuel : ℕ) (s : Text) → length s ≤ fuel → drain_lines fuel s ≡ split_lines s
unfolding drain_lines split_lines
drain_lines-split zero [] h = refl
drain_lines-split zero (b ∷ s) h = absurd (omega arith)
drain_lines-split (suc fuel) s h = elim (Option-cases (newline_at s)) [
  | inl e ↦ rw (drain_lines, e) (sym (no_newline s e))
  | inr (i, e) ↦
      rw
        (
          drain_lines,
          e,
          drain_lines-split fuel (drop (suc i) s) (omega (arith, length-drop (suc i) s)),
        )
        (sym (some_newline s i e))
]
