-- ===== src/Presidio/Boundaries.antt =====
-- The offsets that the analyzer counts in characters become boundaries of characters.
use ctxward.Prelude.{
  ℕ, suc, ◌-◌, ◌≤◌, ◌<◌, ◌≡◌, refl, Bool, true, false, Bool-cases, inl, inr, ◌&&◌, ◌||◌,
  Option-cases, List, [], ◌∷◌, Text, All, All-map, length, take, drop, leb, ltb, eqb, leb_false→lt,
  All-append, eq_text, le→leb, arith,
}
use ctxward.Prelude.Ascii.{trim}
use ctxward.Prelude.Slices.{drop-short}
use ctxward.Prelude.Table
use ctxward.Core.Detect.Findings.{DetectionFinding, new_finding}
use ctxward.Core.Redact.{starts_char, is_char_boundary}
use ctxward.Presidio.{
  PresidioAnalyzer, PresidioEntityConfig, AnalyzerResult, Analysis, ok, err, panicked, Reply,
  unreachable, answered, Body, results, unreadable, char_indices, character_boundaries,
  char_offset_to_byte_index, span_finding, item_findings, body_findings, reply_findings, analyze,
  cons_finding, entity_metadata, is_empty,
}

-- A place from `index` on at which a character begins.
IsStart : ℕ → Text → ℕ → Type 0
IsStart index s b = (index ≤ b) × (b - index ≤ length s) × (starts_char (drop (b - index) s) ≡ true)

IsStart-next :
    (index : ℕ) (c : ℕ) (s : Text) (b : ℕ) → IsStart (suc index) s b → IsStart index (c ∷ s) b
unfolding IsStart
IsStart-next index c s b (h, k, e) =
    let n : b - index ≡ suc (b - suc index) = omega (arith, h) in
    (omega (arith, h), rw n (omega (arith, k)), rw n e)

IsStart-first :
    (index : ℕ) (c : ℕ) (s : Text) → starts_char (c ∷ s) ≡ true → IsStart index (c ∷ s) index
unfolding IsStart
IsStart-first index c s e =
    let n : index - index ≡ 0 = omega arith in (omega arith, rw n (omega arith), rw n e)

char_indices-IsStart : (index : ℕ) (s : Text) → All (IsStart index s) (char_indices index s)
unfolding char_indices
char_indices-IsStart index [] = tt
char_indices-IsStart index (c ∷ s) =
    let rest =
      All-map (IsStart (suc index) s) (IsStart index (c ∷ s)) (char_indices (suc index) s)
        (λ b. IsStart-next index c s b) (char_indices-IsStart (suc index) s) in
    elim (Bool-cases (starts_char (c ∷ s))) [
      | inl e ↦ rw e (IsStart-first index c s e, rest)
      | inr e ↦ rw e rest
    ]

or_true : (x : Bool) → (x || true) ≡ true
or_true true = refl
or_true false = refl

IsStart-boundary : (s : Text) (b : ℕ) → IsStart 0 s b → is_char_boundary s b ≡ true
unfolding IsStart is_char_boundary
IsStart-boundary s b h =
    let n : b - 0 ≡ b = omega arith in
    rw (rw n at (h.2), le→leb b (length s) (omega (arith, h.1))) (or_true (eqb b 0))

length-boundary : (s : Text) → is_char_boundary s (length s) ≡ true
unfolding is_char_boundary
length-boundary s =
    rw (le→leb (length s) (length s) (omega arith), drop-short (length s) s (omega arith))
      (or_true (eqb (length s) 0))

-- The byte index is one of the boundaries, or the length.
offset-All :
    (P : ℕ → Type 0) (bs : List ℕ) (i n : ℕ) → All P bs → P n → P (char_offset_to_byte_index bs i n)
unfolding char_offset_to_byte_index
offset-All P [] i n h k = k
offset-All P (b ∷ bs) i n h k = elim (Bool-cases (eqb i 0)) [
  | inl e ↦ rw e h.0
  | inr e ↦ rw e (offset-All P bs (i - 1) n h.1 k)
]

byte_index-boundary :
    (text : Text) (i : ℕ)
    → is_char_boundary text (char_offset_to_byte_index (character_boundaries text) i (length text))
      ≡ true
unfolding character_boundaries
byte_index-boundary text i =
    offset-All (λ b. is_char_boundary text b ≡ true) (character_boundaries text) i (length text)
      (All-append (λ b. is_char_boundary text b ≡ true) (char_indices 0 text) (length text ∷ [])
        (All-map (IsStart 0 text) (λ b. is_char_boundary text b ≡ true) (char_indices 0 text)
          (IsStart-boundary text) (char_indices-IsStart 0 text))
        (length-boundary text, tt))
      (length-boundary text)

-- A finding of this text: a span that is not empty, from one boundary of characters to another, and
-- what stands there.
pub record IsSpan (text pointer : Text) (f : DetectionFinding) : Type 0 where
  pub not_empty : f.start < f.end
  pub starts : is_char_boundary text f.start ≡ true
  pub ends : is_char_boundary text f.end ≡ true
  pub what : f.matched ≡ take (f.end - f.start) (drop f.start text)
  pub where_found : f.pointer ≡ pointer

-- No panic, and only such findings.
abbrev pub IsFine : Text → Text → Analysis → Type 0
IsFine text pointer (ok fs) = All (IsSpan text pointer) fs
IsFine text pointer (err e) = Unit
IsFine text pointer panicked = ⊥

cons_finding-IsFine :
    (text pointer : Text) (f : DetectionFinding) (a : Analysis)
    → IsSpan text pointer f
    → IsFine text pointer a
    → IsFine text pointer (cons_finding f a)
cons_finding-IsFine text pointer f (ok fs) h k = (h, k)
cons_finding-IsFine text pointer f (err e) h k = tt
cons_finding-IsFine text pointer f panicked h k = k

module _ (sha256_hex : Text → Text) (p : PresidioAnalyzer) (text pointer : Text) where
  span_finding-IsFine :
      (entity : PresidioEntityConfig) (start end : ℕ) (rest : Analysis)
      → is_char_boundary text start ≡ true
      → is_char_boundary text end ≡ true
      → IsFine text pointer rest
      → IsFine text pointer (span_finding sha256_hex text pointer entity start end rest)
  unfolding span_finding new_finding
  span_finding-IsFine entity start end rest s e h = elim (Bool-cases (leb end start)) [
    | inl c ↦ rw c h
    | inr c ↦
        rw (c, s, e)
          (cons_finding-IsFine text pointer
            (new_finding sha256_hex start end (take (end - start) (drop start text)) pointer
              (entity_metadata entity))
            rest
            (record {
              not_empty = leb_false→lt end start c;
              starts = s;
              ends = e;
              what = refl;
              where_found = refl;
            })
            h)
  ]

  item_findings-IsFine :
      (items : List AnalyzerResult)
      → IsFine text pointer (item_findings sha256_hex p text pointer items)
  unfolding item_findings
  item_findings-IsFine [] = tt
  item_findings-IsFine (item ∷ items) =
      elim (Option-cases (Table.get item.entity_type p.entity_map)) [
        | inl e ↦ rw (item_findings, e) (item_findings-IsFine items)
        | inr (entity, e) ↦ elim (Bool-cases (p.score_below item.score entity.min_score)) [
          | inl c ↦ rw (item_findings, e, c) (item_findings-IsFine items)
          | inr c ↦
              rw (item_findings, e, c)
                (span_finding-IsFine entity
                  (char_offset_to_byte_index (character_boundaries text) item.start (length text))
                  (char_offset_to_byte_index (character_boundaries text) item.end (length text))
                  (item_findings sha256_hex p text pointer items)
                  (byte_index-boundary text item.start) (byte_index-boundary text item.end)
                  (item_findings-IsFine items))
        ]
      ]

  body_findings-IsFine :
      (body : Body) → IsFine text pointer (body_findings sha256_hex p text pointer body)
  unfolding body_findings
  body_findings-IsFine (unreadable m) = tt
  body_findings-IsFine (results items) = item_findings-IsFine items

  reply_findings-IsFine :
      (reply : Reply) → IsFine text pointer (reply_findings sha256_hex p text pointer reply)
  unfolding reply_findings
  reply_findings-IsFine (unreachable m) = tt
  reply_findings-IsFine (answered status t body) =
      elim (Bool-cases (leb 200 status && ltb status 300)) [
        | inl c ↦ rw c (body_findings-IsFine body)
        | inr c ↦ rw c tt
      ]

-- Whatever the analyzer answers, also offsets outside of the text, its use does not panic, and each
-- finding is a span of the text that is not empty, lies between boundaries of characters, and holds
-- what stands there.
pub analyze-IsFine :
    (sha256_hex : Text → Text) (p : PresidioAnalyzer) (text pointer : Text)
    → IsFine text pointer (analyze sha256_hex p text pointer)
unfolding analyze
analyze-IsFine sha256_hex p text pointer =
    elim (Bool-cases (is_empty (trim text) || is_empty p.entity_map)) [
      | inl c ↦ rw c tt
      | inr c ↦ rw c (reply_findings-IsFine sha256_hex p text pointer (p.exchange text))
    ]
