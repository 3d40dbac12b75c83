-- ===== src/Core/Detect/Entropy/Runs.antt =====
-- Maximal runs of token bytes, and how the loop of `high_entropy_tokens` keeps track of one.
use ctxward.Prelude.{
  ℕ, zero, suc, ◌+◌, ◌≤◌, ◌<◌, ◌≡◌, refl, ◌⊎◌, inl, inr, Bool, true, false, Option, none, some,
  List, [], ◌∷◌, ◌++◌, Text, arith,
}
use mathlib.Core.Path.{subst}
use native.Mathlib.Decide.{dec_lt, ℕ_discrete}
use ctxward.Core.Detect.Entropy.{EntropyToken, is_entropy_char, next_start}

-- Whether the byte at an offset is a token byte; past the end there is none.
abbrev pub token_byte : Text → ℕ → Bool
token_byte [] i = false
token_byte (c ∷ cs) zero = is_entropy_char c
token_byte (c ∷ cs) (suc i) = token_byte cs i

-- No token byte stands before `a`.
abbrev pub Opens : Text → ℕ → Type 0
Opens input zero = Unit
Opens input (suc a) = token_byte input a ≡ false

-- The offsets from `a` up to `b` are a maximal run of token bytes.
pub record IsRun (input : Text) (a b : ℕ) : Type 0 where
  pub nonempty : a < b
  pub opens : Opens input a
  pub inside : (i : ℕ) → a ≤ i → i < b → token_byte input i ≡ true
  pub closes : token_byte input b ≡ false

abbrev pub Started : Text → Option ℕ → ℕ → Type 0
Started input none idx = Opens input idx
Started input (some a) idx =
    (a < idx) × Opens input a × ((i : ℕ) → a ≤ i → i < idx → token_byte input i ≡ true)

-- Some token of the list has these ends.
abbrev pub Has : ℕ → ℕ → List EntropyToken → Type 0
Has a b [] = ⊥
Has a b (t ∷ ts) = ((t.start ≡ a) × (t.end ≡ b)) ⊎ Has a b ts

pub Has-append_left : (a b : ℕ) (xs ys : List EntropyToken) → Has a b xs → Has a b (xs ++ ys)
Has-append_left a b [] ys h = absurd h
Has-append_left a b (x ∷ xs) ys (inl h) = inl h
Has-append_left a b (x ∷ xs) ys (inr h) = inr (Has-append_left a b xs ys h)

pub Has-append_right : (a b : ℕ) (xs ys : List EntropyToken) → Has a b ys → Has a b (xs ++ ys)
Has-append_right a b [] ys h = h
Has-append_right a b (x ∷ xs) ys h = inr (Has-append_right a b xs ys h)

pub shift_byte :
    (input : Text) (c : ℕ) (cs : Text) (idx i : ℕ)
    → token_byte input (idx + suc i) ≡ token_byte (c ∷ cs) (suc i)
    → token_byte input (suc idx + i) ≡ token_byte cs i
shift_byte input c cs idx i h = rw (let e : suc idx + i ≡ idx + suc i = omega arith in e) h

-- One more byte, whatever it is, keeps track of where the current run began.
pub next-Started :
    (input : Text) (start : Option ℕ) (idx : ℕ) (t : Bool)
    → token_byte input idx ≡ t
    → Started input start idx
    → Started input (next_start t start idx) (suc idx)
next-Started input start idx false e s = e
next-Started input none idx true e s =
    (omega arith, s, λ i lo hi. rw (let same : i ≡ idx = omega arith in same) e)
next-Started input (some a) idx true e s = (
  omega arith,
  s.1,
  λ i lo hi. elim (dec_lt i idx) [
    | yes before ↦ s.2 i lo before
    | no other ↦ rw (let same : i ≡ idx = omega arith in same) e
  ],
)

-- The run from `a` to `b` is the one that is under way at `idx`, or it is still to come.
abbrev pub Ahead : ℕ → ℕ → Option ℕ → ℕ → Type 0
Ahead a b start idx = ((start ≡ some a) × (idx ≤ b)) ⊎ (idx ≤ a)

begins :
    (input : Text) (start : Option ℕ) (idx : ℕ)
    → Started input start idx
    → Opens input idx
    → start ≡ none
begins input none idx s o = refl
begins input (some a) zero s o = absurd (omega arith)
begins input (some a) (suc idx) s o = cc (s.2 idx (omega arith) (omega arith))

-- At each byte the run ends here, or it stays ahead.
pub next-Ahead :
    (input : Text) (start : Option ℕ) (idx a b : ℕ)
    → Started input start idx
    → IsRun input a b
    → Ahead a b start idx
    → ((idx ≡ b) × (start ≡ some a))
      ⊎ Ahead a b (next_start (token_byte input idx) start idx) (suc idx)
next-Ahead input start idx a b s run (inl (e, le)) = elim (ℕ_discrete idx b) [
  | yes same ↦ inl (same, e)
  | no other ↦
      let before : a < idx = (subst (λ o. Started input o idx) e s).0 in
      inr (inl (rw (run.inside idx (omega arith) (omega arith), e), omega arith))
]
next-Ahead input start idx a b s run (inr le) = elim (ℕ_discrete idx a) [
  | no other ↦ inr (inr (omega arith))
  | yes same ↦
      let fresh : start ≡ none = begins input start idx s (rw same run.opens) in
      inr (
        inl (
          rw (run.inside idx (omega arith) (omega arith), fresh, same),
          omega (arith, run.nonempty),
        ))
]
