-- ===== src/Core/Detect/Entropy/Exact.antt =====
-- The tokens that `high_entropy_tokens` reports are the maximal runs of token bytes that pass the
-- two tests.
use ctxward.Prelude.{
  ℕ, suc, ◌+◌, ◌-◌, ◌≤◌, ◌≡◌, refl, ap, ◌∙◌, inl, inr, Bool, true, false, Option, none, some, List,
  [], ◌∷◌, Text, All, All-append, length, leb, le→leb, sym, Bool-cases, arith, if◌then◌else◌,
}
use native.Mathlib.Nat.{add-zero}
use mathlib.Core.Bool.{false≢true}
use ctxward.Core.Detect.Entropy.{
  EntropyToken, is_entropy_char, slice, next_start, entropy_at_least, token_at, token_from,
  tokens_loop, high_entropy_tokens,
}
use ctxward.Core.Detect.Entropy.Runs.{
  token_byte, IsRun, Started, Has, Ahead, Has-append_left, Has-append_right, shift_byte,
  next-Started, next-Ahead,
}

module _ (sum_at_least : ℕ → List ℕ → ℕ → Bool) (min_length min_entropy : ℕ) where
  -- The token is a maximal run, holds the bytes of that run, and passes the two tests.
  pub record IsReported (input : Text) (t : EntropyToken) : Type 0 where
    pub run : IsRun input t.start t.end
    pub value : t.value ≡ slice input t.start t.end
    pub long : min_length ≤ length t.value
    pub random : entropy_at_least sum_at_least min_length min_entropy t.value ≡ true

  token_at-IsReported :
      (input : Text) (a idx : ℕ)
      → token_byte input idx ≡ false
      → Started input (some a) idx
      → All (IsReported input) (token_at sum_at_least min_length min_entropy input a idx)
  unfolding token_at
  token_at-IsReported input a idx e s =
      let value = slice input a idx in
      let run : IsRun input a idx = record {
        nonempty = s.0;
        opens = s.1;
        inside = s.2;
        closes = e;
      } in
      elim (Bool-cases (leb min_length (length value))) [
        | inr short ↦ rw short tt
        | inl long ↦
            elim (Bool-cases (entropy_at_least sum_at_least min_length min_entropy value)) [
              | inr plain ↦ rw (long, plain) tt
              | inl random ↦
                  rw (long, random)
                    (record { run = run; value = refl; long = ground arith; random = random }, tt)
            ]
      ]

  emitted-IsReported :
      (input : Text) (start : Option ℕ) (idx : ℕ) (t : Bool)
      → token_byte input idx ≡ t
      → Started input start idx
      → All
          (IsReported input)
          (if t then [] else token_from sum_at_least min_length min_entropy input start idx)
  emitted-IsReported input start idx true e s = tt
  emitted-IsReported input none idx false e s = tt
  emitted-IsReported input (some a) idx false e s = token_at-IsReported input a idx e s

  tokens_loop-IsReported :
      (input rest : Text) (idx : ℕ) (start : Option ℕ)
      → ((i : ℕ) → token_byte input (idx + i) ≡ token_byte rest i)
      → Started input start idx
      → All
          (IsReported input)
          (tokens_loop sum_at_least min_length min_entropy input rest idx start)
  unfolding tokens_loop
  tokens_loop-IsReported input [] idx none same s = tt
  tokens_loop-IsReported input [] idx (some a) same s =
      token_at-IsReported input a idx (rw add-zero at (same 0)) s
  tokens_loop-IsReported input (c ∷ cs) idx start same s =
      let here : token_byte input idx ≡ is_entropy_char c = rw add-zero at (same 0) in
      let later =
        tokens_loop-IsReported input cs (suc idx) (next_start (is_entropy_char c) start idx)
          (λ i. shift_byte input c cs idx i (same (suc i)))
          (next-Started input start idx (is_entropy_char c) here s) in
      All-append (IsReported input) _ _
        (emitted-IsReported input start idx (is_entropy_char c) here s) later

  token_at-Has :
      (input : Text) (a b : ℕ)
      → min_length ≤ length (slice input a b)
      → entropy_at_least sum_at_least min_length min_entropy (slice input a b) ≡ true
      → Has a b (token_at sum_at_least min_length min_entropy input a b)
  unfolding token_at
  token_at-Has input a b long random = rw (le→leb _ _ long, random) (inl (refl, refl))

  module _ (input : Text) (a b : ℕ) (run : IsRun input a b)
      (long : min_length ≤ length (slice input a b))
      (random : entropy_at_least sum_at_least min_length min_entropy (slice input a b) ≡ true) where
    emitted-Has :
        (start : Option ℕ) (idx : ℕ)
        → idx ≡ b
        → start ≡ some a
        → Has a b (token_from sum_at_least min_length min_entropy input start idx)
    emitted-Has start idx same e = rw (same, e) (token_at-Has input a b long random)

    emitted-Has_if :
        (start : Option ℕ) (idx : ℕ) (t : Bool)
        → token_byte input idx ≡ t
        → idx ≡ b
        → start ≡ some a
        → Has a b (if t then [] else token_from sum_at_least min_length min_entropy input start idx)
    emitted-Has_if start idx false here same e = emitted-Has start idx same e
    emitted-Has_if start idx true here same e =
        absurd (false≢true (sym run.closes ∙ ap (token_byte input) (sym same) ∙ here))

    past_end :
        (idx : ℕ) (start : Option ℕ)
        → ((i : ℕ) → token_byte input (idx + i) ≡ false)
        → ¬ Ahead a b (next_start (token_byte input idx) start idx) (suc idx)
    past_end idx start same ahead =
        let here : token_byte input idx ≡ false = rw add-zero at (same 0) in
        elim (rw here at ahead) [
          | inl (e, _) ↦ cc
          | inr le ↦ false≢true (
              sym (rw (let e : idx + (a - idx) ≡ a = omega arith in e) at (same (a - idx)))
              ∙ run.inside a (omega arith) run.nonempty)
        ]

    tokens_loop-Has :
        (rest : Text) (idx : ℕ) (start : Option ℕ)
        → ((i : ℕ) → token_byte input (idx + i) ≡ token_byte rest i)
        → Started input start idx
        → Ahead a b start idx
        → Has a b (tokens_loop sum_at_least min_length min_entropy input rest idx start)
    unfolding tokens_loop
    tokens_loop-Has [] idx start same s ahead = elim (next-Ahead input start idx a b s run ahead) [
      | inl (ends, e) ↦ emitted-Has start idx ends e
      | inr later ↦ absurd (past_end idx start same later)
    ]
    tokens_loop-Has (c ∷ cs) idx start same s ahead =
        let here : token_byte input idx ≡ is_entropy_char c = rw add-zero at (same 0) in
        elim (next-Ahead input start idx a b s run ahead) [
          | inl (ends, e) ↦
              Has-append_left a b _ _ (emitted-Has_if start idx (is_entropy_char c) here ends e)
          | inr later ↦ Has-append_right a b _ _ (
              tokens_loop-Has cs (suc idx) (next_start (is_entropy_char c) start idx)
                (λ i. shift_byte input c cs idx i (same (suc i)))
                (next-Started input start idx (is_entropy_char c) here s) (rw here at later))
        ]

  -- Every reported token is a maximal run of token bytes, holds the bytes of that run, is not
  -- shorter than `min_length` and passes the entropy test.
  pub high_entropy_tokens-IsReported :
      (input : Text)
      → All (IsReported input) (high_entropy_tokens sum_at_least min_length min_entropy input)
  unfolding high_entropy_tokens
  high_entropy_tokens-IsReported input =
      tokens_loop-IsReported input input 0 none (λ i. ap (token_byte input) (omega arith)) tt

  -- Every maximal run of token bytes that is not shorter than `min_length` and passes the entropy
  -- test is reported.
  pub high_entropy_tokens-Has :
      (input : Text) (a b : ℕ)
      → IsRun input a b
      → min_length ≤ length (slice input a b)
      → entropy_at_least sum_at_least min_length min_entropy (slice input a b) ≡ true
      → Has a b (high_entropy_tokens sum_at_least min_length min_entropy input)
  unfolding high_entropy_tokens
  high_entropy_tokens-Has input a b run long random =
      tokens_loop-Has input a b run long random input 0 none
        (λ i. ap (token_byte input) (omega arith)) tt (inr (omega arith))
