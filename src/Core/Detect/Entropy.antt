-- ===== src/Core/Detect/Entropy.antt =====
-- crates/ctxward-core/src/detect.rs: the high-entropy tokens of a text. The loop over the chars
-- is one over bytes: every byte of a char that is not ASCII is no token byte, so a token ends at
-- the first byte of such a char, and its other bytes change nothing.
pub mod Runs
pub mod Exact
use ctxward.Prelude.{
  ℕ, suc, ◌+◌, ◌-◌, Bool, true, false, ◌&&◌, ◌||◌, Option, none, some, List, [], ◌∷◌, ◌++◌, Text,
  length, take, drop, filter, leb, eqb, ltb, if◌then◌else◌,
}
use ctxward.Prelude.Ascii.{is_digit, is_upper, is_lower}

pub record EntropyToken : Type 0 where
  pub start : ℕ
  pub end : ℕ
  pub value : Text

unfoldable pub is_entropy_char : ℕ → Bool
unfolding is_digit is_upper is_lower
is_entropy_char c =
    is_digit c
    || is_upper c
    || is_lower c
    || eqb c b'-'
    || eqb c b'_'
    || eqb c b'.'
    || eqb c b'/'
    || eqb c b'+'
    || eqb c b'='

-- `&input[a..b]`
abbrev pub slice : Text → ℕ → ℕ → Text
slice input a b = take (b - a) (drop a input)

-- `counts[b]` at the end of the first loop of `shannon_entropy`
pub byte_count : ℕ → Text → ℕ
byte_count b [] = 0
byte_count b (c ∷ cs) = let rest = byte_count b cs in if eqb c b then suc rest else rest

pub nonzero_counts : ℕ → Text → List ℕ
unfolding byte_count
nonzero_counts ℕ.zero value = []
nonzero_counts (suc b) value =
    let rest = nonzero_counts b value in
    let n = byte_count b value in if ltb 0 n then rest ++ n ∷ [] else rest

-- `start.get_or_insert(idx)` at a token char, `start.take()` at another.
abbrev pub next_start : Bool → Option ℕ → ℕ → Option ℕ
next_start false start idx = none
next_start true none idx = some idx
next_start true (some begin) idx = some begin

-- The comparison of the sum of `-p * p.log2()` with `min_entropy` is a parameter: it is given the
-- bits of `min_entropy`, the counts of the bytes that occur, in their order, and the length.
module _ (sum_at_least : ℕ → List ℕ → ℕ → Bool) (min_length min_entropy : ℕ) where
  -- `shannon_entropy(value) >= min_entropy`
  unfoldable pub entropy_at_least : Text → Bool
  unfolding nonzero_counts
  entropy_at_least value = sum_at_least min_entropy (nonzero_counts 256 value) (length value)

  -- The token from `begin` up to `idx`, if it passes the two tests.
  pub token_at : Text → ℕ → ℕ → List EntropyToken
  token_at input begin idx =
      let value = slice input begin idx in
      if leb min_length (length value) && entropy_at_least value
      then record { start = begin; end = idx; value = value } ∷ []
      else []

  abbrev pub token_from : Text → Option ℕ → ℕ → List EntropyToken
  token_from input none idx = []
  token_from input (some begin) idx = token_at input begin idx

  -- The loop at `idx`, where `rest` is the text from there on.
  pub tokens_loop : Text → Text → ℕ → Option ℕ → List EntropyToken
  unfolding token_at
  tokens_loop input [] idx start = token_from input start idx
  tokens_loop input (c ∷ cs) idx start =
      (if is_entropy_char c then [] else token_from input start idx)
      ++ tokens_loop input cs (suc idx) (next_start (is_entropy_char c) start idx)

  pub high_entropy_tokens : Text → List EntropyToken
  unfolding tokens_loop
  high_entropy_tokens input = tokens_loop input input 0 none
