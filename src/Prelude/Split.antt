-- ===== src/Prelude/Split.antt =====
-- More text functions of Rust's standard library: splitting, lines, ends, and the search for bytes.
use Prim.Native.Nat.{ℕ, suc, ◌-◌}
use mathlib.Core.Bool.{Bool, true, false}
use mathlib.Core.Option.{Option, none, some}
use mathlib.Core.List.{List, [], ◌∷◌, ◌++◌}
use ctxward.Prelude.Tests.{eqb, if◌then◌else◌}
use ctxward.Prelude.Lists.{length, drop}
use ctxward.Prelude.Equality.{Text, text_eq}
use ctxward.Prelude.Ascii.{starts_with}

-- `str::split` at one byte; `part` is what was read of the part
unfoldable pub split_from : ℕ → Text → Text → List Text
split_from b part [] = part ∷ []
split_from b part (c ∷ s) = elim (eqb c b) [
  | true ↦ part ∷ split_from b [] s
  | false ↦ split_from b (part ++ c ∷ []) s
]

abbrev pub split : ℕ → Text → List Text
split b s = split_from b [] s

-- The line without a carriage return at its end.
pub strip_return : Text → Text
strip_return [] = []
strip_return (c ∷ s) = elim s [ [] ↦ if eqb c 13 then [] else c ∷ [] | d ∷ ds ↦ c ∷ strip_return s ]

-- `str::lines`
unfoldable pub lines_from : Text → Text → List Text
unfolding strip_return
lines_from [] [] = []
lines_from (d ∷ line) [] = (d ∷ line) ∷ []
lines_from line (c ∷ s) = elim (eqb c 10) [
  | true ↦ strip_return line ∷ lines_from [] s
  | false ↦ lines_from (line ++ c ∷ []) s
]

abbrev pub lines : Text → List Text
lines s = lines_from [] s

-- `str::trim_matches` of one byte
pub trim_start_byte : ℕ → Text → Text
trim_start_byte b [] = []
trim_start_byte b (c ∷ s) = let rest = trim_start_byte b s in if eqb c b then rest else c ∷ s

unfoldable pub trim_end_byte : ℕ → Text → Text
trim_end_byte b [] = []
trim_end_byte b (c ∷ s) = elim (trim_end_byte b s) [
  | [] ↦ if eqb c b then [] else c ∷ []
  | d ∷ ds ↦ c ∷ d ∷ ds
]

unfoldable pub trim_byte : ℕ → Text → Text
unfolding trim_start_byte trim_end_byte
trim_byte b s = trim_end_byte b (trim_start_byte b s)

-- `str::ends_with`
unfoldable pub ends_with : Text → Text → Bool
ends_with suffix s = text_eq (drop (length s - length suffix) s) suffix

abbrev pub shifted : Option ℕ → Option ℕ
shifted none = none
shifted (some i) = some (suc i)

-- `haystack.windows(needle.len()).position(|window| window == needle)`, for a needle that is not
-- empty
unfoldable pub find_subslice : Text → Text → Option ℕ
unfolding starts_with
find_subslice needle [] = none
find_subslice needle (c ∷ s) =
    if starts_with needle (c ∷ s) then some 0 else shifted (find_subslice needle s)
